-- ===== src/Lib.antt =====
-- Winafi writes a Windows or Linux image to a USB stick. This library models the part of it that
-- decides what is written and where: the session that the command line and the window drive, the
-- checks, the partition code, the boot records, the mounts and the file systems below it, the
-- answer file for Windows, the settings and the error messages.
--
-- The parts, and where they stand.
--   System         what the program reads of the kernel: stat(2), sysfs, the mount and swap tables
--   Sysfs, Validate  src/platform/linux/device_validate.c: may a device be overwritten;
--                  `final_wipe_guard` is the last check before a table is written, and
--                  Validate/Unused says in terms of the system what it looks for
--   Partition      src/platform/linux/partition.c: `plan_mbr_partition`, `plan_gpt_partition`,
--                  `partition_calculate_layout`, `partition_wipe_and_create`
--   Device         src/platform/linux/device.c: `device_enumerate`, the mount tests, and
--                  `device_get_info` in Device/Info
--   Os, Os/Io      the effects of the write as a history of events, and the machine that answers
--   Mount          src/platform/linux/mount_ops.c
--   Format         src/platform/linux/fs_ops.c
--   Session        src/platform/linux/session.c: Session/State is `struct winafi_session`,
--                  Session/Options the setters, Session/Lifecycle the calls up to
--                  `winafi_session_prepare`, Session/Execute `winafi_session_execute` with
--                  Session/Boot and Session/Nodes for two of its steps, Session/Devnode is about the
--                  names of the partitions; `progress_fire` of
--                  src/core/progress.c is in Session/Exec
--   Mbr            src/platform/linux/mbr_bootloader.c: Mbr/Disk is the device as its bytes,
--                  Mbr/Calls the calls of the system, Mbr/Bootcode the boot code and the boot flag,
--                  Mbr/Gpt the EFI system partition, Mbr/Install the installation; Mbr/Fields reads
--                  the place of an entry off the device
--   Mkfs           src/platform/linux/filesystem.c: Mkfs/Commands; Mkfs/Shell is how a shell reads
--                  the commands
--   Badblocks      src/platform/linux/badblocks_check.c: Badblocks is the check, Badblocks/Ends the end
--                  of its loops, Badblocks/Covers what it reads
--   Settings       src/platform/linux/settings.c: Settings/Store the entries, Settings/Text the file
--   Messages       src/platform/linux/error_messages.c: one module for each section of its table,
--                  Messages/Lookup the functions
--   Wue            src/platform/linux/wue.c: Wue/Literals the templates, Wue/Generate the answer
--                  file, Wue/Inject its place in a mounted image; Wue/Reader reads tags and order
--                  numbers back
--   Cli            src/cli/cli.c: Cli/Options, Cli/Prompts and Cli/Main
--   Update         src/platform/linux/update.c: the comparison of versions, and the check in Update/Check
--   Prelude        lists, texts and integers over the native numbers, and the library's names
--   Samples        one machine, one stick and one session, for the tests; the modules named
--                  Examples hold the tests of their parents
--
-- How they interact. The command line creates a session, calls its lifecycle and starts its write;
-- Cli/Given joins what the command line asks of the user to what the write waits for. The session
-- calls `device_validate` when a device is selected and again at the start of the write,
-- `partition_wipe_and_create` calls `final_wipe_guard` by itself, and each step
-- of the write leaves by `goto error` with a code. Session/Execute/Causes says what each effect has
-- to wait for; Session/Execute/Rules is a logic for code that keeps to that, with one rule for each
-- way to build a step; Effects, Boots, Stages and Contents apply it to the steps, Order to the
-- whole; Written is what a write that succeeds has done. The write does not call the boot records, the commands of filesystem.c or the settings; it
-- takes the text of the answer file as a parameter.
--
-- How the code is read. A C string is the list of its character codes without the final 0, and a
-- copy into a buffer of `n` bytes keeps the first `n - 1`. A NULL argument is `none`. Numbers are
-- natural numbers; where the code counts in `uint64_t` and can overflow, the remainder by 2 ^ 64 is
-- written out. A result of 0 is `true` or `some`. Code that only reads the machine is a function of
-- a `System`; code that acts is a function of the history so far, which decides every answer of the
-- machine, so that no assumption is made on what changes between two calls. A store past the end of
-- an array is `none` in the planners. Loops are recursions on the list that they read; the one loop
-- that waits, for the nodes of the partitions, has the five rounds of the code. The decimal
-- digits of a number run on fuel, one more than the number, where each round divides it by ten; the
-- loop over the chunks of a device on as much fuel as the device has sectors, which is enough where
-- no read ends inside of its first sector.
--
-- What is not modelled. libudev, libparted, mkfs, mount and grub-install are parameters, the fields
-- of `UdevDevice`, `Ped` and `Machine`; libparted may give a partition another geometry than it is
-- asked for. The shell and its programs are the fields of `Shell`, and the files that the boot
-- records and the settings read are arguments. The extraction of the image
-- (iso_extract.c) and the boot setups (windows_boot.c, linux_boot.c) are single effects that succeed
-- or fail; the detection of the image (iso.c) is a parameter. Of cli.c the lines that only print are
-- left out; the answer of the network to update.c is an argument; a component of a
-- version that does not fit in an `int`, and such a number in the settings, is undefined in C: the
-- first has a result of its own, the second is the number itself. NULL sessions, the pointers to the
-- contexts, allocation and the log are left out. core/error.c, the stages of the progress, SMART,
-- signatures, the network and the window have no module.
pub mod Prelude
pub mod System
pub mod Sysfs
pub mod Validate
pub mod Partition
pub mod Device
pub mod Os
pub mod Badblocks
pub mod Mbr
pub mod Settings
pub mod Messages
pub mod Mkfs
pub mod Mount
pub mod Format
pub mod Session
pub mod Wue
pub mod Cli
pub mod Update
pub mod Samples
