-- ===== src/Os.antt =====
-- The effects of the program as a history of events, and the machine that answers them. The answer
-- to each effect may depend on everything done before it.
pub mod Io
use winafi.Prelude.{ℕ, Bool, true, false, Option, List, ◌==◌}
use winafi.Prelude.Text.{CString}
use winafi.System.{System}
use winafi.Partition.{Ped, Table}

-- `mount -t <fs>` as run_mount is called.
pub data MountType : Type 0 where
  vfat ntfs_3g ntfs3 ntfs : MountType

-- The programs that are started by fork and execve.
pub data Command : Type 0 where
  which : CString → Command
  -- timeout 30 mkfs.vfat -n <label> <device>
  mkfs_vfat : CString → CString → Command
  -- timeout 30 mkfs.ntfs -f -L <label> <device>
  mkfs_ntfs : CString → CString → Command
  mount : MountType → CString → CString → Command
  grub_install : CString → Command

-- What fork and waitpid report.
pub data Wait : Type 0 where
  fork_failed wait_failed signaled : Wait
  exited : ℕ → Wait

abbrev pub exit_ok : Wait → Bool
exit_ok (exited n) = n == 0
exit_ok _ = false

-- The parts of the boot setup and of the ISO code that `session.c` calls; their own effects stand
-- behind the one action.
pub data BootAction : Type 0 where
  extract_iso : CString → CString → BootAction
  inject_autounattend inject_wue : CString → CString → BootAction
  detect_windows : CString → BootAction
  -- the mount point and the file system option
  windows_boot linux_boot : CString → ℕ → BootAction
  uefi_ntfs : CString → BootAction

pub data Action : Type 0 where
  progress : ℕ → CString → Action
  spawn : Command → Action
  commit : CString → Table → Action
  mkdtemp mkdir rmdir umount sync_path : CString → Action
  boot : BootAction → Action
  sleep : Action

-- `succeeded` is whether the call reported success.
pub record Event : Type 0 where
  pub action : Action
  pub succeeded : Bool

-- The newest event first.
abbrev pub Log : Type 0
Log = List Event

pub record Machine : Type 0 where
  -- what device_validate.c and device.c read
  pub system : Log → System
  -- libparted
  pub ped : Log → Ped
  pub wait : Log → Command → Wait
  -- mkdir, rmdir, umount2, syncfs and the boot actions: whether the call succeeds
  pub done : Log → Action → Bool
  -- the name that mkdtemp chooses
  pub temp_name : Log → Option CString
  -- `access(path, F_OK) == 0`
  pub exists : Log → CString → Bool
  -- `session->cancelled`, which another thread may set
  pub cancelled : Log → Bool
