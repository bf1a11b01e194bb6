-- ===== src/Validate.antt =====
-- platform/linux/device_validate.c: the checks that decide whether a device may be overwritten.
-- They only read; each is a function of the machine's state.
pub mod Devices
pub mod Protected
pub mod Unused
pub mod Guard
pub mod Examples
use winafi.Prelude.{
  ℕ, ◌+◌, ◌*◌, ◌%◌, ◌^◌, Bool, true, false, not, ◌&&◌, ◌||◌, Option, none, some, List, [], ◌∷◌,
  ◌++◌, leb, ltb, ◌==◌, if◌then◌else◌, any, length,
}
use winafi.Prelude.Text.{
  CString, codes, str_eq, starts_with, char_at, fit, decimal, last_slash, strstr, scan_word,
}
use winafi.System.{Stat, MntEnt, OpenResult, opened, enoent, ebusy, other_errno, System}
unfoldable pub use winafi.Sysfs.{
  path_max, block_rdev, strip_newline, read_first_line, sysfs_dev_path, devnode_to_sysname,
  sys_block, read_removable_flag, has_usb_ancestor, mount_entry_matches_dev, partition_node,
  partition_rdev, collect_devs,
}

-- The return codes of device_validate.h.
pub data Verdict : Type 0 where
  valid device_too_small system_drive device_locked device_busy not_found : Verdict

abbrev pub is_system_drive : Verdict → Bool
is_system_drive system_drive = true
is_system_drive _ = false

abbrev pub is_valid : Verdict → Bool
is_valid valid = true
is_valid _ = false

abbrev protected_mounts : List CString
protected_mounts =
    codes "/"
    ∷ codes "/boot"
    ∷ codes "/boot/efi"
    ∷ codes "/efi"
    ∷ codes "/home"
    ∷ codes "/var"
    ∷ codes "/usr"
    ∷ []

pub is_protected_mountpoint : CString → Bool
is_protected_mountpoint mountpoint = any (str_eq mountpoint) protected_mounts

-- The contents of `devs` in `child_partition_has_swap`: the partitions, then the disk itself.
pub swap_devs : System → CString → List CString → List ℕ
unfolding collect_devs
swap_devs sys sysname names =
    collect_devs sys (sys_block sysname) 0 names
    ++ elim (block_rdev sys (codes "/dev/" ++ sysname)) [ none ↦ [] | some rdev ↦ rdev ∷ [] ]

swap_line_hits : System → List ℕ → CString → Bool
swap_line_hits sys devs line = elim (scan_word 255 line) [
  | none ↦ false
  | some filename ↦ elim (block_rdev sys filename) [
    | none ↦ false
    | some rdev ↦ any (λ dev. rdev == dev) devs
  ]
]

pub child_partition_has_swap : System → CString → Bool
unfolding swap_devs swap_line_hits
child_partition_has_swap sys sysname = elim (sys.readdir (sys_block sysname)) [
  | none ↦ false
  | some names ↦ elim (sys.fgets (codes "/proc/swaps") 4096) [
    | none ↦ false
    | some lines ↦ elim lines [
      | [] ↦ false
      | header ∷ swaps ↦ any (swap_line_hits sys (swap_devs sys sysname names)) swaps
    ]
  ]
]

-- The contents of `devs` in `child_partition_mounted_at_protected`: the device, then partitions.
pub child_devs : System → CString → ℕ → List ℕ
unfolding collect_devs
child_devs sys sysname self = self ∷ elim (sys.readdir (sys_block sysname)) [
  | none ↦ []
  | some names ↦ collect_devs sys (sys_block sysname) 1 names
]

entry_hits : System → List ℕ → MntEnt → Bool
unfolding mount_entry_matches_dev is_protected_mountpoint
entry_hits sys devs entry =
    any (λ dev. mount_entry_matches_dev sys entry.fsname dev && is_protected_mountpoint entry.dir)
      devs

table_hits : System → List ℕ → CString → Bool
unfolding entry_hits
table_hits sys devs table = elim (sys.getmntent table) [
  | none ↦ false
  | some entries ↦ any (entry_hits sys devs) entries
]

abbrev pub mtab : CString
mtab = codes "/etc/mtab"

abbrev pub proc_mounts : CString
proc_mounts = codes "/proc/mounts"

child_partition_mounted_at_protected : System → CString → Verdict
unfolding child_devs table_hits
child_partition_mounted_at_protected sys devnode = elim (devnode_to_sysname sys devnode 64) [
  | none ↦ not_found
  | some sysname ↦ elim (block_rdev sys devnode) [
    | none ↦ not_found
    | some self ↦
        if any (table_hits sys (child_devs sys sysname self)) (mtab ∷ proc_mounts ∷ [])
        then system_drive
        else valid
  ]
]

abbrev pub one_gb : ℕ
one_gb = 1024 * 1024 * 1024

-- The sum is taken in `uint64_t`.
unfoldable pub validate_device_capacity : ℕ → ℕ → Verdict
validate_device_capacity device_bytes iso_bytes =
    if leb ((iso_bytes + one_gb) % 2 ^ 64) device_bytes then valid else device_too_small

-- One mount table, searched for the device by name: the first entry that names it decides.
scan_table : CString → List MntEnt → Option Verdict
unfolding is_protected_mountpoint
scan_table devnode [] = none
scan_table devnode (entry ∷ entries) = elim (str_eq entry.fsname devnode) [
  | false ↦ scan_table devnode entries
  | true ↦ some (if is_protected_mountpoint entry.dir then system_drive else valid)
]

scan_file : System → CString → CString → Option Verdict
unfolding scan_table
scan_file sys devnode table = elim (sys.getmntent table) [
  | none ↦ none
  | some entries ↦ scan_table devnode entries
]

scan_tables : System → CString → Verdict
unfolding scan_file
scan_tables sys devnode = elim (scan_file sys devnode mtab) [
  | some v ↦ v
  | none ↦ elim (scan_file sys devnode proc_mounts) [ some v ↦ v | none ↦ not_found ]
]

has_swap : System → CString → Bool
unfolding child_partition_has_swap
has_swap sys devnode = elim (devnode_to_sysname sys devnode 64) [
  | none ↦ false
  | some sysname ↦ child_partition_has_swap sys sysname
]

-- A `none` among the arguments of the public functions is a NULL pointer.
pub validate_not_system_drive : System → Option CString → Verdict
unfolding child_partition_mounted_at_protected has_swap scan_tables
validate_not_system_drive sys none = not_found
validate_not_system_drive sys (some devnode) =
    if is_system_drive (child_partition_mounted_at_protected sys devnode)
    then system_drive
    else if has_swap sys devnode
    then system_drive
    else scan_tables sys devnode

pub validate_device_not_locked : System → Option CString → Verdict
validate_device_not_locked sys none = not_found
validate_device_not_locked sys (some devnode) = elim (sys.open_excl devnode) [
  | opened ↦ valid
  | enoent ↦ not_found
  | ebusy ↦ device_locked
  | other_errno ↦ device_locked
]

pub validate_device_is_removable : System → Option CString → Verdict
unfolding read_removable_flag has_usb_ancestor
validate_device_is_removable sys none = not_found
validate_device_is_removable sys (some devnode) = elim (devnode_to_sysname sys devnode 64) [
  | none ↦ not_found
  | some sysname ↦
      if read_removable_flag sys sysname || has_usb_ancestor sys sysname
      then valid
      else system_drive
]

abbrev virtual_prefixes : List CString
virtual_prefixes =
    codes "/dev/loop"
    ∷ codes "/dev/ram"
    ∷ codes "/dev/dm-"
    ∷ codes "/dev/zram"
    ∷ codes "/dev/nbd"
    ∷ codes "/dev/mapper/"
    ∷ []

pub is_virtual : CString → Bool
is_virtual devnode = any (λ prefix. starts_with prefix devnode) virtual_prefixes

-- A line of /proc/mounts whose first field is exactly the node.
pub mount_line_matches : CString → CString → Bool
mount_line_matches node line =
    starts_with node line
    && (char_at line (length node) == b' '
        || char_at line (length node) == b'\t'
        || char_at line (length node) == b'\n')

node_in_mounts : System → CString → Bool
unfolding mount_line_matches
node_in_mounts sys node = elim (sys.fgets proc_mounts 4096) [
  | none ↦ false
  | some lines ↦ any (mount_line_matches node) lines
]

partition_in_mounts : System → CString → CString → Bool
unfolding node_in_mounts
partition_in_mounts sys block_dir name = elim (partition_node sys block_dir name) [
  | none ↦ false
  | some part_dev ↦ node_in_mounts sys part_dev
]

any_partition_in_mounts : System → CString → Bool
unfolding partition_in_mounts
any_partition_in_mounts sys sysname = elim (sys.readdir (sys_block sysname)) [
  | none ↦ false
  | some names ↦ any (partition_in_mounts sys (sys_block sysname)) names
]

-- Checks 4 to 6 of `final_wipe_guard`.
guard_partitions : System → CString → CString → Verdict
unfolding any_partition_in_mounts child_partition_has_swap validate_not_system_drive
guard_partitions sys devnode sysname =
    if any_partition_in_mounts sys sysname
    then device_locked
    else if child_partition_has_swap sys sysname
    then system_drive
    else if is_system_drive (validate_not_system_drive sys (some devnode))
    then system_drive
    else valid

pub final_wipe_guard : System → Option CString → Verdict
unfolding is_virtual node_in_mounts guard_partitions
final_wipe_guard sys none = not_found
final_wipe_guard sys (some devnode) =
    if is_virtual devnode then system_drive else elim (block_rdev sys devnode) [
      | none ↦ not_found
      | some _ ↦
          if node_in_mounts sys devnode
          then device_locked
          else elim (devnode_to_sysname sys devnode 64) [
            | none ↦ not_found
            | some sysname ↦ guard_partitions sys devnode sysname
          ]
    ]
