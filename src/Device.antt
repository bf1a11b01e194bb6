-- ===== src/Device.antt =====
-- platform/linux/device.c: the list of disks, and the checks on one of them.
pub mod Enumerate
pub mod Info
pub mod Examples
use winafi.Prelude.{
  ℕ, zero, suc, ◌+◌, ◌*◌, ◌%◌, ◌^◌, Bool, true, false, not, ◌&&◌, ◌||◌, Option, none, some, List,
  [], ◌∷◌, ltb, ◌==◌, if◌then◌else◌, any, length, drop,
}
use winafi.Prelude.Text.{CString, codes, starts_with, char_at, fit, word, skip_spaces, scan_word}
use winafi.System.{Stat, System}
use winafi.Validate.{
  Verdict, valid, is_valid, is_system_drive, partition_node, sys_block, proc_mounts,
  validate_not_system_drive, validate_device_not_locked, validate_device_is_removable,
}

-- `winafi_device_t` of winafi.h.
pub record Device : Type 0 where
  pub devnode : CString
  pub sysname : CString
  pub capacity_bytes : ℕ
  pub vendor : CString
  pub model : CString
  pub serial : CString
  pub is_removable : Bool
  pub is_mounted : Bool
  pub mount_point : CString

-- A line of /proc/mounts for the node: here the separators are blank, tab and the terminator.
pub is_mount_line : CString → CString → Bool
is_mount_line node line =
    starts_with node line
    && (char_at line (length node) == b' '
        || char_at line (length node) == b'\t'
        || char_at line (length node) == 0)

-- The argument is `none` for a NULL pointer.
pub device_is_mounted : System → Option CString → Bool
unfolding is_mount_line
device_is_mounted sys none = false
device_is_mounted sys (some devnode) = elim (sys.fgets proc_mounts 4096) [
  | none ↦ false
  | some lines ↦ any (is_mount_line devnode) lines
]

-- The second word of a line, `none` where `sscanf` does not reach it; the first is cut at 255.
second_word : CString → Option CString
second_word line = elim (scan_word 255 line) [
  | none ↦ none
  | some first ↦ scan_word 255 (drop (length first) (skip_spaces line))
]

-- The first line for the node decides; `none` is -1.
find_mount_line : CString → ℕ → List CString → Option CString
unfolding is_mount_line second_word
find_mount_line devnode out_size [] = none
find_mount_line devnode out_size (line ∷ lines) = elim (is_mount_line devnode line) [
  | false ↦ find_mount_line devnode out_size lines
  | true ↦ elim (second_word line) [ none ↦ none | some point ↦ some (fit out_size point) ]
]

pub device_find_mount_point : System → CString → ℕ → Option CString
unfolding find_mount_line
device_find_mount_point sys devnode out_size = elim (sys.fgets proc_mounts 4096) [
  | none ↦ none
  | some lines ↦ find_mount_line devnode out_size lines
]

partition_mounted : System → CString → CString → Bool
unfolding device_is_mounted
partition_mounted sys dir name = elim (partition_node sys dir name) [
  | none ↦ false
  | some part_dev ↦ device_is_mounted sys (some part_dev)
]

pub device_is_whole_disk_mounted : System → CString → Bool
unfolding partition_mounted
device_is_whole_disk_mounted sys sysname = elim (sys.readdir (sys_block sysname)) [
  | none ↦ false
  | some names ↦ any (partition_mounted sys (sys_block sysname)) names
]

first_mount_point : System → CString → ℕ → List CString → Option CString
unfolding device_find_mount_point
first_mount_point sys dir out_size [] = none
first_mount_point sys dir out_size (name ∷ names) = elim (partition_node sys dir name) [
  | none ↦ first_mount_point sys dir out_size names
  | some part_dev ↦ elim (device_find_mount_point sys part_dev out_size) [
    | none ↦ first_mount_point sys dir out_size names
    | some point ↦ some point
  ]
]

pub device_find_first_mount_point : System → CString → ℕ → Option CString
unfolding first_mount_point
device_find_first_mount_point sys sysname out_size = elim (sys.readdir (sys_block sysname)) [
  | none ↦ none
  | some names ↦ first_mount_point sys (sys_block sysname) out_size names
]

-- What libudev tells of one disk; `capacity` is what `device_get_capacity` reads from
-- /sys/block/<disk>/size, in sectors, `none` where the file or its number is missing.
pub record UdevDevice : Type 0 where
  pub devnode : Option CString
  pub sysname : Option CString
  pub sectors : Option ℕ
  pub id_vendor : Option CString
  pub id_model : Option CString
  pub id_serial : Option CString
  pub id_usb_vendor : Option CString
  pub usb_parent : Bool

skipped_prefixes : List CString
skipped_prefixes =
    codes "/dev/loop"
    ∷ codes "/dev/ram"
    ∷ codes "/dev/dm-"
    ∷ codes "/dev/zram"
    ∷ codes "/dev/nbd"
    ∷ []

pub device_should_skip : UdevDevice → Bool
unfolding skipped_prefixes
device_should_skip dev = elim dev.devnode [
  | none ↦ true
  | some dn ↦ any (λ prefix. starts_with prefix dn) skipped_prefixes
]

-- The product is taken in `uint64_t`.
pub device_get_capacity : UdevDevice → ℕ
device_get_capacity dev = elim dev.sysname [
  | none ↦ 0
  | some _ ↦ elim dev.sectors [ none ↦ 0 | some n ↦ n * 512 % 2 ^ 64 ]
]

device_is_usb_device : UdevDevice → Bool
device_is_usb_device dev = elim dev.id_usb_vendor [ some _ ↦ true | none ↦ dev.usb_parent ]

abbrev or_else : Option CString → CString → CString
or_else none d = d
or_else (some s) d = s

mounted_at : System → Option CString → Bool × CString
unfolding device_is_whole_disk_mounted device_find_first_mount_point
mounted_at sys none = (false, [])
mounted_at sys (some sysname) =
    if device_is_whole_disk_mounted sys sysname
    then (true, or_else (device_find_first_mount_point sys sysname 256) [])
    else (false, [])

-- The entry that both `device_enumerate` and `device_get_info` fill.
device_entry : System → UdevDevice → CString → ℕ → Device
unfolding device_is_usb_device mounted_at
device_entry sys dev devnode capacity =
    let (mounted, point) = mounted_at sys dev.sysname in
    record {
      devnode = fit 64 devnode;
      sysname = fit 32 (or_else dev.sysname []);
      capacity_bytes = capacity;
      vendor = fit 256 (or_else dev.id_vendor (codes "Unknown"));
      model = fit 256 (or_else dev.id_model (codes "Unknown"));
      serial = fit 256 (or_else dev.id_serial (codes "Unknown"));
      is_removable =
          device_is_usb_device dev || is_valid (validate_device_is_removable sys (some devnode));
      is_mounted = mounted;
      mount_point = point;
    }

-- The test that both passes of `device_enumerate` apply; `none` says `continue`.
pub candidate : System → UdevDevice → Option Device
unfolding device_should_skip device_get_capacity device_entry
candidate sys dev =
    if device_should_skip dev
    then none
    else if device_get_capacity dev == 0
    then none
    else elim dev.devnode [
      | none ↦ none
      | some devnode ↦ some (device_entry sys dev devnode (device_get_capacity dev))
    ]

pub count_devices : System → List UdevDevice → ℕ
unfolding candidate
count_devices sys [] = 0
count_devices sys (dev ∷ devs) = elim (candidate sys dev) [
  | none ↦ count_devices sys devs
  | some _ ↦ suc (count_devices sys devs)
]

-- The second pass writes no more than `room` entries: `if (idx >= count) break`.
pub fill_devices : System → ℕ → List UdevDevice → List Device
unfolding candidate
fill_devices sys room [] = []
fill_devices sys zero (dev ∷ devs) = []
fill_devices sys (suc room) (dev ∷ devs) = elim (candidate sys dev) [
  | none ↦ fill_devices sys (suc room) devs
  | some d ↦ d ∷ fill_devices sys room devs
]

-- The two passes over the list of disks, which udev may answer differently; a count of 0 returns
-- before the second. A failed scan or allocation is the caller's `none`.
pub device_enumerate : System → List UdevDevice → List UdevDevice → List Device
unfolding count_devices fill_devices
device_enumerate sys first second = fill_devices sys (count_devices sys first) second

-- 0 is `true`.
pub device_validate : System → Option CString → Bool
device_validate sys none = false
device_validate sys (some devnode) = elim (sys.stat devnode) [
  | none ↦ false
  | some st ↦
      if not st.is_blk
      then false
      else if is_system_drive (validate_not_system_drive sys (some devnode))
      then false
      else if sys.geteuid == 0 && not (is_valid (validate_device_not_locked sys (some devnode)))
      then false
      else true
]
