-- ===== src/Samples.antt =====
-- A machine with one USB stick, for the tests: /dev/sdb with the partition sdb1, an image /w.iso,
-- and the root file system on /dev/sda1.
use winafi.Prelude.{ℕ, ◌/◌, ◌%◌, true, false, Option, none, some, List, [], ◌∷◌, if◌then◌else◌}
use winafi.Prelude.Int.{pos}
use winafi.Prelude.Text.{CString, codes, str_eq}
use winafi.System.{Stat, MntEnt, opened, System}
use winafi.Partition.{Ped}
use winafi.Device.{Device, UdevDevice}
use winafi.Os.{Machine, exited}
use winafi.Session.State.{prepared, windows, IsoInfo, Session}
use winafi.Session.Boot.{Parts}

abbrev pub sdb : CString
sdb = codes "/dev/sdb"

abbrev pub sdb1 : CString
sdb1 = codes "/dev/sdb1"

abbrev pub sda1 : CString
sda1 = codes "/dev/sda1"

abbrev pub image : CString
image = codes "/w.iso"

abbrev block : ℕ → Option Stat
block rdev = some (record { is_blk = true; is_reg = false; rdev = rdev; size = 0 })

abbrev stat_of : CString → Option Stat
stat_of path =
    if str_eq path sdb
    then block 2064
    else if str_eq path sdb1
    then block 2065
    else if str_eq path sda1
    then block 2049
    else if str_eq path image
    then some (record { is_blk = false; is_reg = true; rdev = 0; size = 4096 })
    else none

abbrev pub root_entry : MntEnt
root_entry = record { fsname = sda1; dir = codes "/" }

abbrev pub root_line : CString
root_line = codes "/dev/sda1 / ext4 rw 0 0\n"

abbrev pub lines_of : CString → Option (List CString)
lines_of path =
    if str_eq path (codes "/proc/mounts")
    then some (root_line ∷ [])
    else if str_eq path (codes "/proc/swaps")
    then some (codes "Filename Type Size\n" ∷ [])
    else none

abbrev pub desk : System
desk = record {
  stat = stat_of;
  realpath = λ path.
      some
        (if str_eq path (codes "/sys/dev/block/8:16") then codes "/sys/devices/usb/sdb" else path);
  access = λ path. str_eq path (codes "/sys/block/sdb/sdb1/partition");
  readdir = λ path. if str_eq path (codes "/sys/block/sdb") then some (codes "sdb1" ∷ []) else none;
  fgets = λ path size. lines_of path;
  getmntent = λ path. some (root_entry ∷ []);
  open_excl = λ path. opened;
  dev_major = λ dev. dev / 256;
  dev_minor = λ dev. dev % 256;
  geteuid = 0;
}

-- The same machine with the root file system on the stick.
abbrev pub live_desk : System
live_desk = record desk {
  getmntent = λ path. some (record { fsname = sdb1; dir = codes "/" } ∷ []);
}

abbrev pub agreeable : Ped
agreeable = record {
  device_get = λ d. true;
  device_length = λ d. 15633408;
  disk_type_get = λ d. true;
  disk_new_fresh = λ d. true;
  get_constraint = λ d. true;
  geometry_init = λ d a b. true;
  fs_type_get = λ d. true;
  partition_new = λ d a b. true;
  add_partition = λ d a b. some (a, b);
  set_boot_flag = λ d. true;
  commit = λ d. true;
}

abbrev pub stick_udev : UdevDevice
stick_udev = record {
  devnode = some sdb;
  sysname = some (codes "sdb");
  sectors = some 15633408;
  id_vendor = none;
  id_model = none;
  id_serial = none;
  id_usb_vendor = some (codes "0951");
  usb_parent = true;
}

abbrev pub stick : Device
stick = record {
  devnode = sdb;
  sysname = codes "sdb";
  capacity_bytes = 8004304896;
  vendor = codes "Unknown";
  model = codes "Unknown";
  serial = codes "Unknown";
  is_removable = true;
  is_mounted = false;
  mount_point = [];
}

abbrev pub helpful : Machine
helpful = record {
  system = λ l. desk;
  ped = λ l. agreeable;
  wait = λ l c. exited 0;
  done = λ l a. true;
  temp_name = λ l. some (codes "/tmp/winafi-mount-a1b2c3");
  exists = λ l path. true;
  cancelled = λ l. false;
}

abbrev pub silent_parts : Parts
silent_parts = record { wue_generate_xml = λ flags name. some (codes "<unattend/>") }

abbrev pub windows_image : IsoInfo
windows_image = record { os_type = windows; total_size_bytes = 4096; detected_os_str = codes "11" }

abbrev pub ready : Session
ready = record {
  current_state = prepared;
  cancelled = false;
  error_code = [];
  error_message = [];
  iso_info = windows_image;
  devices = stick ∷ [];
  iso_path = image;
  selected_device = sdb;
  options = record {
    partition_scheme = 1;
    target_system = 1;
    filesystem = 1;
    cluster_size = 0;
    volume_label = [];
    quick_format = pos 1;
    bad_blocks_enabled = pos 0;
    bad_blocks_passes = pos 1;
    image_option = 0;
    bad_blocks_count = 0;
  };
  unattend_flags = 0;
  unattend_username = [];
  has_callback = true;
  mount_ctx = record { fat_mount = []; ntfs_mount = []; temp_dir = [] };
}
