-- ===== src/Session/State.antt =====
-- `struct winafi_session`, its creation, its error report, and the queries on it.
use winafi.Prelude.{
  ℕ, ◌≡◌, refl, Bool, true, false, ◌||◌, Option, none, some, List, [], ◌∷◌, ◌++◌, leb, ◌==◌,
  if◌then◌else◌, length,
}
use winafi.Prelude.Int.{ℤ, pos}
use winafi.Prelude.Text.{CString, codes, starts_with, fit, decimal, last_slash}
use winafi.Device.{Device}
use winafi.Mount.{MountContext}

-- `winafi_session_state_t`, in the order of its values.
pub data State : Type 0 where
  created iso_loaded devices_enumerated device_selected prepared executing completed error : State

abbrev pub value : State → ℕ
value created = 0
value iso_loaded = 1
value devices_enumerated = 2
value device_selected = 3
value prepared = 4
value executing = 5
value completed = 6
value error = 7

-- `os_type` of iso.h.
pub data Os : Type 0 where
  unknown windows linux : Os

pub record IsoInfo : Type 0 where
  pub os_type : Os
  pub total_size_bytes : ℕ
  pub detected_os_str : CString

-- The format options. C enumerators are their numbers; an `int` is an integer.
pub record FormatOptions : Type 0 where
  pub partition_scheme : ℕ
  pub target_system : ℕ
  pub filesystem : ℕ
  pub cluster_size : ℕ
  pub volume_label : CString
  pub quick_format : ℤ
  pub bad_blocks_enabled : ℤ
  pub bad_blocks_passes : ℤ
  pub image_option : ℕ
  pub bad_blocks_count : ℕ

pub record Session : Type 0 where
  pub current_state : State
  pub cancelled : Bool
  pub error_code : CString
  pub error_message : CString
  pub iso_info : IsoInfo
  -- `device_count` is the length
  pub devices : List Device
  pub iso_path : CString
  pub selected_device : CString
  pub options : FormatOptions
  pub unattend_flags : ℕ
  pub unattend_username : CString
  -- whether a progress callback is registered
  pub has_callback : Bool
  pub mount_ctx : MountContext

unfoldable pub default_options : FormatOptions
default_options = record {
  partition_scheme = 1;
  target_system = 1;
  filesystem = 1;
  cluster_size = 0;
  volume_label = [];
  quick_format = pos 1;
  bad_blocks_enabled = pos 0;
  bad_blocks_passes = pos 1;
  image_option = 0;
  bad_blocks_count = 0;
}

-- `winafi_session_create`, with the outcomes of malloc, `device_init` and `partition_init`.
unfoldable pub create : Bool → Bool → Bool → Option Session
unfolding default_options
create allocated device_ctx partition_ctx =
    if allocated
    then if device_ctx then if partition_ctx then some fresh else none else none
    else none
  where
    fresh : Session
    fresh = record {
      current_state = created;
      cancelled = false;
      error_code = [];
      error_message = [];
      iso_info = record { os_type = unknown; total_size_bytes = 0; detected_os_str = [] };
      devices = [];
      iso_path = [];
      selected_device = [];
      options = default_options;
      unattend_flags = 0;
      unattend_username = [];
      has_callback = false;
      mount_ctx = record { fat_mount = []; ntfs_mount = []; temp_dir = [] };
    }

unfoldable pub set_error : CString → CString → Session → Session
set_error code message s = record s {
  error_code = fit 16 code;
  error_message = fit 512 message;
  current_state = error;
}

-- The base name decides whether a `p` stands before the number; `none` is -1.
needs_p : CString → Bool
needs_p base =
    starts_with (codes "nvme") base
    || starts_with (codes "mmcblk") base
    || starts_with (codes "loop") base

base_name : CString → CString
base_name device = elim (last_slash device) [ none ↦ device | some base ↦ base ]

unfoldable pub separator : CString → CString
unfolding needs_p base_name
separator device = if needs_p (base_name device) then codes "p" else []

unfoldable pub build_partition_devnode : CString → ℕ → ℕ → Option CString
unfolding separator
build_partition_devnode device number out_size =
    let node = device ++ (separator device ++ decimal number) in
    if out_size == 0 || number == 0
    then none
    else if leb out_size (length node)
    then none
    else some node

-- `winafi_get_error_code`; `none` is NULL.
unfoldable pub get_error_code : Session → Option CString
get_error_code s = elim s.error_code [ [] ↦ none | c ∷ r ↦ some (c ∷ r) ]

-- `winafi_get_error_message`, over the table that `error_lookup` of core/error.c searches.
unfoldable pub get_error_message : (CString → Option CString) → Session → Option CString
get_error_message error_lookup s = elim s.error_code [
  | [] ↦ none
  | c ∷ r ↦ elim (error_lookup (c ∷ r)) [
    | some msg ↦ some msg
    | none ↦ elim s.error_message [ [] ↦ none | d ∷ m ↦ some (d ∷ m) ]
  ]
]

unfoldable pub cancel : Session → Session
cancel s = record s { cancelled = true }

-- The callback itself is a parameter of the model: what is registered is whether there is one.
unfoldable pub set_progress_callback : Bool → Session → Session
set_progress_callback given s = record s { has_callback = given }

unfoldable pub get_detected_os : Session → Option CString
get_detected_os s = elim s.iso_info.detected_os_str [ [] ↦ none | c ∷ r ↦ some (c ∷ r) ]

sdb_second : build_partition_devnode (codes "/dev/sdb") 2 128 ≡ some (codes "/dev/sdb2")
unfolding build_partition_devnode last_slash decimal starts_with
sdb_second = refl

nvme_first : build_partition_devnode (codes "/dev/nvme0n1") 1 128 ≡ some (codes "/dev/nvme0n1p1")
unfolding build_partition_devnode last_slash decimal starts_with
nvme_first = refl
