-- ===== src/Session/Lifecycle.antt =====
-- The steps before the write: listing devices, loading an image, choosing a device, preparing. A
-- step returns its result, 0 as `true`, and the session after it.
pub mod Errors
pub mod Target
pub mod Examples
use winafi.Prelude.{
  ℕ, ◌+◌, Bool, true, false, not, ◌&&◌, ◌||◌, Option, none, some, List, [], ◌∷◌, ltb, ◌==◌,
  if◌then◌else◌, any,
}
use winafi.Prelude.Text.{CString, codes, str_eq, fit}
use winafi.System.{Stat, System}
use winafi.Device.{Device, device_validate}
use winafi.Session.State.{
  State, value, created, iso_loaded, devices_enumerated, device_selected, prepared, executing,
  completed, error, Os, unknown, windows, linux, IsoInfo, Session, set_error,
}

abbrev pub Step : Type 0
Step = Bool × Session

abbrev refuse : CString → CString → Session → Step
refuse code message s = (false, set_error code message s)

abbrev invalid_parameters : Session → Step
invalid_parameters = refuse (codes "E-51-A") (codes "Invalid function parameters")

abbrev invalid_sequence : Session → Step
invalid_sequence = refuse (codes "E-51-B") (codes "Invalid operation sequence")

abbrev iso_missing : Session → Step
iso_missing = refuse (codes "E-10-A") (codes "Windows ISO file not found")

-- `stat(path, &st) == 0 && S_ISREG(st.st_mode)`.
abbrev pub iso_file_exists : System → CString → Bool
iso_file_exists sys path = elim (sys.stat path) [ none ↦ false | some st ↦ st.is_reg ]

abbrev device_is_block_device : System → CString → Bool
device_is_block_device sys path = elim (sys.stat path) [ none ↦ false | some st ↦ st.is_blk ]

-- `pointers` is whether both out-pointers are given; the list is what `device_enumerate` returns,
-- `none` for an error, which leaves an empty list behind.
pub enumerate_devices : Bool → Option (List Device) → Session → Step
enumerate_devices false found s = invalid_parameters s
enumerate_devices true none s =
    refuse (codes "E-00-A") (codes "USB device enumeration failed") (record s { devices = [] })
enumerate_devices true (some found) s =
    (true, record s { devices = found; current_state = devices_enumerated })

may_load : State → Bool
may_load created = true
may_load devices_enumerated = true
may_load _ = false

is_supported : Os → Bool
is_supported windows = true
is_supported linux = true
is_supported unknown = false

accept_iso : CString → IsoInfo → Session → Step
unfolding is_supported
accept_iso path info s =
    if is_supported info.os_type
    then (true, record s { iso_info = info; iso_path = fit 512 path; current_state = iso_loaded })
    else refuse (codes "E-10-C") (codes "Not a valid Windows or Linux ISO") s

-- `detect` is `iso_detect_os`, `none` for a result other than ISO_OK.
pub load_iso : System → (CString → Option IsoInfo) → Option CString → Session → Step
unfolding may_load accept_iso
load_iso sys detect none s = invalid_parameters s
load_iso sys detect (some path) s =
    if not (may_load s.current_state)
    then invalid_sequence s
    else if not (iso_file_exists sys path)
    then iso_missing s
    else elim (detect path) [
      | none ↦ refuse (codes "E-10-C") (codes "Not a valid ISO 9660 image") s
      | some info ↦ accept_iso path info s
    ]

-- The first entry of the list with the given node.
pub find_device : CString → List Device → Option Device
find_device devnode [] = none
find_device devnode (d ∷ ds) = elim (str_eq d.devnode devnode) [
  | true ↦ some d
  | false ↦ find_device devnode ds
]

pub is_listed : CString → List Device → Bool
unfolding find_device
is_listed devnode ds = elim (find_device devnode ds) [ none ↦ false | some d ↦ true ]

-- `device_capacity` stays 0 where the device is not in the list.
pub capacity_of : CString → List Device → ℕ
unfolding find_device
capacity_of devnode ds = elim (find_device devnode ds) [ none ↦ 0 | some d ↦ d.capacity_bytes ]

pub select_device : System → Option CString → Session → Step
unfolding is_listed
select_device sys none s = invalid_parameters s
select_device sys (some devnode) s =
    if ltb (value s.current_state) (value iso_loaded)
    then invalid_sequence s
    else if not (is_listed devnode s.devices)
    then refuse (codes "E-00-A") (codes "USB device not found") s
    else if not (device_validate sys (some devnode))
    then refuse (codes "E-00-G") (codes "Device is locked by another process") s
    else (true, record s { selected_device = fit 64 devnode; current_state = device_selected })

is_device_selected : State → Bool
is_device_selected device_selected = true
is_device_selected _ = false

check_size : ℕ → Option Stat → Session → Step
check_size capacity none s = iso_missing s
check_size capacity (some st) s =
    if ltb capacity st.size
    then refuse (codes "E-00-C") (codes "USB capacity insufficient") s
    else (true, record s { current_state = prepared })

-- The progress report at the start changes nothing in the session.
pub prepare : System → Session → Step
unfolding is_device_selected capacity_of check_size
prepare sys s =
    if not (is_device_selected s.current_state)
    then invalid_sequence s
    else if not (sys.geteuid == 0)
    then refuse (codes "E-01-C") (codes "Insufficient privileges") s
    else if not (device_is_block_device sys s.selected_device)
    then refuse (codes "E-01-A") (codes "Cannot access USB device") s
    else if not (iso_file_exists sys s.iso_path)
    then iso_missing s
    else if capacity_of s.selected_device s.devices == 0
    then refuse (codes "E-00-D") (codes "Cannot read device properties") s
    else check_size (capacity_of s.selected_device s.devices) (sys.stat s.iso_path) s
