-- ===== src/Session/Lifecycle/Examples.antt =====
-- The calls that lead up to a write, on the machine of the samples.
use winafi.Prelude.{ap, ◌∙◌, ◌≡◌, ◌≢◌, ◌<◌, refl, true, false, Option, some, List, [], ◌∷◌}
use winafi.Prelude.Text.{CString, str_eq}
use winafi.Device.Examples.{desk_accepts}
use winafi.Session.State.{
  devices_enumerated, State, created, error, prepared, device_selected, Session, create,
  default_options, set_error, IsoInfo,
}
use winafi.Session.Lifecycle.{
  enumerate_devices, load_iso, may_load, accept_iso, is_supported, find_device, is_listed,
  capacity_of, select_device, is_device_selected, check_size, prepare,
}
use winafi.Session.Lifecycle.Target.{
  Call, enumerates, loads, selects, prepares, after, history, prepared_target, failed_code,
}
use winafi.Samples.{sdb, image, desk, stick, windows_image, ready}

pub stick_capacity : capacity_of sdb (stick ∷ []) ≡ 8004304896
unfolding capacity_of find_device str_eq
stick_capacity = refl

abbrev fresh : Session
fresh = record ready {
  current_state = created;
  iso_info = record {
    os_type = winafi.Session.State.unknown;
    total_size_bytes = 0;
    detected_os_str = [];
  };
  devices = [];
  iso_path = [];
  selected_device = [];
  has_callback = false;
}

abbrev detect : CString → Option IsoInfo
detect path = some windows_image

abbrev whole : List Call
whole =
    loads desk detect (some image)
    ∷ enumerates true (some (stick ∷ []))
    ∷ selects desk (some sdb)
    ∷ prepares desk
    ∷ []

fresh_created : create true true true ≡ some fresh
unfolding create default_options
fresh_created = refl

abbrev listed : Session
listed = record fresh {
  current_state = devices_enumerated;
  iso_info = windows_image;
  iso_path = image;
  devices = stick ∷ [];
}

listed_lem :
    history (loads desk detect (some image) ∷ enumerates true (some (stick ∷ [])) ∷ []) fresh
    ≡ listed
unfolding history after load_iso may_load accept_iso is_supported enumerate_devices str_eq
listed_lem = refl

abbrev chosen : Session
chosen = record listed { current_state = device_selected; selected_device = sdb }

chosen_lem : after (selects desk (some sdb)) listed ≡ chosen
unfolding after select_device is_listed find_device str_eq
chosen_lem = rw (desk_accepts, after, select_device) refl

chosen_prepared : (after (prepares desk) chosen).current_state ≡ prepared
unfolding after prepare is_device_selected capacity_of find_device check_size str_eq
chosen_prepared = refl

whole_prepared : (history whole fresh).current_state ≡ prepared
unfolding history
whole_prepared =
    let step : Session → State = λ s. (after (prepares desk) s).current_state in
    ap (λ s. step (after (selects desk (some sdb)) s)) listed_lem
    ∙ ap step chosen_lem
    ∙ chosen_prepared

prepared_target_example :
    0 < capacity_of (history whole fresh).selected_device (history whole fresh).devices
prepared_target_example = prepared_target whole fresh fresh_created whole_prepared

abbrev hasty : List Call
hasty = prepares desk ∷ []

hasty_failed : (history hasty fresh).current_state ≡ error
unfolding history after prepare is_device_selected set_error
hasty_failed = refl

failed_code_example : (history hasty fresh).error_code ≢ []
failed_code_example = failed_code hasty fresh fresh_created hasty_failed
