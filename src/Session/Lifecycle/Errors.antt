-- ===== src/Session/Lifecycle/Errors.antt =====
-- Every step that fails says why.
use winafi.Prelude.{◌≡◌, ◌≢◌, Bool, false, Option, List, [], arith}
use winafi.Prelude.Text.{CString}
use winafi.System.{System}
use winafi.Device.{Device}
use winafi.Session.State.{error, IsoInfo, Session, set_error}
use winafi.Session.Lifecycle.{enumerate_devices, load_iso, select_device, prepare}

-- In the error state, with a code to report.
pub record Reports (s : Session) : Type 0 where
  pub in_error : s.current_state ≡ error
  pub coded : s.error_code ≢ []

-- A call of `winafi_enumerate_devices` that fails leaves the session in the error state with a
-- code.
pub enumerate-Reports :
    (pointers : Bool) (found : Option (List Device)) (s : Session)
    → (enumerate_devices pointers found s).0 ≡ false
    → Reports (enumerate_devices pointers found s).1
unfolding enumerate_devices set_error
enumerate-Reports pointers found s h = record { in_error = ground arith; coded = ground arith }

-- A call of `winafi_load_iso` that fails leaves the session in the error state with a code.
pub load_iso-Reports :
    (sys : System) (detect : CString → Option IsoInfo) (path : Option CString) (s : Session)
    → (load_iso sys detect path s).0 ≡ false
    → Reports (load_iso sys detect path s).1
unfolding load_iso set_error
load_iso-Reports sys detect path s h = record { in_error = ground arith; coded = ground arith }

-- A call of `winafi_select_device` that fails leaves the session in the error state with a code.
pub select_device-Reports :
    (sys : System) (devnode : Option CString) (s : Session)
    → (select_device sys devnode s).0 ≡ false
    → Reports (select_device sys devnode s).1
unfolding select_device set_error
select_device-Reports sys devnode s h = record { in_error = ground arith; coded = ground arith }

-- A call of `winafi_session_prepare` that fails leaves the session in the error state with a code.
pub prepare-Reports :
    (sys : System) (s : Session) → (prepare sys s).0 ≡ false → Reports (prepare sys s).1
unfolding prepare set_error
prepare-Reports sys s h = record { in_error = ground arith; coded = ground arith }
