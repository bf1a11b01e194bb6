-- ===== src/Session/Lifecycle/Target.antt =====
-- What the calls of the session guarantee, over any history of calls.
use winafi.Prelude.{
  ◌<◌, ◌≡◌, ◌≢◌, sym, ◌∙◌, refl, Bool, true, Option, some, List, [], ◌∷◌, arith, Bool-cases, inl,
  inr,
}
use winafi.Prelude.Text.{CString, fit}
use winafi.System.{System}
use winafi.Device.{Device, device_validate}
use winafi.Session.State.{
  device_selected, prepared, executing, error, IsoInfo, Session, set_error, create, cancel,
  set_progress_callback,
}
use winafi.Os.{Machine}
use winafi.Session.Boot.{Parts}
use winafi.Session.Execute.{execute}
use winafi.Session.Execute.Order.{execute_success, execute_failure}
use winafi.Session.Options.{Setting, set_option, kept}
use winafi.Session.Options.Frame.{Frame, set_option-Frame}
use winafi.Session.Lifecycle.{
  enumerate_devices, load_iso, select_device, prepare, capacity_of, is_listed,
}

-- One call of the interface, with the state of the machine that it meets.
pub data Call : Type 0 where
  enumerates : Bool → Option (List Device) → Call
  loads : System → (CString → Option IsoInfo) → Option CString → Call
  selects : System → Option CString → Call
  prepares : System → Call
  sets : Setting → Call
  cancels : Call
  registers : Bool → Call
  -- `winafi_session_execute`, on a machine with a history of its own
  executes : Machine → Parts → Call

unfoldable pub after : Call → Session → Session
unfolding enumerate_devices load_iso select_device prepare cancel set_progress_callback
after (enumerates pointers found) s = (enumerate_devices pointers found s).1
after (loads sys detect path) s = (load_iso sys detect path s).1
after (selects sys devnode) s = (select_device sys devnode s).1
after (prepares sys) s = (prepare sys s).1
after (sets c) s = kept (set_option c s) s
after cancels s = cancel s
after (registers given) s = set_progress_callback given s
after (executes machine parts) s =
    (execute machine parts (record { session = s; log = [] })).1.session

unfoldable pub history : List Call → Session → Session
unfolding after
history [] s = s
history (c ∷ cs) s = history cs (after c s)

-- Between two calls: no session is executing, a prepared one has a target that stands in the list
-- of devices with a capacity, and a failed one has a code.
pub record Inv (s : Session) : Type 0 where
  pub idle : s.current_state ≢ executing
  pub target : s.current_state ≡ prepared → 0 < capacity_of s.selected_device s.devices
  pub coded : s.current_state ≡ error → s.error_code ≢ []

enumerates-Inv :
    (pointers : Bool) (found : Option (List Device)) (s : Session)
    → Inv s
    → Inv (enumerate_devices pointers found s).1
unfolding enumerate_devices set_error
enumerates-Inv pointers found s v = ground arith

loads-Inv :
    (sys : System) (detect : CString → Option IsoInfo) (path : Option CString) (s : Session)
    → Inv s
    → Inv (load_iso sys detect path s).1
unfolding load_iso set_error
loads-Inv sys detect path s v = ground arith

selects-Inv :
    (sys : System) (devnode : Option CString) (s : Session)
    → Inv s
    → Inv (select_device sys devnode s).1
unfolding select_device set_error
selects-Inv sys devnode s v = ground arith

prepares-Inv : (sys : System) (s : Session) → Inv s → Inv (prepare sys s).1
unfolding prepare set_error
prepares-Inv sys s v = ground arith

sets-Inv : (c : Setting) (s : Session) → Inv s → Inv (kept (set_option c s) s)
sets-Inv c s v = framed s (kept (set_option c s) s) (set_option-Frame c s) v
  where
    framed : (s t : Session) → Frame s t → Inv s → Inv t
    framed s t f v = record {
      idle = λ e. v.idle (sym f.state ∙ e);
      target = λ e. rw (f.list, f.chosen) (v.target (sym f.state ∙ e));
      coded = λ e. rw f.code (v.coded (sym f.state ∙ e));
    }

executes-Inv :
    (machine : Machine) (parts : Parts) (s : Session)
    → Inv (execute machine parts (record { session = s; log = [] })).1.session
executes-Inv machine parts s =
    elim (Bool-cases (execute machine parts (record { session = s; log = [] })).0) [
      | inl written ↦
          let (state, rest) = execute_success machine parts s written in
          record {
            idle = λ e. absurd (ground arith);
            target = λ e. absurd (ground arith);
            coded = λ e. absurd (ground arith);
          }
      | inr failed ↦
          let (state, code) = execute_failure machine parts s failed in
          record {
            idle = λ e. absurd (ground arith);
            target = λ e. absurd (ground arith);
            coded = λ e. code;
          }
    ]

after-Inv : (c : Call) (s : Session) → Inv s → Inv (after c s)
unfolding after
after-Inv (enumerates pointers found) s v = enumerates-Inv pointers found s v
after-Inv (loads sys detect path) s v = loads-Inv sys detect path s v
after-Inv (selects sys devnode) s v = selects-Inv sys devnode s v
after-Inv (prepares sys) s v = prepares-Inv sys s v
after-Inv (sets c) s v = sets-Inv c s v
after-Inv cancels s v = ground arith
after-Inv (registers given) s v = ground arith
after-Inv (executes machine parts) s v = executes-Inv machine parts s

history-Inv : (cs : List Call) (s : Session) → Inv s → Inv (history cs s)
unfolding history
history-Inv [] s v = v
history-Inv (c ∷ cs) s v = history-Inv cs (after c s) (after-Inv c s v)

-- After any calls on a new session, writes included, that leave it prepared, its target stands in the current list of
-- devices, with a capacity.
pub prepared_target :
    (cs : List Call) (s : Session)
    → create true true true ≡ some s
    → (history cs s).current_state ≡ prepared
    → 0 < capacity_of (history cs s).selected_device (history cs s).devices
unfolding create
prepared_target cs s h p = (history-Inv cs s (ground arith)).target p

-- After any calls on a new session, writes included, that leave it in the error state, it has an error code.
pub failed_code :
    (cs : List Call) (s : Session)
    → create true true true ≡ some s
    → (history cs s).current_state ≡ error
    → (history cs s).error_code ≢ []
unfolding create
failed_code cs s h p = (history-Inv cs s (ground arith)).coded p

-- `winafi_select_device` compares the states' numbers: where a session with no image, in any state,
-- enumerates its devices with success, the selection of a listed device that passes
-- `device_validate` succeeds and leaves a session with a device selected and no image.
pub select_without_iso :
    (sys : System) (devs : List Device) (devnode : CString) (s : Session)
    → s.iso_path ≡ []
    → is_listed devnode devs ≡ true
    → device_validate sys (some devnode) ≡ true
    → let t = (enumerate_devices true (some devs) s).1 in
      ((select_device sys (some devnode) t).0 ≡ true)
      × ((select_device sys (some devnode) t).1.current_state ≡ device_selected)
      × ((select_device sys (some devnode) t).1.iso_path ≡ [])
unfolding enumerate_devices select_device
select_without_iso sys devs devnode s e l v = rw (l, v) (refl, refl, e)

-- What the last two steps aim at, where they succeed.
pub prepare_target :
    (sys : System) (s : Session)
    → (prepare sys s).0 ≡ true
    → (prepare sys s).1.selected_device ≡ s.selected_device
unfolding prepare
prepare_target sys s h = ground arith

pub select_target :
    (sys : System) (path : CString) (s : Session)
    → (select_device sys (some path) s).0 ≡ true
    → (select_device sys (some path) s).1.selected_device ≡ fit 64 path
unfolding select_device
select_target sys path s h = ground arith
