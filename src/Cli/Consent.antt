-- ===== src/Cli/Consent.antt =====
-- What has to be said before `cli_main` writes, and where it then writes.
use winafi.Prelude.{
  Bool, true, false, ◌≡◌, ◌⊎◌, inl, inr, refl, subst, ◌∙◌, some, List, [], ◌∷◌, if◌then◌else◌,
  arith, Any, here, there, Bool-cases, Option-cases, IsTrue,
}
use winafi.Prelude.Int.{pos}
use winafi.Prelude.Text.{CString, codes, str_eq, fit}
use winafi.System.{System}
use winafi.Device.{Device}
use winafi.Session.State.{Session, set_progress_callback}
use winafi.Session.Lifecycle.{enumerate_devices, select_device, prepare, iso_file_exists}
use winafi.Session.Lifecycle.Target.{prepare_target, select_target}
use winafi.Session.Execute.{execute}
use winafi.Session.Execute.Causes.{Causal}
use winafi.Session.Execute.Order.{execute-Causal, execute_success}
use winafi.Session.Execute.Written.{Written}
use winafi.Cli.Options.{Args}
use winafi.Cli.Prompts.{
  strip_line_end, choice_of, get_iso_path_interactive, select_interactive, get_confirmation,
}
use winafi.Cli.Main.{World, Ended, run_write, consent, with_device}

-- Some line of the input is YES.
abbrev pub SaysYes : List CString → Type 0
SaysYes input = Any (λ line. IsTrue (str_eq (strip_line_end line) (codes "YES"))) input

-- A run that wrote: --dangerous was given, and YES typed where neither --iso nor --device was; the
-- effects are those of a write to one path, the one of --device where that was given.
pub record Writes (world : World) (args : Args) (input : List CString) (path : CString) (e : Ended)
    : Type 0 where
  pub dangerous : args.is_dangerous ≡ true
  pub agreed : (args.is_interactive ≡ false) ⊎ SaysYes input
  pub causal : Causal world.machine (fit 64 path) [] e.log
  pub success :
      e.status ≡ pos 0
      → (s : Session) × (s.selected_device ≡ fit 64 path) × Written world.parts s e.log

abbrev pub Careful : World → Args → List CString → CString → Ended → Type 0
Careful world args input path e = (e.log ≡ []) ⊎ Writes world args input path e

confirmed : (input : List CString) → IsTrue (get_confirmation input) → SaysYes input
unfolding get_confirmation
confirmed [] h = absurd (ground arith)
confirmed (line ∷ input) h = here h

module _ (world : World) (args : Args) (path : CString) where
  executed :
      (input : List CString) (s : Session)
      → s.selected_device ≡ fit 64 path
      → args.is_dangerous ≡ true
      → (args.is_interactive ≡ false) ⊎ SaysYes input
      → let (written, end) = execute world.machine world.parts (record { session = s; log = [] }) in
        Writes world args input path
          (record { status = if written then pos 0 else pos 1; log = end.log })
  executed input s aim d a = record {
    dangerous = d;
    agreed = a;
    causal =
        subst
          (λ t.
            Causal world.machine t []
              (execute world.machine world.parts (record { session = s; log = [] })).1.log)
          aim (execute-Causal world.machine world.parts s);
    success = λ zero.
        let (completed, written) = execute_success world.machine world.parts s (
          was_written ((execute world.machine world.parts (record { session = s; log = [] })).0)
            zero) in
        (s, aim, written);
  }
    where
      was_written : (b : Bool) → (if b then pos 0 else pos 1) ≡ pos 0 → b ≡ true
      was_written true h = refl
      was_written false h = absurd (ground arith)

  run_write-Careful :
      (input : List CString) (s : Session)
      → s.selected_device ≡ fit 64 path
      → args.is_dangerous ≡ true
      → (args.is_interactive ≡ false) ⊎ SaysYes input
      → Careful world args input path (run_write world s)
  unfolding run_write set_progress_callback
  run_write-Careful input s aim d a = elim (Bool-cases ((prepare world.system s).0)) [
    | inr bad ↦ rw (run_write, bad) (inl refl)
    | inl ok ↦
        rw (run_write, ok)
          (inr (
            executed input (set_progress_callback true ((prepare world.system s).1))
              (prepare_target world.system s ok ∙ aim) d a))
  ]

  consent-run_write :
      (input : List CString) (s : Session)
      → args.is_dangerous ≡ true
      → (args.is_interactive ≡ false) ⊎ IsTrue (get_confirmation input)
      → consent world args input s ≡ run_write world s
  unfolding consent
  consent-run_write input s d agreed = ground arith

  consent-Careful :
      (input : List CString) (s : Session)
      → s.selected_device ≡ fit 64 path
      → Careful world args input path (consent world args input s)
  unfolding consent
  consent-Careful input s aim = elim (Bool-cases (args.is_dangerous)) [
    | inr safe ↦ inl (ground arith)
    | inl d ↦ elim (Bool-cases (args.is_interactive)) [
      | inr flagged ↦
          rw (consent-run_write input s d (inl flagged))
            (run_write-Careful input s aim d (inl flagged))
      | inl asks ↦ elim (Bool-cases (get_confirmation input)) [
        | inr declined ↦ inl (ground arith)
        | inl typed ↦
            rw (consent-run_write input s d (inr typed))
              (run_write-Careful input s aim d (inr (confirmed input typed)))
      ]
    ]
  ]

  pub with_device-Careful :
      (input : List CString) (s : Session)
      → Careful world args input path (with_device world args path input s)
  unfolding with_device
  with_device-Careful input s =
      let again = (enumerate_devices true world.listed_later s).1 in
      elim (Bool-cases ((select_device world.system (some path) again).0)) [
        | inr bad ↦ rw (with_device, bad) (inl refl)
        | inl ok ↦
            rw (with_device, ok)
              (consent-Careful input ((select_device world.system (some path) again).1)
                (select_target world.system path again ok))
      ]

-- A later question reads a part of the same input.
pub iso_rest :
    (sys : System) (input : List CString)
    → SaysYes (get_iso_path_interactive sys input).rest
    → SaysYes input
unfolding get_iso_path_interactive
iso_rest sys [] h = h
iso_rest sys (line ∷ input) h = elim (Bool-cases (iso_file_exists sys (strip_line_end line))) [
  | inl found ↦ there (rw (get_iso_path_interactive, found) at h)
  | inr again ↦ there (iso_rest sys input (rw (get_iso_path_interactive, again) at h))
]

pub device_rest :
    (devices : List Device) (input : List CString)
    → SaysYes (select_interactive devices input).rest
    → SaysYes input
unfolding select_interactive
device_rest devices [] h = h
device_rest devices (line ∷ input) h =
    elim (Option-cases (choice_of (strip_line_end line) devices)) [
      | inl again ↦ there (device_rest devices input (rw (select_interactive, again) at h))
      | inr (path, found) ↦ there (rw (select_interactive, found) at h)
    ]
