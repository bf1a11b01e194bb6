-- ===== src/Cli/Flow.antt =====
-- `cli_main` from its first question on: what it takes to write, and where.
use winafi.Prelude.{
  true, ◌≡◌, ◌⊎◌, inl, inr, refl, sym, ◌∙◌, none, some, List, [], ◌∷◌, arith, Bool-cases,
  Option-cases,
}
use mathlib.Core.Option.{some-injective}
use winafi.Prelude.Text.{CString}
use winafi.Device.{Device}
use winafi.Session.State.{Session}
use winafi.Session.Lifecycle.{enumerate_devices, load_iso}
use winafi.Cli.Options.{Args}
use winafi.Cli.Prompts.{get_iso_path_interactive, select_interactive}
use winafi.Cli.Main.{
  World, Ended, among, ask_device, with_iso, ask_iso, show_devices, with_session, with_args,
}
use winafi.Cli.Consent.{SaysYes, Writes, Careful, with_device-Careful, iso_rest, device_rest}

-- With the path that the run works on: that of --device where it was given.
pub record Names (args : Args) (path : CString) : Type 0 where
  pub is_given : (device : CString) → args.device_path ≡ some device → path ≡ device

abbrev pub IsCareful : World → Args → List CString → Ended → Type 0
IsCareful world args input e =
    (e.log ≡ []) ⊎ ((path : CString) × Names args path × Writes world args input path e)

careful :
    {world : World} {args : Args} {input rest : List CString} {e : Ended} (path : CString)
    → Names args path
    → (SaysYes rest → SaysYes input)
    → Careful world args rest path e
    → IsCareful world args input e
careful path named f (inl quiet) = inl quiet
careful path named f (inr w) = inr (
  path,
  named,
  record {
    dangerous = w.dangerous;
    agreed = elim (w.agreed) [ inl flag ↦ inl flag | inr said ↦ inr (f said) ];
    causal = w.causal;
    success = w.success;
  },
)

widen :
    {world : World} {args : Args} {input rest : List CString} {e : Ended}
    → (SaysYes rest → SaysYes input)
    → IsCareful world args rest e
    → IsCareful world args input e
widen f (inl quiet) = inl quiet
widen f (inr (path, named, w)) = careful path named f (inr w)

module _ (world : World) (args : Args) where
  among-IsCareful :
      (input : List CString) (s : Session) (devices : List Device)
      → args.device_path ≡ none
      → IsCareful world args input (among world args input s devices)
  unfolding among
  among-IsCareful input s [] unnamed = inl refl
  among-IsCareful input s (d ∷ ds) unnamed =
      elim (Option-cases ((select_interactive (d ∷ ds) input).value)) [
        | inl gone ↦ rw (among, gone) (inl refl)
        | inr (path, picked) ↦
            rw (among, picked)
              (careful path (record { is_given = λ device h. absurd (cc (sym unnamed ∙ h)) })
                (device_rest (d ∷ ds) input)
                (with_device-Careful world args path ((select_interactive (d ∷ ds) input).rest) s))
      ]

  ask_device-IsCareful :
      (input : List CString) (s : Session)
      → args.device_path ≡ none
      → IsCareful world args input (ask_device world args input s)
  unfolding ask_device
  ask_device-IsCareful input s unnamed =
      elim (Bool-cases ((enumerate_devices true world.listed s).0)) [
        | inr bad ↦ rw (ask_device, bad) (inl refl)
        | inl ok ↦ rw (ask_device, ok) (among-IsCareful input _ _ unnamed)
      ]

  with_iso-IsCareful :
      (path : CString) (input : List CString) (s : Session)
      → IsCareful world args input (with_iso world args path input s)
  unfolding with_iso
  with_iso-IsCareful path input s =
      let image = (load_iso world.system world.detect (some path) s).1 in
      elim (Bool-cases ((load_iso world.system world.detect (some path) s).0)) [
        | inr bad ↦ rw (with_iso, bad) (inl refl)
        | inl ok ↦ elim (Option-cases (args.device_path)) [
          | inl unnamed ↦ simp (with_iso, ok, unnamed) (ask_device-IsCareful input image unnamed)
          | inr (device, given) ↦
              simp (with_iso, ok, given)
                (careful device
                  (record { is_given = λ other h. some-injective _ _ (sym given ∙ h) })
                  (λ said. said) (with_device-Careful world args device input image))
        ]
      ]

  ask_iso-IsCareful :
      (input : List CString) (s : Session) → IsCareful world args input (ask_iso world args input s)
  unfolding ask_iso
  ask_iso-IsCareful input s = elim (Option-cases (args.iso_path)) [
    | inr (path, given) ↦ simp (ask_iso, given) (with_iso-IsCareful path input s)
    | inl asks ↦ elim (Option-cases ((get_iso_path_interactive world.system input).value)) [
      | inl gone ↦ simp (ask_iso, asks, gone) (inl refl)
      | inr (path, typed) ↦
          simp (ask_iso, asks, typed)
            (widen (iso_rest world.system input)
              (with_iso-IsCareful path ((get_iso_path_interactive world.system input).rest) s))
    ]
  ]

  session_quiet :
      (input : List CString) (s : Session)
      → ((with_session world args input s).log ≡ [])
        ⊎ (with_session world args input s ≡ ask_iso world args input s)
  unfolding with_session show_devices
  session_quiet input s = ground arith

  pub with_args-IsCareful :
      (input : List CString) → IsCareful world args input (with_args world input args)
  unfolding with_args
  with_args-IsCareful input = elim (Bool-cases (args.wants_help)) [
    | inl helps ↦ inl (ground arith)
    | inr h ↦ elim (Option-cases (world.new_session)) [
      | inl failed ↦ simp (with_args, h, failed) (inl refl)
      | inr (s, made) ↦ elim (session_quiet input s) [
        | inl quiet ↦ simp (with_args, h, made) (inl quiet)
        | inr asks ↦ simp (with_args, h, made, asks) (ask_iso-IsCareful input s)
      ]
    ]
  ]
