-- ===== src/Cli/Given.antt =====
-- `cli_main` as a whole, from the options and the input.
use winafi.Prelude.{
  true, false, ◌≡◌, ◌⊎◌, inl, inr, refl, sym, ap, subst, ◌∙◌, some, List, [], ◌∷◌, arith, Any, here,
  there, Option-cases, Member,
}
use mathlib.Core.Option.{some-injective}
use winafi.Prelude.Int.{pos}
use winafi.Prelude.Text.{CString, fit}
use winafi.Session.State.{Session}
use winafi.Session.Execute.Causes.{Causal}
use winafi.Session.Execute.Written.{Written}
use winafi.Cli.Options.{
  Opt, iso, device, list, dangerous, verbose, help, other, Args, no_args, parse_options,
}
use winafi.Cli.Main.{World, Ended, with_args, cli_main}
use winafi.Cli.Consent.{SaysYes}
use winafi.Cli.Flow.{Names, IsCareful, with_args-IsCareful}

-- --iso or --device.
abbrev pub IsPath : Opt → Type 0
IsPath o = (path : CString) × ((o ≡ iso path) ⊎ (o ≡ device path))

later :
    {A : Type 0} {P : Opt → Type 0} {o : Opt} {opts : List Opt}
    → A ⊎ Any P opts
    → A ⊎ Any P (o ∷ opts)
later (inl a) = inl a
later (inr m) = inr (there m)

-- A flag that is set at the end was set before, or by an option.
parsed_dangerous :
    (opts : List Opt) (before args : Args)
    → parse_options opts before ≡ some args
    → args.is_dangerous ≡ true
    → (before.is_dangerous ≡ true) ⊎ Member dangerous opts
unfolding parse_options
parsed_dangerous [] before args h d = inl (ap Args.is_dangerous (some-injective _ _ h) ∙ d)
parsed_dangerous (dangerous ∷ opts) before args h d = inr (here refl)
parsed_dangerous (other ∷ opts) before args h d = absurd (cc h)
parsed_dangerous (iso path ∷ opts) before args h d = later (parsed_dangerous opts _ args h d)
parsed_dangerous (device path ∷ opts) before args h d = later (parsed_dangerous opts _ args h d)
parsed_dangerous (list ∷ opts) before args h d = later (parsed_dangerous opts _ args h d)
parsed_dangerous (verbose ∷ opts) before args h d = later (parsed_dangerous opts _ args h d)
parsed_dangerous (help ∷ opts) before args h d = later (parsed_dangerous opts _ args h d)

parsed-IsPath :
    (opts : List Opt) (before args : Args)
    → parse_options opts before ≡ some args
    → args.is_interactive ≡ false
    → (before.is_interactive ≡ false) ⊎ Any IsPath opts
unfolding parse_options
parsed-IsPath [] before args h d = inl (ap Args.is_interactive (some-injective _ _ h) ∙ d)
parsed-IsPath (iso path ∷ opts) before args h d = inr (here (path, inl refl))
parsed-IsPath (device path ∷ opts) before args h d = inr (here (path, inr refl))
parsed-IsPath (other ∷ opts) before args h d = absurd (cc h)
parsed-IsPath (list ∷ opts) before args h d = later (parsed-IsPath opts _ args h d)
parsed-IsPath (dangerous ∷ opts) before args h d = later (parsed-IsPath opts _ args h d)
parsed-IsPath (verbose ∷ opts) before args h d = later (parsed-IsPath opts _ args h d)
parsed-IsPath (help ∷ opts) before args h d = later (parsed-IsPath opts _ args h d)

-- A run that wrote.
pub record Consented (world : World) (opts : List Opt) (input : List CString) (e : Ended)
    : Type 0 where
  pub dangerous_given : Member dangerous opts
  pub agreed : Any IsPath opts ⊎ SaysYes input
  pub path : CString
  pub named : (args : Args) → parse_options opts no_args ≡ some args → Names args path
  pub causal : Causal world.machine (fit 64 path) [] e.log
  pub success :
      e.status ≡ pos 0
      → (s : Session) × (s.selected_device ≡ fit 64 path) × Written world.parts s e.log

-- Where `cli_main` has any effect on the machine, --dangerous is one of its options, and --iso or
-- --device is one or some line of the input is YES. Each effect then waits for what it needs, as in
-- a write to one path, which is the last one given by --device where there is one; and where the
-- status is 0, the write to this path is complete.
pub cli_main-Consented :
    (world : World) (opts : List Opt) (input : List CString)
    → ((cli_main world opts input).log ≡ [])
      ⊎ Consented world opts input (cli_main world opts input)
unfolding cli_main
cli_main-Consented world opts input = elim (Option-cases (parse_options opts no_args)) [
  | inl bad ↦ inl (ground arith)
  | inr (args, parsed) ↦
      simp (cli_main, parsed) (consented args parsed (with_args-IsCareful world args input))
]
  where
    said :
        (args : Args)
        → parse_options opts no_args ≡ some args
        → (args.is_interactive ≡ false) ⊎ SaysYes input
        → Any IsPath opts ⊎ SaysYes input
    said args parsed (inr s) = inr s
    said args parsed (inl flag) = elim (parsed-IsPath opts no_args args parsed flag) [
      | inl unset ↦ absurd (cc unset)
      | inr p ↦ inl p
    ]

    consented :
        (args : Args)
        → parse_options opts no_args ≡ some args
        → IsCareful world args input (with_args world input args)
        → ((with_args world input args).log ≡ [])
          ⊎ Consented world opts input (with_args world input args)
    consented args parsed (inl quiet) = inl quiet
    consented args parsed (inr (path, named, w)) = inr (record {
      dangerous_given = elim (parsed_dangerous opts no_args args parsed w.dangerous) [
        | inl unset ↦ absurd (cc unset)
        | inr m ↦ m
      ];
      agreed = said args parsed w.agreed;
      path = path;
      named = λ same h. subst (λ a. Names a path) (some-injective _ _ (sym parsed ∙ h)) named;
      causal = w.causal;
      success = w.success;
    })
