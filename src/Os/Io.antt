-- ===== src/Os/Io.antt =====
-- Code that acts on the machine and returns a result: it reads the history and extends it.
use winafi.Prelude.{Bool, true, false, Option, none, some, ◌∷◌}
use winafi.Prelude.Text.{CString}
use winafi.Os.{Event, Action, Log, Machine, Command, Wait, spawn, mkdtemp, exit_ok}

abbrev pub Io : Type 0 → Type 0
Io A = Log → A × Log

unfoldable pub pure : {A : Type 0} → A → Io A
pure a l = (a, l)

infixl 10 ◌>>=◌ ◌>>◌
unfoldable pub ◌>>=◌ : {A B : Type 0} → Io A → (A → Io B) → Io B
◌>>=◌ m f l = let (a, l') = m l in f a l'

abbrev pub ◌>>◌ : {A B : Type 0} → Io A → Io B → Io B
m >> n = m >>= λ _. n

abbrev pub event : Action → Bool → Event
event a b = record { action = a; succeeded = b }

abbrev is_some : Option CString → Bool
is_some none = false
is_some (some s) = true

module _ (machine : Machine) where
  -- An effect that reports success or failure.
  unfoldable pub emit : Action → Io Bool
  emit a l = (machine.done l a, event a (machine.done l a) ∷ l)

  -- An effect whose report is not looked at.
  unfoldable pub act : Action → Io (Unit {0})
  act a l = (tt, event a (machine.done l a) ∷ l)

  unfoldable pub run : Command → Io Wait
  run c l = (machine.wait l c, event (spawn c) (exit_ok (machine.wait l c)) ∷ l)

  unfoldable pub make_temp : CString → Io (Option CString)
  make_temp template l =
      (machine.temp_name l, event (mkdtemp template) (is_some (machine.temp_name l)) ∷ l)
