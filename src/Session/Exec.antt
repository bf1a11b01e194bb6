-- ===== src/Session/Exec.antt =====
-- Code of `winafi_session_execute`: it works on the session and the history, and leaves by
-- `goto error`.
use winafi.Prelude.{ℕ, Bool, true, false, min, if◌then◌else◌}
use winafi.Prelude.Text.{CString}
use winafi.Os.{progress, Log, Machine}
use winafi.Os.Io.{Io, act}
use winafi.Session.State.{Session, set_error}

pub record Run : Type 0 where
  pub session : Session
  pub log : Log

pub data Outcome (A : Type 0) : Type 0 where
  done : A → Outcome A
  -- `goto error`
  jump : Outcome A

abbrev pub Exec : Type 0 → Type 0
Exec A = Run → Outcome A × Run

unfoldable pub pure : {A : Type 0} → A → Exec A
pure a r = (done a, r)

module _ {A B : Type 0} where
  abbrev pub continue : Outcome A → (A → Exec B) → Exec B
  continue (done a) f r = f a r
  continue jump f r = (jump, r)

  infixl 10 ◌>>=◌ ◌>>◌
  unfoldable pub ◌>>=◌ : Exec A → (A → Exec B) → Exec B
  ◌>>=◌ m f r = let (o, r') = m r in continue o f r'

  abbrev pub ◌>>◌ : Exec A → Exec B → Exec B
  m >> n = m >>= λ _. n

unfoldable pub lift : {A : Type 0} → Io A → Exec A
lift m r = let (a, l) = m r.log in (done a, record r { log = l })

unfoldable pub gets : {A : Type 0} → (Run → A) → Exec A
gets f r = (done (f r), r)

unfoldable pub modify : (Session → Session) → Exec (Unit {0})
modify f r = (done tt, record r { session = f r.session })

-- `session_set_error(...); goto error;`
unfoldable pub fail : {A : Type 0} → CString → CString → Exec A
fail code message r = (jump, record r { session = set_error code message r.session })

unfoldable pub require : Bool → CString → CString → Exec (Unit {0})
require true code message = pure tt
require false code message = fail code message

-- `progress_fire` of core/progress.c; every percentage that the program fires is at least 0.
unfoldable pub progress_fire : Machine → ℕ → CString → Exec (Unit {0})
progress_fire machine percent message = do
  registered ← gets (λ r. r.session.has_callback)
  if registered then lift (act machine (progress (min percent 100) message)) else pure tt
