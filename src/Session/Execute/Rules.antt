-- ===== src/Session/Execute/Rules.antt =====
-- A logic for code that only does what is due, and that leaves with a reason.
use winafi.Prelude.{ℕ, min, ◌≡◌, ◌≢◌, refl, Bool, true, false, List, [], ◌∷◌, arith, if◌then◌else◌}
use winafi.Prelude.Text.{CString, fit}
use winafi.Os.{Wait, Machine, Log, Action, Command, exit_ok, spawn, progress}
use winafi.Os.Io as Io
use winafi.Os.Io.{Io, event, emit, act, run, make_temp}
use winafi.Session.State.{Session, set_error}
use winafi.Session.Exec.{
  Run, Outcome, done, jump, Exec, pure, ◌>>=◌, continue, lift, gets, modify, fail, require,
  progress_fire,
}
use winafi.Session.Execute.Causes.{Needs, Causal, stop, step, Causal-trans}

module _ (machine : Machine) (dev : CString) where
  -- From `l`, the events that `m` adds are due, and its result and history meet `Q`.
  pub record Due {A : Type 0} (m : Io A) (l : Log) (Q : A → Log → Type 0) : Type 0 where
    pub causal : Causal machine dev l (m l).1
    pub post : Q (m l).0 (m l).1

  pub data Ends {A : Type 0} (Q : A → Run → Type 0) : Outcome A × Run → Type 0 where
    ends : {a : A} {r : Run} → Q a r → Ends Q (done a, r)
    leaves : {r : Run} → r.session.error_code ≢ [] → Ends Q (jump, r)

  -- The same for code that may leave, which it does with an error code.
  pub record Safe {A : Type 0} (m : Exec A) (r : Run) (Q : A → Run → Type 0) : Type 0 where
    pub causal : Causal machine dev r.log (m r).1.log
    pub post : Ends Q (m r)

abbrev pub Whatever : {A : Type 0} → A → Run → Type 0
Whatever a r = Unit

pub coded : {x : ℕ} {xs : List ℕ} → x ∷ xs ≢ []
coded = ground arith

module _ {machine : Machine} {dev : CString} where
  pub Due-pure :
      {A : Type 0} {Q : A → Log → Type 0} (a : A) {l : Log}
      → Q a l
      → Due machine dev (Io.pure a) l Q
  unfolding Io.pure
  Due-pure a q = record { causal = stop; post = q }

  pub Due-bind :
      {A B : Type 0} {Q : A → Log → Type 0} {R : B → Log → Type 0} {m : Io A} {f : A → Io B}
      {l : Log}
      → Due machine dev m l Q
      → ((a : A) (l' : Log) → Causal machine dev l l' → Q a l' → Due machine dev (f a) l' R)
      → Due machine dev (Io.◌>>=◌ m f) l R
  unfolding Io.◌>>=◌
  Due-bind {m = m} {l = l} d k =
      let e = k (m l).0 (m l).1 d.causal d.post in
      record { causal = Causal-trans machine dev d.causal e.causal; post = e.post }

  -- What held before still holds where the events are due.
  pub Due-after :
      {A : Type 0} {Q R : A → Log → Type 0} {m : Io A} {l : Log}
      → Due machine dev m l Q
      → ((a : A) (l' : Log) → Causal machine dev l l' → Q a l' → R a l')
      → Due machine dev m l R
  Due-after {m = m} {l = l} d k = record {
    causal = d.causal;
    post = k (m l).0 (m l).1 d.causal d.post;
  }

  pub Due-emit :
      {Q : Bool → Log → Type 0} (a : Action) {l : Log}
      → Needs machine dev a l
      → ((b : Bool) → Q b (event a b ∷ l))
      → Due machine dev (emit machine a) l Q
  unfolding emit
  Due-emit a {l = l} n k = record {
    causal = step (machine.done l a) stop n;
    post = k (machine.done l a);
  }

  pub Due-act :
      {Q : Unit {0} → Log → Type 0} (a : Action) {l : Log}
      → Needs machine dev a l
      → ((b : Bool) → Q tt (event a b ∷ l))
      → Due machine dev (act machine a) l Q
  unfolding act
  Due-act a {l = l} n k = record {
    causal = step (machine.done l a) stop n;
    post = k (machine.done l a);
  }

  pub Due-if :
      {A : Type 0} {Q : A → Log → Type 0} (b : Bool) {m n : Io A} {l : Log}
      → (b ≡ true → Due machine dev m l Q)
      → (b ≡ false → Due machine dev n l Q)
      → Due machine dev (if b then m else n) l Q
  Due-if true t e = t refl
  Due-if false t e = e refl

  pub Due-run :
      {Q : Wait → Log → Type 0} (c : Command) {l : Log}
      → Needs machine dev (spawn c) l
      → ((w : Wait) → Q w (event (spawn c) (exit_ok w) ∷ l))
      → Due machine dev (run machine c) l Q
  unfolding run
  Due-run c {l = l} n k = record {
    causal = step (exit_ok (machine.wait l c)) stop n;
    post = k (machine.wait l c);
  }

  pub Due-make_temp :
      (template : CString) (l : Log) → Due machine dev (make_temp machine template) l (λ c m. Unit)
  unfolding make_temp
  Due-make_temp template l = record { causal = step _ stop tt; post = tt }

  pub Safe-pure :
      {A : Type 0} {Q : A → Run → Type 0} (a : A) {r : Run} → Q a r → Safe machine dev (pure a) r Q
  unfolding pure
  Safe-pure a q = record { causal = stop; post = ends q }

  Safe-continue :
      {A B : Type 0} {Q : A → Run → Type 0} {R : B → Run → Type 0} {f : A → Exec B} {l : Log}
      (o : Outcome A × Run)
      → Causal machine dev l o.1.log
      → Ends machine dev Q o
      → ((a : A) (r' : Run) → Causal machine dev l r'.log → Q a r' → Safe machine dev (f a) r' R)
      → Causal machine dev l (continue o.0 f o.1).1.log × Ends machine dev R (continue o.0 f o.1)
  Safe-continue (o, r') c (ends {a = a} q) k =
      let s = k a r' c q in (Causal-trans machine dev c s.causal, s.post)
  Safe-continue (o, r') c (leaves e) k = (c, leaves e)

  Ends-after :
      {A : Type 0} {Q R : A → Run → Type 0} {l : Log} {o : Outcome A × Run}
      → Causal machine dev l o.1.log
      → Ends machine dev Q o
      → ((a : A) (r : Run) → Causal machine dev l r.log → Q a r → R a r)
      → Ends machine dev R o
  Ends-after c (ends {a = a} {r = r} q) k = ends (k a r c q)
  Ends-after c (leaves h) k = leaves h

  pub Safe-after :
      {A : Type 0} {Q R : A → Run → Type 0} {m : Exec A} {r : Run}
      → Safe machine dev m r Q
      → ((a : A) (r' : Run) → Causal machine dev r.log r'.log → Q a r' → R a r')
      → Safe machine dev m r R
  Safe-after s k = record { causal = s.causal; post = Ends-after s.causal s.post k }

  pub Safe-weaken :
      {A : Type 0} {Q R : A → Run → Type 0} {m : Exec A} {r : Run}
      → Safe machine dev m r Q
      → ((a : A) (r' : Run) → Q a r' → R a r')
      → Safe machine dev m r R
  Safe-weaken s k = Safe-after s (λ a r' c q. k a r' q)

  pub Safe-bind :
      {A B : Type 0} {Q : A → Run → Type 0} {R : B → Run → Type 0} {m : Exec A} {f : A → Exec B}
      {r : Run}
      → Safe machine dev m r Q
      → ((a : A) (r' : Run)
          → Causal machine dev r.log r'.log
          → Q a r'
          → Safe machine dev (f a) r' R)
      → Safe machine dev (m >>= f) r R
  unfolding ◌>>=◌
  Safe-bind {m = m} {r = r} s k =
      let (c, e) = Safe-continue (m r) s.causal s.post k in record { causal = c; post = e }

  pub Safe-lift :
      {A : Type 0} {Q : A → Run → Type 0} {m : Io A} {r : Run}
      → Due machine dev m r.log (λ a l. Q a (record r { log = l }))
      → Safe machine dev (lift m) r Q
  unfolding lift
  Safe-lift d = record { causal = d.causal; post = ends d.post }

  pub Safe-read :
      {A B : Type 0} {R : B → Run → Type 0} (f : Run → A) (k : A → Exec B) {r : Run}
      → Safe machine dev (k (f r)) r R
      → Safe machine dev (gets f >>= k) r R
  unfolding gets ◌>>=◌
  Safe-read f k s = record { causal = s.causal; post = s.post }

  pub Safe-store :
      {B : Type 0} {R : B → Run → Type 0} (f : Session → Session) (k : Unit {0} → Exec B) {r : Run}
      → Safe machine dev (k tt) (record r { session = f r.session }) R
      → Safe machine dev (modify f >>= k) r R
  unfolding modify ◌>>=◌
  Safe-store f k s = record { causal = s.causal; post = s.post }

  pub Safe-modify :
      {Q : Unit {0} → Run → Type 0} (f : Session → Session) {r : Run}
      → Q tt (record r { session = f r.session })
      → Safe machine dev (modify f) r Q
  unfolding modify
  Safe-modify f q = record { causal = stop; post = ends q }

  pub Safe-fail :
      {A : Type 0} {Q : A → Run → Type 0} (code message : CString) {r : Run}
      → fit 16 code ≢ []
      → Safe machine dev (fail code message) r Q
  unfolding fail set_error
  Safe-fail code message h = record { causal = stop; post = leaves h }

  pub Safe-require :
      {Q : Unit {0} → Run → Type 0} (b : Bool) (code message : CString) {r : Run}
      → fit 16 code ≢ []
      → (b ≡ true → Q tt r)
      → Safe machine dev (require b code message) r Q
  unfolding require
  Safe-require true code message h k = Safe-pure tt (k refl)
  Safe-require false code message h k = Safe-fail code message h

  pub Safe-if :
      {A : Type 0} {Q : A → Run → Type 0} (b : Bool) {m n : Exec A} {r : Run}
      → (b ≡ true → Safe machine dev m r Q)
      → (b ≡ false → Safe machine dev n r Q)
      → Safe machine dev (if b then m else n) r Q
  Safe-if true t e = t refl
  Safe-if false t e = e refl

  pub Safe-fire :
      (percent : ℕ) (message : CString) {Q : Unit {0} → Run → Type 0} {r : Run}
      → ((l : Log) → Causal machine dev r.log l → Q tt (record r { log = l }))
      → Safe machine dev (progress_fire machine percent message) r Q
  unfolding progress_fire
  Safe-fire percent message {Q = Q} {r = r} k = Safe-read _ _ (
      Safe-if r.session.has_callback
        (λ _.
          Safe-lift (Due-act (progress (min percent 100) message) tt (λ d. k _ (step d stop tt))))
        (λ _. Safe-pure tt (k r.log stop)))
