-- ===== src/Prelude/Text.antt =====
-- C strings as lists of bytes without the final 0, and the calls of string.h and stdio.h that the
-- program makes on them.
use Prim.Native.Char.{code}
use Prim.Native.String.{String}
use Prim.Native.Nat.{ℕ, zero, suc, ◌+◌, ◌-◌, ◌/◌, ◌%◌, ◌<◌}
use mathlib.Core.Path.{◌≡◌, refl}
use mathlib.Core.Logic.{◌↔◌, inl, inr}
use mathlib.Core.Bool.{Bool, true, false, ◌&&◌, ◌||◌}
use mathlib.Core.Option.{Option, none, some}
use mathlib.Core.List.{List, [], ◌∷◌, ◌++◌}
use native.Mathlib.Omega.{arith}
use winafi.Prelude.Tests.{Bool-cases, ◌==◌, if◌then◌else◌, leb}
use winafi.Prelude.Lists.{length, take, get_or}

abbrev pub CString : Type 0
CString = List ℕ

-- The bytes of a literal.
abbrev pub codes : String → CString
codes String.[] = []
codes (String.◌∷◌ c s) = code c ∷ codes s

-- `strcmp(s, t) == 0`.
unfoldable pub str_eq : CString → CString → Bool
str_eq [] [] = true
str_eq [] (d ∷ t) = false
str_eq (c ∷ s) [] = false
str_eq (c ∷ s) (d ∷ t) = c == d && str_eq s t

pub str_eq→eq : (s t : CString) → str_eq s t ≡ true → s ≡ t
unfolding str_eq
str_eq→eq [] [] h = refl
str_eq→eq [] (d ∷ t) h = absurd (ground arith)
str_eq→eq (c ∷ s) [] h = absurd (ground arith)
str_eq→eq (c ∷ s) (d ∷ t) h = ground (arith, str_eq→eq s t)

pub str_eq_refl : (s : CString) → str_eq s s ≡ true
unfolding str_eq
str_eq_refl [] = refl
str_eq_refl (c ∷ s) = ground (arith, str_eq_refl s)

pub str_eq_iff : (s t : CString) → (str_eq s t ≡ true) ↔ (s ≡ t)
str_eq_iff s t = (str_eq→eq s t, λ e. rw e (str_eq_refl t))

-- `strncmp(s, p, strlen(p)) == 0`.
unfoldable pub starts_with : CString → CString → Bool
starts_with [] s = true
starts_with (d ∷ p) [] = false
starts_with (d ∷ p) (c ∷ s) = d == c && starts_with p s

-- What follows a prefix is what it says.
pub starts_with→append : (p s : CString) → starts_with p s ≡ true → (r : CString) × (s ≡ p ++ r)
unfolding starts_with
starts_with→append [] s h = (s, refl)
starts_with→append (d ∷ p) [] h = absurd (ground arith)
starts_with→append (d ∷ p) (c ∷ s) h =
    let (r, e) = starts_with→append p s (ground arith) in (r, ground arith)

pub starts_with-append : (p r : CString) → starts_with p (p ++ r) ≡ true
unfolding starts_with
starts_with-append [] r = refl
starts_with-append (d ∷ p) r = ground (arith, starts_with-append p r)

-- `s[i]`, where the byte behind the last is the terminator.
abbrev pub char_at : CString → ℕ → ℕ
char_at s i = get_or s i 0

pub char_at-append : (p : CString) (c : ℕ) (r : CString) → char_at (p ++ c ∷ r) (length p) ≡ c
char_at-append [] c r = refl
char_at-append (d ∷ p) c r = char_at-append p c r

pub char_at-append_nil : (p : CString) → char_at (p ++ []) (length p) ≡ 0
char_at-append_nil [] = refl
char_at-append_nil (d ∷ p) = char_at-append_nil p

-- `strncpy(dst, s, n - 1); dst[n - 1] = 0` and `snprintf(dst, n, "%s", s)`: a buffer of `n` bytes.
abbrev pub fit : ℕ → CString → CString
fit n s = take (n - 1) s

-- The decimal digits that `%u` prints; the fuel is the value itself.
unfoldable pub digits_from : ℕ → ℕ → CString → CString
digits_from zero n acc = acc
digits_from (suc f) n acc =
    let rest = digits_from f (n / 10) ((b'0' + n % 10) ∷ acc) in
    if n / 10 == 0 then (b'0' + n % 10) ∷ acc else rest

unfoldable pub decimal : ℕ → CString
unfolding digits_from
decimal n = digits_from (n + 1) n []

-- Any fuel above the value gives the same digits.
digits_from_enough :
    (f g n : ℕ) (acc : CString) → n < f → n < g → digits_from f n acc ≡ digits_from g n acc
unfolding digits_from
digits_from_enough zero g n acc h k = absurd (omega arith)
digits_from_enough (suc f) zero n acc h k = absurd (omega arith)
digits_from_enough (suc f) (suc g) n acc h k = elim (Bool-cases (n / 10 == 0)) [
  | inl e ↦ ground arith
  | inr e ↦
      ground (
        arith,
        digits_from_enough f g (n / 10) ((b'0' + n % 10) ∷ acc) (ground arith) (ground arith),
      )
]

decimal_example : decimal 259 ≡ codes "259"
unfolding decimal
decimal_example = refl

-- The text behind the last slash; `none` is the NULL of `strrchr` on a text with no slash.
unfoldable pub last_slash : CString → Option CString
last_slash [] = none
last_slash (c ∷ s) = elim (last_slash s) [
  | some t ↦ some t
  | none ↦ if c == b'/' then some s else none
]

-- `strstr(s, p) != NULL`.
unfoldable pub strstr : CString → CString → Bool
strstr [] p = starts_with p []
strstr (c ∷ s) p = starts_with p (c ∷ s) || strstr s p

-- `isspace` in the C locale.
abbrev pub is_space : ℕ → Bool
is_space c = c == b' ' || (leb 9 c && leb c 13)

unfoldable pub skip_spaces : CString → CString
skip_spaces [] = []
skip_spaces (c ∷ s) = if is_space c then skip_spaces s else c ∷ s

unfoldable pub word : CString → CString
word [] = []
word (c ∷ s) = if is_space c then [] else c ∷ word s

-- `sscanf(line, "%<n>s", out)`: the first word, `none` where there is none.
unfoldable pub scan_word : ℕ → CString → Option CString
unfolding skip_spaces word
scan_word n s = elim (take n (word (skip_spaces s))) [ [] ↦ none | c ∷ w ↦ some (c ∷ w) ]
