-- ===== src/Settings/Numbers.antt =====
-- Numbers in the settings: what `%d` prints, `atoi` reads.
use winafi.Prelude.{
  ℕ, zero, suc, ◌+◌, ◌-◌, ◌*◌, ◌/◌, ◌%◌, ◌^◌, ◌≤◌, ◌<◌, true, false, ◌&&◌, ◌≡◌, refl, ap, ◌∙◌, inl,
  inr, some, [], ◌∷◌, arith, length, leb, ◌==◌, Bool-cases, take_all,
}
use native.Mathlib.Nat.{pow-suc}
use winafi.Prelude.Int.{ℤ, pos, negsuc}
use winafi.Prelude.Text.{CString, str_eq_refl, fit, decimal, digits_from, is_space, skip_spaces}
use winafi.Settings.Store.{
  Settings, print_int, digits_value, signed_value, atoi, settings_get_int, settings_set_int,
}
use winafi.Settings.Lookup.{HasRoom, store_val-update}

digit_step :
    (a d : ℕ) (rest : CString)
    → d < 10
    → digits_value a ((b'0' + d) ∷ rest) ≡ digits_value (a * 10 + d) rest
unfolding digits_value
digit_step a d rest h = rw (is_digit d h, digit d h) refl
  where
    is_digit : (d : ℕ) → d < 10 → (leb b'0' (b'0' + d) && leb (b'0' + d) b'9') ≡ true
    is_digit d h = ground arith

    digit : (d : ℕ) → d < 10 → (b'0' + d) - b'0' ≡ d
    digit d h = omega arith

digits_value-digits_from :
    (f n : ℕ) (acc : CString) → n < f → digits_value 0 (digits_from f n acc) ≡ digits_value n acc
unfolding digits_from
digits_value-digits_from zero n acc h = absurd (omega arith)
digits_value-digits_from (suc f) n acc h = elim (Bool-cases (n / 10 == 0)) [
  | inl last ↦
      rw last
        (digit_step 0 (n % 10) acc (omega arith) ∙ ap (λ k. digits_value k acc) (small n last))
  | inr more ↦ rw more (
      digits_value-digits_from f (n / 10) ((b'0' + n % 10) ∷ acc) (below n f h more)
      ∙ (digit_step (n / 10) (n % 10) acc (omega arith) ∙ ap (λ k. digits_value k acc) (whole n)))
]
  where
    small : (n : ℕ) → (n / 10 == 0) ≡ true → 0 * 10 + n % 10 ≡ n
    small n e = ground arith

    below : (n f : ℕ) → n < suc f → (n / 10 == 0) ≡ false → n / 10 < f
    below n f h e = ground arith

    whole : (n : ℕ) → n / 10 * 10 + n % 10 ≡ n
    whole n = omega arith

-- The text of a number starts with a digit.
first_digit :
    (f n : ℕ) (acc : CString)
    → n < f
    → (d : ℕ) × (rest : CString) × (d < 10) × (digits_from f n acc ≡ (b'0' + d) ∷ rest)
unfolding digits_from
first_digit zero n acc h = absurd (omega arith)
first_digit (suc f) n acc h = elim (Bool-cases (n / 10 == 0)) [
  | inl last ↦ (n % 10, acc, omega arith, rw last refl)
  | inr more ↦
      let (d, rest, lt, e) = first_digit f (n / 10) ((b'0' + n % 10) ∷ acc) (ground arith) in
      (d, rest, lt, rw more e)
]

length-digits_from :
    (k f n : ℕ) (acc : CString)
    → n < f
    → n < 10 ^ suc k
    → length (digits_from f n acc) ≤ suc k + length acc
unfolding digits_from
length-digits_from k zero n acc h small = absurd (omega arith)
length-digits_from zero (suc f) n acc h small = rw (last n small) (omega arith)
  where
    last : (n : ℕ) → n < 10 ^ 1 → (n / 10 == 0) ≡ true
    last n h = ground arith
length-digits_from (suc k) (suc f) n acc h small = elim (Bool-cases (n / 10 == 0)) [
  | inl last ↦ rw last (omega arith)
  | inr more ↦ rw more (
      omega (
        arith,
        length-digits_from k f (n / 10) ((b'0' + n % 10) ∷ acc) (ground arith)
            (omega (arith, pow-suc 10 (suc k))),
      ))
]

-- The range of `int`.
abbrev pub IsInt : ℤ → Type 0
IsInt (pos n) = n < 2 ^ 31
IsInt (negsuc n) = n < 2 ^ 31

length-print_int : (v : ℤ) → IsInt v → length (print_int v) ≤ 511
unfolding print_int decimal
length-print_int (pos n) h =
    omega (arith, length-digits_from 9 (n + 1) n [] (omega arith) (omega arith))
length-print_int (negsuc n) h =
    omega (arith, length-digits_from 9 (n + 1 + 1) (n + 1) [] (omega arith) (omega arith))

digits_value-decimal : (n : ℕ) → digits_value 0 (decimal n) ≡ n
unfolding decimal digits_value
digits_value-decimal n = digits_value-digits_from (n + 1) n [] (omega arith)

-- Behind the spaces and a sign, of which the text of a number has none.
plain_value :
    (d : ℕ) (rest : CString)
    → d < 10
    → atoi ((b'0' + d) ∷ rest) ≡ pos (digits_value 0 ((b'0' + d) ∷ rest))
unfolding atoi skip_spaces signed_value
plain_value d rest h = rw (skipped d h, minus d h, plus d h) refl
  where
    skipped : (d : ℕ) → d < 10 → is_space (b'0' + d) ≡ false
    skipped d h = ground arith

    minus : (d : ℕ) → d < 10 → (b'0' + d == b'-') ≡ false
    minus d h = ground arith

    plus : (d : ℕ) → d < 10 → (b'0' + d == b'+') ≡ false
    plus d h = ground arith

atoi-decimal : (n : ℕ) → atoi (decimal n) ≡ pos n
unfolding decimal
atoi-decimal n =
    let (d, rest, lt, e) = first_digit (n + 1) n [] (omega arith) in
    rw e (plain_value d rest lt) ∙ ap pos (rw e at (digits_value-decimal n))

-- `atoi` of the text that `%d` prints is the number.
atoi-print_int : (v : ℤ) → atoi (print_int v) ≡ v
unfolding print_int atoi skip_spaces signed_value
atoi-print_int (pos n) = atoi-decimal n
atoi-print_int (negsuc n) = rw (digits_value-decimal (n + 1), plus_one n) refl
  where
    plus_one : (n : ℕ) → n + 1 ≡ suc n
    plus_one n = omega arith

-- An `int` that was set under a key with room is read back, whatever default is given.
pub settings_get_int-settings_set_int :
    (s : Settings) (key : CString) (v d : ℤ)
    → HasRoom s key
    → IsInt v
    → settings_get_int (settings_set_int s (some key) v) (some key) d ≡ v
unfolding settings_get_int settings_set_int
settings_get_int-settings_set_int s key v d room range =
    let stored = store_val-update s key (fit 512 (print_int v)) key room in
    let self = rw (str_eq_refl key) at stored in
    rw
      (
        settings_set_int,
        settings_get_int,
        self,
        take_all 511 (print_int v) (length-print_int v range),
      )
      (atoi-print_int v)
