-- ===== src/Update.antt =====
-- platform/linux/update.c: the comparison of two version numbers, and what `update_check` reports.
pub mod Compare
pub mod Check
pub mod Examples
use winafi.Prelude.{
  ℕ, zero, suc, ◌+◌, ◌*◌, ◌-◌, ◌^◌, Bool, true, false, not, ◌&&◌, ◌||◌, Option, none, some, List,
  [], ◌∷◌, leb, ltb, ◌==◌, if◌then◌else◌, length, get_or,
}
use winafi.Prelude.Int.{ℤ, pos, negsuc, sub_ℕ}
use winafi.Prelude.Text.{CString}

-- `none` is -1; the buffer has room for `out_size` bytes.
pub update_strip_v : CString → ℕ → Option CString
update_strip_v version out_size =
    let rest = skip_v version in if leb out_size (length rest) then none else some rest
  where
    skip_v : CString → CString
    skip_v [] = []
    skip_v (c ∷ s) = if c == b'v' || c == b'V' then s else c ∷ s

-- What the parser does; the value of a component that does not fit in an `int` is undefined in C.
pub data Parsed : Type 0 where
  malformed overflow : Parsed
  components : List ℕ → Parsed

abbrev is_digit : ℕ → Bool
is_digit c = leb b'0' c && leb c b'9'

-- The inner loop: the value of the digits in front, and the text behind them.
digits : CString → ℕ → Option (ℕ × CString)
digits [] value = some (value, [])
digits (c ∷ s) value =
    let next = value * 10 + (c - b'0') in
    let rest = digits s next in
    if not (is_digit c) then some (value, c ∷ s) else if leb (2 ^ 31) next then none else rest

prepend : ℕ → Parsed → Parsed
prepend value (components vs) = components (value ∷ vs)
prepend value p = p

-- The outer loop, with the number of components that still have a place.
components_of : ℕ → CString → Parsed
unfolding digits prepend
components_of room [] = components []
components_of zero (c ∷ s) = malformed
components_of (suc room) (c ∷ s) = elim (is_digit c) [
  | false ↦ malformed
  | true ↦ elim (digits (c ∷ s) 0) [
    | none ↦ overflow
    | some (value, rest) ↦ elim rest [
      | [] ↦ components (value ∷ [])
      | d ∷ r ↦ elim (d == b'.') [
        | false ↦ malformed
        | true ↦ elim r [ [] ↦ malformed | e ∷ q ↦ prepend value (components_of room (e ∷ q)) ]
      ]
    ]
  ]
]

pub parse_version_components : CString → Parsed
unfolding components_of
parse_version_components [] = malformed
parse_version_components (c ∷ s) = components_of 3 (c ∷ s)

-- The loop over the three components; a missing one is 0.
pub compare_components : List ℕ → List ℕ → ℤ
compare_components va vb =
    if not (get_or va 0 0 == get_or vb 0 0)
    then sub_ℕ (get_or va 0 0) (get_or vb 0 0)
    else if not (get_or va 1 0 == get_or vb 1 0)
    then sub_ℕ (get_or va 1 0) (get_or vb 1 0)
    else if not (get_or va 2 0 == get_or vb 2 0)
    then sub_ℕ (get_or va 2 0) (get_or vb 2 0)
    else pos 0

abbrev pub failure : ℤ
failure = negsuc 1

compare_parsed : Parsed → Parsed → Option ℤ
compare_parsed malformed b = some failure
compare_parsed overflow b = none
compare_parsed (components va) malformed = some failure
compare_parsed (components va) overflow = none
compare_parsed (components va) (components vb) = some (compare_components va vb)

pub version_of : CString → Parsed
unfolding update_strip_v parse_version_components
version_of version = elim (update_strip_v version 64) [
  | none ↦ malformed
  | some clean ↦ parse_version_components clean
]

-- `none` is the undefined value of an overflow.
pub update_version_compare : Option CString → Option CString → Option ℤ
update_version_compare none b = some failure
update_version_compare (some a) none = some failure
update_version_compare (some a) (some b) = compare_parsed (version_of a) (version_of b)
