-- ===== src/Update/Compare.antt =====
-- The order of versions.
use winafi.Prelude.{
  ◌⊎◌, ◌≤◌, subst, ap, sym, ◌∙◌, ℕ, ◌≡◌, ◌↔◌, ◌+◌, ◌<◌, refl, none, some, List, arith, get_or,
}
use winafi.Prelude.Int.{neg_part, ℤ, pos}
use winafi.Prelude.Text.{CString}
use winafi.Update.{
  components, version_of, compare_components, compare_parsed, update_version_compare,
}

value_eq : {x y : ℤ} → some x ≡ some y → x ≡ y
value_eq h = cc

pub compared :
    (a b : CString) (va vb : List ℕ)
    → version_of a ≡ components va
    → version_of b ≡ components vb
    → update_version_compare (some a) (some b) ≡ some (compare_components va vb)
unfolding update_version_compare compare_parsed
compared a b va vb ea eb = rw (ea, eb) refl

-- The lexicographic order of the first three components.
abbrev pub AtLeast : List ℕ → List ℕ → Type 0
AtLeast va vb =
    (get_or vb 0 0 < get_or va 0 0)
    ⊎ ((get_or va 0 0 ≡ get_or vb 0 0)
        × ((get_or vb 1 0 < get_or va 1 0)
            ⊎ ((get_or va 1 0 ≡ get_or vb 1 0) × (get_or vb 2 0 ≤ get_or va 2 0))))

compare_nonneg_iff : (va vb : List ℕ) → (neg_part (compare_components va vb) ≡ 0) ↔ AtLeast va vb
unfolding compare_components
compare_nonneg_iff va vb = ground arith

compare_zero_iff :
    (va vb : List ℕ)
    → (compare_components va vb ≡ pos 0) ↔ (
        (get_or va 0 0 ≡ get_or vb 0 0)
        × (get_or va 1 0 ≡ get_or vb 1 0)
        × (get_or va 2 0 ≡ get_or vb 2 0))
unfolding compare_components
compare_zero_iff va vb = ground arith

-- Two texts that are versions compare as 0 exactly if their three components are the same, a missing
-- one counting as 0.
pub update_version_compare_zero_iff :
    (a b : CString) (va vb : List ℕ)
    → version_of a ≡ components va
    → version_of b ≡ components vb
    → (update_version_compare (some a) (some b) ≡ some (pos 0)) ↔ (
        (get_or va 0 0 ≡ get_or vb 0 0)
        × (get_or va 1 0 ≡ get_or vb 1 0)
        × (get_or va 2 0 ≡ get_or vb 2 0))
update_version_compare_zero_iff a b va vb ea eb =
    let (to, from) = compare_zero_iff va vb in
    let e = compared a b va vb ea eb in (λ h. to (value_eq (sym e ∙ h)), λ h. e ∙ ap some (from h))

-- A version whose first component is 2 less than that of the other gives the result that stands for
-- a text that is no version.
pub update_version_compare_ambiguous :
    (a b : CString) (va vb : List ℕ)
    → version_of a ≡ components va
    → version_of b ≡ components vb
    → get_or va 0 0 + 2 ≡ get_or vb 0 0
    → update_version_compare (some a) (some b) ≡ update_version_compare none none
unfolding update_version_compare compare_components
update_version_compare_ambiguous a b va vb ea eb h = compared a b va vb ea eb ∙ ground arith

-- Between two texts that are versions, the result is at least 0 exactly if the components of the
-- first are lexicographically at least those of the second, a missing one counting as 0.
pub update_version_compare_nonneg_iff :
    (a b : CString) (va vb : List ℕ) (r : ℤ)
    → version_of a ≡ components va
    → version_of b ≡ components vb
    → update_version_compare (some a) (some b) ≡ some r
    → (neg_part r ≡ 0) ↔ AtLeast va vb
update_version_compare_nonneg_iff a b va vb r ea eb h =
    subst (λ s. (neg_part s ≡ 0) ↔ AtLeast va vb) (value_eq (sym (compared a b va vb ea eb) ∙ h))
      (compare_nonneg_iff va vb)
