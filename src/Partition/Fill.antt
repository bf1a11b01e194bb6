-- ===== src/Partition/Fill.antt =====
-- The loop that stores the entries of a plan.
use winafi.Prelude.{
  ℕ, zero, suc, ◌+◌, ◌≤◌, ◌<◌, ◌≡◌, ◌∙◌, subst, ◌⊎◌, inl, inr, refl, none, some, List, arith,
  length, get_or, set, length-set, get_or-set_self, get_or-set_ne,
}
use winafi.Partition.{PartitionInfo, zero_info, fill}

pub eq_or_lt : (i j : ℕ) → i ≤ j → (i ≡ j) ⊎ (i < j)
eq_or_lt i j h = grind arith

module _ (entry : ℕ → PartitionInfo) where
  -- With room in the array the loop ends, and leaves each entry in its place.
  pub fill_total :
      (i rounds : ℕ) (parts : List PartitionInfo)
      → i + rounds ≤ length parts
      → (r : List PartitionInfo) × (fill entry i rounds parts ≡ some r)
        × ((j : ℕ) → j < i → get_or r j zero_info ≡ get_or parts j zero_info)
        × ((j : ℕ) → i ≤ j → j < i + rounds → get_or r j zero_info ≡ entry j)
  unfolding fill
  fill_total i zero parts h = (parts, refl, λ j b. refl, λ j lo hi. absurd (omega arith))
  fill_total i (suc k) parts h =
      let (r, e, low, new) =
        fill_total (i + 1) k (set parts i (entry i))
          (omega (arith, length-set {0} parts i (entry i))) in
      (
        r,
        ground arith,
        λ j b. low j (omega arith) ∙ get_or-set_ne parts i j (entry i) zero_info (λ q. omega arith),
        λ j lo hi. elim (eq_or_lt i j lo) [
          | inl q ↦
              subst (λ m. get_or r m zero_info ≡ entry m) q
                (low i (omega arith) ∙ get_or-set_self parts i (entry i) zero_info (omega arith))
          | inr q ↦ new j (omega arith) (omega arith)
        ],
      )

  -- One entry too many is a store past the end.
  pub fill_fault :
      (i rounds : ℕ) (parts : List PartitionInfo)
      → i ≤ length parts
      → length parts < i + rounds
      → fill entry i rounds parts ≡ none
  unfolding fill
  fill_fault i zero parts lo hi = absurd (omega arith)
  fill_fault i (suc k) parts lo hi =
      ground (arith, length-set {0} parts i (entry i), fill_fault (i + 1) k (set parts i (entry i)))
