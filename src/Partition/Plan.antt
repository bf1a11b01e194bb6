-- ===== src/Partition/Plan.antt =====
-- What the two planners of partition.c promise of a plan.
use winafi.Prelude.{
  ℕ, ◌+◌, ◌-◌, ◌*◌, ◌/◌, ◌^◌, ◌≤◌, ◌<◌, ◌≡◌, ◌≢◌, ap, subst, refl, Option, none, some, arith,
  length, get_or, inl, inr,
}
use winafi.Prelude.Int.{ℤ, pos, negsuc}
use winafi.Partition.{
  PartitionInfo, PartitionPlan, success, zero_info, cleared, mbr, gpt, fill_plan, entry_at,
  mbr_parts, gpt_parts, plan_mbr_partition, plan_gpt_partition,
}
use winafi.Partition.Fill.{eq_or_lt, fill_total, fill_fault}

abbrev pub part : PartitionPlan → ℕ → PartitionInfo
part q i = get_or q.partitions i zero_info

-- The first `n` entries of a plan divide the sectors from `low` to the one before `high`.
pub record IsLayout (q : PartitionPlan) (n low high : ℕ) : Type 0 where
  pub starts : (part q 0).start_sector ≡ low
  pub nonempty : (i : ℕ) → i < n → (part q i).start_sector ≤ (part q i).end_sector
  pub adjacent : (i : ℕ) → i + 1 < n → (part q i).end_sector + 1 ≡ (part q (i + 1)).start_sector
  pub ends : (part q (n - 1)).end_sector + 1 ≡ high

-- Equal shares fit in the whole.
share-le : (i n size avail : ℕ) → i < n → size ≡ avail / n → i * size + size ≤ avail
share-le i n size avail h e = grind arith

module _ (first size n last boot : ℕ) (avail : ℕ) (shares : size ≡ avail / n)
    (room : first + avail ≤ last + size) (small : first + avail < 2 ^ 63) (least : 1 ≤ size) where
  entry_start :
      (i : ℕ) → i < n → (entry_at first size n last boot i).start_sector ≡ first + i * size
  unfolding entry_at
  entry_start i h = ground (arith, share-le i n size avail h shares)

  entry_end :
      (i : ℕ)
      → i + 1 < n
      → (entry_at first size n last boot i).end_sector + 1 ≡ first + (i + 1) * size
  unfolding entry_at
  entry_end i h = ground (arith, share-le i n size avail, share-le (i + 1) n size avail h shares)

  entry_end_last : (i : ℕ) → i + 1 ≡ n → (entry_at first size n last boot i).end_sector ≡ last
  unfolding entry_at
  entry_end_last i h = ground arith

  entries_IsLayout :
      (q : PartitionPlan)
      → 1 ≤ n
      → ((i : ℕ) → i < n → part q i ≡ entry_at first size n last boot i)
      → IsLayout q n first (last + 1)
  entries_IsLayout q one e = record {
    starts = rw (e 0 one) (omega (arith, entry_start 0 one));
    nonempty = λ i h. rw (e i h) (nonempty_at i h);
    adjacent = λ i h.
        rw (e i (omega arith), e (i + 1) h) (omega (arith, entry_end i h, entry_start (i + 1) h));
    ends = rw (e (n - 1) (omega arith)) (omega (arith, entry_end_last (n - 1) (omega arith)));
  }
    where
      nonempty_at :
          (i : ℕ)
          → i < n
          → (entry_at first size n last boot i).start_sector
            ≤ (entry_at first size n last boot i).end_sector
      nonempty_at i h = elim (eq_or_lt (i + 1) n (omega arith)) [
        | inl last_one ↦
            omega
              (arith, entry_start i h, entry_end_last i last_one, share-le i n size avail h shares)
        | inr more ↦ omega (arith, entry_start i h, entry_end i more)
      ]

-- What the loop leaves in a plan of at most four entries.
fill_plan_lem :
    (entry : ℕ → PartitionInfo) (n : ℕ) (plan : PartitionPlan)
    → n ≤ length plan.partitions
    → (q : PartitionPlan) × (fill_plan entry n plan ≡ some (success, q))
      × ((i : ℕ) → i < n → part q i ≡ entry i)
unfolding fill_plan
fill_plan_lem entry n plan h =
    let (r, e, low, new) = fill_total entry 0 n plan.partitions (omega arith) in
    (record plan { partitions = r }, ground arith, λ i b. new i (omega arith) (omega arith))

fill_plan_entries :
    (entry : ℕ → PartitionInfo) (n : ℕ) (plan q : PartitionPlan)
    → n ≤ length plan.partitions
    → fill_plan entry n plan ≡ some (success, q)
    → (i : ℕ) → i < n
    → part q i ≡ entry i
fill_plan_entries entry n plan q h e i b =
    let (r, f, at) = fill_plan_lem entry n plan h in cc (at i b, ap (λ p. part p i) (the_same r f))
  where
    the_same : (r : PartitionPlan) → fill_plan entry n plan ≡ some (success, r) → q ≡ r
    the_same r f = ground arith

fill_plan_fault :
    (entry : ℕ → PartitionInfo) (n : ℕ) (plan : PartitionPlan)
    → length plan.partitions < n
    → fill_plan entry n plan ≡ none
unfolding fill_plan
fill_plan_fault entry n plan h = ground (arith, fill_fault entry 0 n plan.partitions)

at_most_four :
    (entry : ℕ → PartitionInfo) (n : ℕ) (q : PartitionPlan)
    → fill_plan entry n (cleared gpt n) ≡ some (success, q)
    → n ≤ 4
at_most_four entry n q e = ground (arith, fill_plan_fault entry n (cleared gpt n))

-- The branches that a successful plan took.
mbr_success :
    (plan q : PartitionPlan) (bytes n : ℕ)
    → plan_mbr_partition (some plan) bytes (pos n) ≡ some (success, some q)
    → (1 ≤ n)
      × (n ≤ 4)
      × (4096 < bytes / 512)
      × (2048 ≤ (bytes / 512 - 4096) / n)
      × (fill_plan
            (entry_at 2048 ((bytes / 512 - 4096) / n) n (bytes / 512 - 1) 1)
            n
            (cleared mbr n)
          ≡ some (success, q))
unfolding plan_mbr_partition mbr_parts
mbr_success plan q bytes n e = ground arith

gpt_success :
    (plan q : PartitionPlan) (bytes n : ℕ)
    → plan_gpt_partition (some plan) bytes (pos n) ≡ some (success, some q)
    → (1 ≤ n)
      × (2115 < bytes / 512)
      × (2048 ≤ (bytes / 512 - 2082 - 33) / n)
      × (fill_plan
            (entry_at 2082 ((bytes / 512 - 2082 - 33) / n) n (bytes / 512 - 34 - 1) 0)
            n
            (cleared gpt n)
          ≡ some (success, q))
unfolding plan_gpt_partition gpt_parts
gpt_success plan q bytes n e = ground arith

-- A successful MBR plan of `n` partitions, for a size that fits in 64 bits, divides the device from
-- the first megabyte to its last sector into partitions that are not empty and follow one another
-- without a gap or an overlap.
pub mbr-IsLayout :
    (plan q : PartitionPlan) (bytes n : ℕ)
    → bytes < 2 ^ 64
    → plan_mbr_partition (some plan) bytes (pos n) ≡ some (success, some q)
    → IsLayout q n 2048 (bytes / 512)
mbr-IsLayout plan q bytes n small e =
    let (one, four, room, share, filled) = mbr_success plan q bytes n e in
    let size = (bytes / 512 - 4096) / n in
    let last = bytes / 512 - 1 in
    subst (IsLayout q n 2048) (omega arith) (
      entries_IsLayout 2048 size n last 1 (bytes / 512 - 4096) refl (omega arith) (omega arith)
        (omega arith) q one
        (fill_plan_entries (entry_at 2048 size n last 1) n (cleared mbr n) q four filled))

-- A successful GPT plan of `n` partitions, for a size that fits in 64 bits, has at most four of them,
-- and divides the sectors from 2082 up to the last 34, which stay free, into partitions that are not
-- empty and follow one another without a gap or an overlap. The code sets aside 33 sectors at the
-- end for the backup table and header, so one sector more than these need is left over.
pub gpt-IsLayout :
    (plan q : PartitionPlan) (bytes n : ℕ)
    → bytes < 2 ^ 64
    → plan_gpt_partition (some plan) bytes (pos n) ≡ some (success, some q)
    → (n ≤ 4) × IsLayout q n 2082 (bytes / 512 - 34)
gpt-IsLayout plan q bytes n small e =
    let (one, room, share, filled) = gpt_success plan q bytes n e in
    let size = (bytes / 512 - 2082 - 33) / n in
    let last = bytes / 512 - 34 - 1 in
    let entry = entry_at 2082 size n last 0 in
    let four : n ≤ 4 = at_most_four (entry) n q filled in
    (
      four,
      subst (IsLayout q n 2082) (omega arith) (
          entries_IsLayout 2082 size n last 0 (bytes / 512 - 2082 - 33) refl (omega arith)
            (omega arith) (omega arith) q one
            (fill_plan_entries entry n (cleared gpt n) q four filled)),
    )

-- Whatever its arguments, the MBR planner never stores past the end of the plan's array.
pub plan_mbr_in_bounds :
    (out_plan : Option PartitionPlan) (bytes : ℕ) (n : ℤ)
    → plan_mbr_partition out_plan bytes n ≢ none
unfolding plan_mbr_partition mbr_parts
plan_mbr_in_bounds none bytes n h = cc
plan_mbr_in_bounds (some plan) bytes (negsuc k) h = cc
plan_mbr_in_bounds (some plan) bytes (pos n) h = ground (
  arith,
  fill_plan_lem (entry_at 2048 ((bytes / 512 - 4096) / n) n (bytes / 512 - 1) 1) n (cleared mbr n),
)

-- A GPT plan of more than four partitions, on a device of at least 10 MB with room for a megabyte in
-- each, stores past the end of the plan's array.
pub plan_gpt_out_of_bounds :
    (plan : PartitionPlan) (bytes n : ℕ)
    → 4 < n
    → 10 * 1024 * 1024 ≤ bytes
    → 2048 ≤ (bytes / 512 - 2115) / n
    → plan_gpt_partition (some plan) bytes (pos n) ≡ none
unfolding plan_gpt_partition gpt_parts
plan_gpt_out_of_bounds plan bytes n many large room = ground (
  arith,
  fill_plan_fault (entry_at 2082 ((bytes / 512 - 2082 - 33) / n) n (bytes / 512 - 34 - 1) 0) n
      (cleared gpt n),
)
