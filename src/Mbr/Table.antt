-- ===== src/Mbr/Table.antt =====
-- What the loop over the partition table does to the bytes of the first sector.
use winafi.Prelude.{
  ℕ, zero, suc, ◌+◌, ◌-◌, ◌*◌, ◌<◌, ◌≡◌, ◌≢◌, refl, ◌∙◌, List, arith, length, get_or,
  get_or-set_self, get_or-set_ne, length-set, ◌==◌, if◌then◌else◌,
}
use winafi.Mbr.Disk.{zero_left}
use winafi.Mbr.Bootcode.{flag_partitions}

-- Byte 0 of the entries from `i` on, `left` of them.
abbrev pub IsFlagByte : ℕ → ℕ → ℕ → Type 0
IsFlagByte left i j = (k : ℕ) × (k < left) × (j ≡ 446 + (i + k) * 16)

pub length-flag_partitions :
    (n left i : ℕ) (mbr : List ℕ) → length (flag_partitions n left i mbr) ≡ length mbr
unfolding flag_partitions
length-flag_partitions n zero i mbr = refl
length-flag_partitions n (suc left) i mbr =
    length-flag_partitions n left (suc i) _ ∙ length-set mbr (446 + i * 16) _

-- A byte that starts no entry is kept.
pub flag_partitions_other :
    (n left i : ℕ) (mbr : List ℕ) (j : ℕ)
    → ((k : ℕ) → k < left → j ≢ 446 + (i + k) * 16)
    → get_or (flag_partitions n left i mbr) j 0 ≡ get_or mbr j 0
unfolding flag_partitions
flag_partitions_other n zero i mbr j h = refl
flag_partitions_other n (suc left) i mbr j h =
    flag_partitions_other n left (suc i) _ j (λ k lt e. h (suc k) (omega arith) (omega arith))
    ∙ get_or-set_ne mbr (446 + i * 16) j _ 0 (λ e. h 0 (omega arith) (omega arith))

-- The first byte of entry `i + k` tells whether it is entry `n`, counted from 1.
pub flag_partitions_flag :
    (n left i : ℕ) (mbr : List ℕ) (k : ℕ)
    → k < left
    → 446 + (i + k) * 16 < length mbr
    → get_or (flag_partitions n left i mbr) (446 + (i + k) * 16) 0
      ≡ (if i + k == n - 1 then 0x80 else 0)
unfolding flag_partitions
flag_partitions_flag n zero i mbr k h b = absurd (omega arith)
flag_partitions_flag n (suc left) i mbr zero h b = rw (zero_right i) (
    flag_partitions_other n left (suc i) _ (446 + i * 16) (λ k lt e. absurd (omega arith))
    ∙ get_or-set_self mbr (446 + i * 16) _ 0 (omega arith))
  where
    zero_right : (i : ℕ) → i + 0 ≡ i
    zero_right i = omega arith
flag_partitions_flag n (suc left) i mbr (suc k) h b = rw (shift i k) (
    flag_partitions_flag n left (suc i) _ k (omega arith)
      (omega (arith, length-set mbr (446 + i * 16) (if i == n - 1 then 0x80 else 0x00))))
  where
    shift : (i k : ℕ) → i + suc k ≡ suc i + k
    shift i k = omega arith

-- The loop as the code starts it.
pub table_other :
    (n : ℕ) (mbr : List ℕ) (j : ℕ)
    → ((i : ℕ) → i < 4 → j ≢ 446 + i * 16)
    → get_or (flag_partitions n 4 0 mbr) j 0 ≡ get_or mbr j 0
table_other n mbr j h = flag_partitions_other n 4 0 mbr j (λ i lt e. h i lt (omega arith))

pub table_flag :
    (n : ℕ) (mbr : List ℕ) (i : ℕ)
    → i < 4
    → 446 + i * 16 < length mbr
    → get_or (flag_partitions n 4 0 mbr) (446 + i * 16) 0 ≡ (if i == n - 1 then 0x80 else 0)
table_flag n mbr i h b = rw (zero_left i) at (flag_partitions_flag n 4 0 mbr i h (omega arith))
