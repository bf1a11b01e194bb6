-- ===== src/Mbr/Sector.antt =====
-- The operations on the first sector: when they succeed, and what they leave on the device.
use winafi.Prelude.{
  ℕ, ◌+◌, ◌-◌, ◌*◌, ◌≤◌, ◌<◌, ◌≡◌, ◌≢◌, ◌⊎◌, inl, inr, ◌∙◌, List, arith, length, get_or, take,
  length-take, ◌==◌, if◌then◌else◌, Option, some,
}
use winafi.Prelude.Int.{ℤ, pos_part}
use winafi.Prelude.Text.{CString}
use winafi.Mbr.Disk.{get_or-write_at_start, write_at, read_at, get_or-write_at_right, get_or-take}
use winafi.Mbr.Calls.{Host, mbr_ok, read_exactly, read_mbr, write_exactly, write_mbr}
use winafi.Mbr.Bootcode.{flag_partitions, set_boot_flag}
use winafi.Mbr.Table.{table_flag, table_other, length-flag_partitions}

pub read_exactly_lem :
    (host : Host) (n o : ℕ) (d b : List ℕ)
    → read_exactly host n o d ≡ some b
    → (b ≡ read_at n o d) × (length b ≡ n)
unfolding read_exactly
read_exactly_lem host n o d b h = ground arith

-- The sector that a successful `set_boot_flag` writes.
set_boot_flag_ok :
    (host : Host) (device : Option CString) (n : ℤ) (d : List ℕ)
    → (set_boot_flag host device n d).code ≡ mbr_ok
    → (1 ≤ pos_part n)
      × (pos_part n ≤ 4)
      × (512 ≤ length d)
      × ((set_boot_flag host device n d).disk
          ≡ write_at 0 (flag_partitions (pos_part n) 4 0 (take 512 d)) d)
unfolding set_boot_flag read_mbr read_exactly write_mbr write_exactly
set_boot_flag_ok host device n d h = ground (arith, length-take 512 d)

-- After the loop the first byte of each entry tells whether it is entry `n`, and every other byte is
-- that of `d`.
abbrev pub FlagsOnly : ℕ → List ℕ → List ℕ → Type 0
FlagsOnly n d e =
    ((i : ℕ) → i < 4 → get_or e (446 + i * 16) 0 ≡ (if i == n - 1 then 0x80 else 0))
    × ((j : ℕ) → ((i : ℕ) → i < 4 → j ≢ 446 + i * 16) → get_or e j 0 ≡ get_or d j 0)

sector_FlagsOnly :
    (n : ℕ) (d : List ℕ)
    → 512 ≤ length d
    → FlagsOnly n d (write_at 0 (flag_partitions n 4 0 (take 512 d)) d)
sector_FlagsOnly n d long =
    let size = length-flag_partitions n 4 0 (take 512 d) ∙ length-take 512 d in
    (
      λ i h.
          get_or-write_at_start (flag_partitions n 4 0 (take 512 d)) d (446 + i * 16) (omega arith)
            (omega arith)
          ∙ table_flag n (take 512 d) i h (omega (arith, length-take 512 d)),
      λ j h. elim (lt-cases j 512) [
        | inl lt ↦
            get_or-write_at_start (flag_partitions n 4 0 (take 512 d)) d j (omega arith)
              (omega arith)
            ∙ (table_other n (take 512 d) j h ∙ get_or-take 512 d j lt)
        | inr ge ↦ get_or-write_at_right 0 (flag_partitions n 4 0 (take 512 d)) d j (omega arith)
      ],
    )
  where
    lt-cases : (j n : ℕ) → (j < n) ⊎ (n ≤ j)
    lt-cases j n = omega arith

-- A `set_boot_flag` that returns MBR_OK was given a number from 1 to 4, and leaves a device whose
-- table has the flag 0x80 in that entry and 0 in the other three, with every other byte as it was.
pub set_boot_flag-FlagsOnly :
    (host : Host) (device : Option CString) (n : ℤ) (d : List ℕ)
    → (set_boot_flag host device n d).code ≡ mbr_ok
    → (1 ≤ pos_part n)
      × (pos_part n ≤ 4)
      × FlagsOnly (pos_part n) d ((set_boot_flag host device n d).disk)
set_boot_flag-FlagsOnly host device n d h =
    let (low, high, long, e) = set_boot_flag_ok host device n d h in
    (low, high, rw e (sector_FlagsOnly (pos_part n) d long))
