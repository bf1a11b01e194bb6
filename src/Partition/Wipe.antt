-- ===== src/Partition/Wipe.antt =====
-- `partition_calculate_layout` and `partition_wipe_and_create`.
use winafi.Prelude.{ℕ, ◌+◌, ◌*◌, ◌/◌, ◌≤◌, ◌≡◌, Option, none, some, arith}
use winafi.Prelude.Int.{ℤ, pos, ◌+ℤ◌}
use winafi.Prelude.Text.{CString}
use winafi.System.{System}
use winafi.Validate.{valid, final_wipe_guard}
use winafi.Partition.{
  PartitionLayout, partition_calculate_layout, Ped, Table, WipeResult, not_written, commit_failed,
  committed, partition_wipe_and_create,
}

-- A layout that is computed has a boot partition of 50 MB to 200 MB behind the first megabyte, and
-- gives the data partition all that is left.
pub partition_calculate_layout_lem :
    (boot_size_bytes total_sectors : ℕ) (l : PartitionLayout)
    → partition_calculate_layout boot_size_bytes total_sectors ≡ some l
    → (50 * 1048576 ≤ l.boot_size)
      × (l.boot_size ≤ 200 * 1048576)
      × (l.data_start ≡ 2048 + l.boot_size / 512)
      × (l.data_start + l.data_size ≡ total_sectors)
unfolding partition_calculate_layout
partition_calculate_layout_lem boot_size_bytes total_sectors l h = ground arith

-- In a layout that is computed, a requested boot size of 50 MB to 200 MB is kept, to whole sectors.
pub boot_size_kept :
    (boot_size_bytes total_sectors : ℕ) (l : PartitionLayout)
    → 50 * 1048576 ≤ boot_size_bytes
    → boot_size_bytes ≤ 200 * 1048576
    → partition_calculate_layout boot_size_bytes total_sectors ≡ some l
    → l.boot_size ≡ boot_size_bytes / 512 * 512
unfolding partition_calculate_layout
boot_size_kept boot_size_bytes total_sectors l lo hi h = ground arith

abbrev pub written : WipeResult → Option Table
written not_written = none
written (commit_failed t) = some t
written (committed t) = some t

-- Nothing reaches the device unless the last guard passed on it.
pub wipe_needs_guard :
    (sys : System) (ped : Ped) (device : CString) (total boot : ℕ) (t : Table)
    → written (partition_wipe_and_create sys ped (some device) total boot) ≡ some t
    → final_wipe_guard sys (some device) ≡ valid
unfolding partition_wipe_and_create
wipe_needs_guard sys ped device total boot t h = ground arith

-- The device's constraint leaves the geometries as they are asked for.
unfoldable pub KeepsGeometry : Ped → CString → Type 0
KeepsGeometry ped device =
    (start end : ℤ) (given : ℤ × ℤ)
    → ped.add_partition device start end ≡ some given
    → given ≡ (start, end)

-- The two partitions meet: the first is the planned one, the second starts where the layout says
-- and ends with the device.
pub record FitsLayout (t : Table) (l : PartitionLayout) (device_length : ℕ) : Type 0 where
  pub first_megabyte : t.boot_start ≡ pos 2048
  pub adjacent : t.boot_end +ℤ pos 1 ≡ t.data_start
  pub data_begins : t.data_start ≡ pos l.data_start
  pub data_ends : t.data_end +ℤ pos 1 ≡ pos device_length
