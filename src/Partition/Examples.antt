-- ===== src/Partition/Examples.antt =====
-- The planners and the table on the stick of the samples, 15633408 sectors long.
use winafi.Prelude.{ℕ, ◌≡◌, ◌≤◌, ◌+◌, ◌*◌, ◌/◌, ◌-◌, refl, none, some, [], ◌∷◌, arith}
use winafi.Prelude.Int.{pos, ◌+ℤ◌, ◌-ℤ◌}
use winafi.Validate.{final_wipe_guard, valid}
use winafi.Validate.Examples.{desk_guard}
use winafi.Partition.{
  mbr, gpt, PartitionPlan, PartitionLayout, cleared, zero_info, entry_at, plan_mbr_partition,
  plan_gpt_partition, mbr_parts, gpt_parts, fill_plan, fill, partition_calculate_layout, clamp_boot,
  Table, table_for, table_of, add_data, commit_table, build_table, committed,
  partition_wipe_and_create,
}
use winafi.Partition.Plan.{IsLayout, mbr-IsLayout, gpt-IsLayout, plan_gpt_out_of_bounds}
use winafi.Partition.Wipe.{partition_calculate_layout_lem, written, wipe_needs_guard}
use winafi.Samples.{sdb, desk, agreeable}

abbrev bytes : ℕ
bytes = 8004304896

abbrev blank : PartitionPlan
blank = cleared mbr 0

abbrev mbr_pair : PartitionPlan
mbr_pair = record (cleared mbr 2) {
  partitions =
      entry_at 2048 7814656 2 15633407 1 0
      ∷ entry_at 2048 7814656 2 15633407 1 1
      ∷ zero_info
      ∷ zero_info
      ∷ [];
}

mbr-IsLayout_example : IsLayout mbr_pair 2 2048 (bytes / 512)
unfolding plan_mbr_partition mbr_parts fill_plan fill
mbr-IsLayout_example = mbr-IsLayout blank mbr_pair bytes 2 (omega arith) refl

abbrev gpt_pair : PartitionPlan
gpt_pair = record (cleared gpt 2) {
  partitions =
      entry_at 2082 7815646 2 15633373 0 0
      ∷ entry_at 2082 7815646 2 15633373 0 1
      ∷ zero_info
      ∷ zero_info
      ∷ [];
}

gpt-IsLayout_example : (2 ≤ 4) × IsLayout gpt_pair 2 2082 (bytes / 512 - 34)
unfolding plan_gpt_partition gpt_parts fill_plan fill
gpt-IsLayout_example = gpt-IsLayout blank gpt_pair bytes 2 (omega arith) refl

plan_gpt_out_of_bounds_example : plan_gpt_partition (some blank) bytes (pos 5) ≡ none
plan_gpt_out_of_bounds_example =
    plan_gpt_out_of_bounds blank bytes 5 (omega arith) (omega arith) (omega arith)

abbrev layout : PartitionLayout
layout = record { boot_size = 104857600; data_start = 206848; data_size = 15426560 }

layout_computed : partition_calculate_layout 104857600 15633408 ≡ some layout
unfolding partition_calculate_layout clamp_boot
layout_computed = refl

partition_calculate_layout_example :
    (50 * 1048576 ≤ 104857600)
    × (104857600 ≤ 200 * 1048576)
    × (206848 ≡ 2048 + 104857600 / 512)
    × (206848 + 15426560 ≡ 15633408)
partition_calculate_layout_example =
    partition_calculate_layout_lem 104857600 15633408 layout layout_computed

abbrev pub desk_table : Table
desk_table = record {
  boot_start = pos 2048;
  boot_end = pos 206847;
  data_start = pos 206848;
  data_end = pos 15633407;
}

-- The stick gets its table.
pub desk_wiped :
    partition_wipe_and_create desk agreeable (some sdb) 15633408 104857600 ≡ committed desk_table
unfolding partition_wipe_and_create partition_calculate_layout clamp_boot build_table add_data
    commit_table table_of table_for ◌+ℤ◌ ◌-ℤ◌
desk_wiped = rw desk_guard refl

desk-written :
    written (partition_wipe_and_create desk agreeable (some sdb) 15633408 104857600)
    ≡ some desk_table
desk-written = rw desk_wiped refl

wipe_needs_guard_example : final_wipe_guard desk (some sdb) ≡ valid
wipe_needs_guard_example =
    wipe_needs_guard desk agreeable sdb 15633408 104857600 desk_table desk-written
