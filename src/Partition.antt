-- ===== src/Partition.antt =====
-- platform/linux/partition.c: planning partition tables, and writing the one that the session uses.
pub mod Fill
pub mod Plan
pub mod Wipe
pub mod Examples
use winafi.Prelude.{
  ℕ, zero, suc, ◌+◌, ◌-◌, ◌*◌, ◌/◌, ◌%◌, ◌^◌, Bool, true, false, not, ◌||◌, Option, none, some,
  List, [], ◌∷◌, ltb, leb, ◌==◌, if◌then◌else◌, length, set,
}
use winafi.Prelude.Int.{ℤ, pos, negsuc, ◌+ℤ◌, ◌-ℤ◌}
use winafi.Prelude.Text.{CString, codes}
use winafi.System.{System}
use winafi.Validate.{final_wipe_guard, is_valid}

-- The return codes of partition.h.
pub data Code : Type 0 where
  success err_libparted err_no_space err_invalid_size : Code

pub data TableType : Type 0 where
  mbr gpt : TableType

pub record PartitionInfo : Type 0 where
  pub start_sector : ℕ
  pub end_sector : ℕ
  pub boot : ℕ
  pub partition_type : ℕ

-- `partitions` is an array of four.
pub record PartitionPlan : Type 0 where
  pub table_type : TableType
  pub num_partitions : ℕ
  pub partitions : List PartitionInfo

abbrev pub u64 : ℕ → ℕ
u64 n = n % 2 ^ 64

abbrev pub sector_size : ℕ
sector_size = 512

abbrev pub bytes_per_mb : ℕ
bytes_per_mb = 1024 * 1024

abbrev pub alignment_sectors : ℕ
alignment_sectors = 2048

abbrev pub min_boot_sectors : ℕ
min_boot_sectors = 50 * bytes_per_mb / sector_size

abbrev pub max_boot_sectors : ℕ
max_boot_sectors = 200 * bytes_per_mb / sector_size

abbrev pub mbr_max_partitions : ℕ
mbr_max_partitions = 4

abbrev pub min_device_size : ℕ
min_device_size = 10 * bytes_per_mb

abbrev pub zero_info : PartitionInfo
zero_info = record { start_sector = 0; end_sector = 0; boot = 0; partition_type = 0 }

-- `memset` and the two stores behind it.
abbrev pub cleared : TableType → ℕ → PartitionPlan
cleared t n = record {
  table_type = t;
  num_partitions = n;
  partitions = zero_info ∷ zero_info ∷ zero_info ∷ zero_info ∷ [];
}

-- The loop `for (i = ...; rounds left; i++) partitions[i] = entry(i)`. `none` is a store past the
-- end of the array, which C leaves undefined.
pub fill : (ℕ → PartitionInfo) → ℕ → ℕ → List PartitionInfo → Option (List PartitionInfo)
fill entry i zero parts = some parts
fill entry i (suc rounds) parts = elim (ltb i (length parts)) [
  | true ↦ fill entry (i + 1) rounds (set parts i (entry i))
  | false ↦ none
]

pub fill_plan : (ℕ → PartitionInfo) → ℕ → PartitionPlan → Option (Code × PartitionPlan)
unfolding fill
fill_plan entry n plan = elim (fill entry 0 n plan.partitions) [
  | none ↦ none
  | some parts ↦ some (success, record plan { partitions = parts })
]

-- One entry of either plan: equal sizes from `first`, the last one up to `last`.
pub entry_at : ℕ → ℕ → ℕ → ℕ → ℕ → ℕ → PartitionInfo
entry_at first partition_size n last boot i =
    let start = u64 (first + u64 (i * partition_size)) in
    record {
      start_sector = start;
      end_sector = if i == n - 1 then last else u64 (start + partition_size - 1);
      boot = if i == 0 then boot else 0;
      partition_type = 0x83;
    }

pub mbr_parts : ℕ → ℕ → Option (Code × PartitionPlan)
unfolding fill_plan
mbr_parts total_sectors n =
    let reserved = alignment_sectors + 2048 in
    let partition_size = (total_sectors - reserved) / n in
    if leb total_sectors reserved
    then some (err_no_space, cleared mbr n)
    else if ltb partition_size alignment_sectors
    then some (err_no_space, cleared mbr n)
    else fill_plan (entry_at alignment_sectors partition_size n (total_sectors - 1) 1) n
        (cleared mbr n)

-- The first argument is `out_plan` before the call, `none` for NULL; the result is `none` if the
-- call stores past the end of the plan's array, and otherwise the code and the plan after it.
pub plan_mbr_partition : Option PartitionPlan → ℕ → ℤ → Option (Code × Option PartitionPlan)
unfolding mbr_parts
plan_mbr_partition none device_size num_partitions = some (err_libparted, none)
plan_mbr_partition (some plan) device_size (negsuc k) = some (err_invalid_size, some plan)
plan_mbr_partition (some plan) device_size (pos n) =
    if ltb n 1 || ltb mbr_max_partitions n
    then some (err_invalid_size, some plan)
    else if ltb device_size min_device_size
    then some (err_no_space, some plan)
    else elim (mbr_parts (device_size / sector_size) n) [
      | none ↦ none
      | some (code, plan') ↦ some (code, some plan')
    ]

pub gpt_parts : ℕ → ℕ → Option (Code × PartitionPlan)
unfolding fill_plan
gpt_parts total_sectors n =
    let first_usable = 34 + alignment_sectors in
    let partition_size = (total_sectors - first_usable - 33) / n in
    if leb total_sectors (34 + 33 + alignment_sectors)
    then some (err_no_space, cleared gpt n)
    else if ltb partition_size alignment_sectors
    then some (err_no_space, cleared gpt n)
    else fill_plan (entry_at first_usable partition_size n (total_sectors - 34 - 1) 0) n
        (cleared gpt n)

pub plan_gpt_partition : Option PartitionPlan → ℕ → ℤ → Option (Code × Option PartitionPlan)
unfolding gpt_parts
plan_gpt_partition none device_size num_partitions = some (err_libparted, none)
plan_gpt_partition (some plan) device_size (negsuc k) = some (err_invalid_size, some plan)
plan_gpt_partition (some plan) device_size (pos n) =
    if ltb n 1
    then some (err_invalid_size, some plan)
    else if ltb device_size min_device_size
    then some (err_no_space, some plan)
    else elim (gpt_parts (device_size / sector_size) n) [
      | none ↦ none
      | some (code, plan') ↦ some (code, some plan')
    ]

pub record PartitionLayout : Type 0 where
  pub boot_size : ℕ
  pub data_start : ℕ
  pub data_size : ℕ

clamp_boot : ℕ → ℕ
clamp_boot sectors =
    let raised = if ltb sectors min_boot_sectors then min_boot_sectors else sectors in
    if ltb max_boot_sectors raised then max_boot_sectors else raised

-- `none` is the result -1.
pub partition_calculate_layout : ℕ → ℕ → Option PartitionLayout
unfolding clamp_boot
partition_calculate_layout boot_size_bytes total_sectors =
    let boot_sectors = clamp_boot (boot_size_bytes / sector_size) in
    if ltb total_sectors (boot_sectors + 2048)
    then none
    else some (record {
      boot_size = boot_sectors * sector_size;
      data_start = boot_sectors + 2048;
      data_size = total_sectors - (boot_sectors + 2048);
    })

-- libparted, as far as `partition_wipe_and_create` uses it: whether each call succeeds, for the
-- device and the arguments given, and the device's length in sectors. All of it but the commit
-- works in memory.
pub record Ped : Type 0 where
  pub device_get : CString → Bool
  pub device_length : CString → ℕ
  pub disk_type_get : CString → Bool
  pub disk_new_fresh : CString → Bool
  pub get_constraint : CString → Bool
  pub geometry_init : CString → ℤ → ℤ → Bool
  pub fs_type_get : CString → Bool
  pub partition_new : CString → ℤ → ℤ → Bool
  -- the geometry that the added partition then has, which the constraint may move; `none` is 0
  pub add_partition : CString → ℤ → ℤ → Option (ℤ × ℤ)
  pub set_boot_flag : CString → Bool
  pub commit : CString → Bool

-- A table: an MBR label, the boot flag on the first partition.
pub record Table : Type 0 where
  pub boot_start : ℤ
  pub boot_end : ℤ
  pub data_start : ℤ
  pub data_end : ℤ

-- What reached the device, and the result: 0 for `committed`, -1 for the others.
pub data WipeResult : Type 0 where
  not_written : WipeResult
  commit_failed : Table → WipeResult
  committed : Table → WipeResult

-- The sectors that are asked for.
table_for : ℕ → ℕ → Table
table_for boot_size device_length =
    let boot_end = pos 2048 +ℤ pos (boot_size / sector_size) -ℤ pos 1 in
    record {
      boot_start = pos 2048;
      boot_end = boot_end;
      data_start = boot_end +ℤ pos 1;
      data_end = pos device_length -ℤ pos 1;
    }

-- The table handed to `ped_disk_commit`: the geometries that the two partitions were given.
table_of : ℤ × ℤ → ℤ × ℤ → Table
table_of (boot_start, boot_end) (data_start, data_end) = record {
  boot_start = boot_start;
  boot_end = boot_end;
  data_start = data_start;
  data_end = data_end;
}

commit_table : Ped → CString → Table → WipeResult
commit_table ped device t = if ped.commit device then committed t else commit_failed t

-- Behind the first partition, which has the geometry `boot`; the second is asked for behind the
-- requested end of the first.
add_data : Ped → CString → Table → ℤ × ℤ → WipeResult
unfolding commit_table table_of
add_data ped device t boot =
    if not (ped.geometry_init device t.data_start (t.data_end -ℤ t.data_start +ℤ pos 1))
    then not_written
    else if not (ped.fs_type_get (codes "ntfs"))
    then not_written
    else if not (ped.partition_new device t.data_start t.data_end)
    then not_written
    else elim (ped.add_partition device t.data_start t.data_end) [
      | none ↦ not_written
      | some data_geometry ↦
          if not (ped.set_boot_flag device)
          then not_written
          else commit_table ped device (table_of boot data_geometry)
    ]

-- The calls up to the commit, each of which ends the function if it fails.
build_table : Ped → CString → ℕ → WipeResult
unfolding table_for add_data
build_table ped device boot_size =
    let t = table_for boot_size (ped.device_length device) in
    if not (ped.device_get device)
    then not_written
    else if not (ped.disk_type_get (codes "msdos"))
    then not_written
    else if not (ped.disk_new_fresh device)
    then not_written
    else if not (ped.get_constraint device)
    then not_written
    else if not (ped.geometry_init device t.boot_start (pos (boot_size / sector_size)))
    then not_written
    else if not (ped.fs_type_get (codes "fat32"))
    then not_written
    else if not (ped.partition_new device t.boot_start t.boot_end)
    then not_written
    else elim (ped.add_partition device t.boot_start t.boot_end) [
      | none ↦ not_written
      | some boot ↦ add_data ped device t boot
    ]

pub partition_wipe_and_create : System → Ped → Option CString → ℕ → ℕ → WipeResult
unfolding partition_calculate_layout build_table
partition_wipe_and_create sys ped none total_sectors boot_size_bytes = not_written
partition_wipe_and_create sys ped (some device) total_sectors boot_size_bytes =
    if is_valid (final_wipe_guard sys (some device))
    then elim (partition_calculate_layout boot_size_bytes total_sectors) [
      | none ↦ not_written
      | some layout ↦ build_table ped device layout.boot_size
    ]
    else not_written
