-- ===== src/Validate/Examples.antt =====
-- The checks of a device on the machine of the samples.
use winafi.Prelude.{
  false, ◌++◌, ℕ, zero, suc, ◌-◌, ◌≡◌, ◌↔◌, ◌+◌, ◌^◌, refl, true, some, List, [], ◌∷◌, arith,
  length, Member, here, there, any,
}
use winafi.Prelude.Text.{CString, codes, str_eq, starts_with, decimal, last_slash, scan_word}
use winafi.Validate.{
  not_found, validate_device_not_locked, valid, system_drive, sys_block, mtab, final_wipe_guard,
  is_virtual, node_in_mounts, guard_partitions, mount_line_matches, any_partition_in_mounts,
  partition_in_mounts, partition_node, child_partition_has_swap, swap_devs, collect_devs,
  swap_line_hits, validate_not_system_drive, child_partition_mounted_at_protected, child_devs,
  table_hits, entry_hits, mount_entry_matches_dev, is_protected_mountpoint, has_swap, scan_tables,
  scan_file, scan_table, devnode_to_sysname, validate_device_capacity,
}
use winafi.Validate.Devices.{count_partitions, swap_devs_overflow, child_devs-Member}
use winafi.Validate.Protected.{protected_refused}
use winafi.Validate.Unused.{IsMountLineOf}
use winafi.Validate.Guard.{mount_line_matches_iff, validate_device_capacity_wraps}
use winafi.System.{System}
use winafi.Samples.{sdb, sdb1, desk, live_desk, root_line}

-- The guard lets the stick through.
pub desk_guard : final_wipe_guard desk (some sdb) ≡ valid
unfolding final_wipe_guard is_virtual node_in_mounts guard_partitions mount_line_matches
    any_partition_in_mounts partition_in_mounts partition_node child_partition_has_swap swap_devs
    collect_devs swap_line_hits validate_not_system_drive child_partition_mounted_at_protected
    child_devs table_hits entry_hits mount_entry_matches_dev is_protected_mountpoint has_swap
    scan_tables scan_file scan_table devnode_to_sysname any str_eq starts_with decimal last_slash
    scan_word
desk_guard = refl

pub desk_not_system : validate_not_system_drive desk (some sdb) ≡ not_found
unfolding partition_node child_partition_has_swap swap_devs collect_devs swap_line_hits
    validate_not_system_drive child_partition_mounted_at_protected child_devs table_hits entry_hits
    mount_entry_matches_dev is_protected_mountpoint has_swap scan_tables scan_file scan_table
    devnode_to_sysname any str_eq decimal last_slash scan_word
desk_not_system = refl

pub desk_unlocked : validate_device_not_locked desk (some sdb) ≡ valid
unfolding validate_device_not_locked
desk_unlocked = refl

protected_refused_example : validate_not_system_drive live_desk (some sdb) ≡ system_drive
unfolding child_devs collect_devs partition_node is_protected_mountpoint devnode_to_sysname any
    str_eq starts_with decimal last_slash
protected_refused_example =
    protected_refused live_desk sdb (codes "sdb") mtab 2064 2065
      (record { fsname = sdb1; dir = codes "/" } ∷ []) (record { fsname = sdb1; dir = codes "/" })
      refl refl (here refl) refl (here refl) (there (here refl)) refl refl

child_devs-Member_example : Member 2065 (child_devs desk (codes "sdb") 2064)
unfolding partition_node str_eq
child_devs-Member_example =
    child_devs-Member desk (codes "sdb") 2064 2065 (codes "sdb1") (codes "sdb1" ∷ []) refl
      (omega arith) (here refl) refl

mount_line_matches_iff_example :
    (mount_line_matches sdb root_line ≡ true) ↔ IsMountLineOf sdb root_line
mount_line_matches_iff_example = mount_line_matches_iff sdb root_line

validate_device_capacity_wraps_example : validate_device_capacity 8004304896 (2 ^ 64 - 1) ≡ valid
validate_device_capacity_wraps_example =
    validate_device_capacity_wraps 8004304896 (2 ^ 64 - 1) (omega arith) (omega arith) (omega arith)

-- A disk whose listing has the entries of a directory and of a disk, and then its partitions 1 to
-- 128.
abbrev partition_names : ℕ → ℕ → List CString
partition_names zero k = []
partition_names (suc n) k = (codes "sdb" ++ decimal k) ∷ partition_names n (k + 1)

abbrev crowded_names : List CString
crowded_names =
    codes "." ∷ codes ".." ∷ codes "queue" ∷ codes "holders" ∷ codes "size" ∷ partition_names 128 1

abbrev crowded : System
crowded = record desk {
  access = λ path. starts_with (codes "/sys/block/sdb/sdb") path;
  readdir = λ path. some crowded_names;
  stat = λ path. some (record { is_blk = true; is_reg = false; rdev = 2064; size = 0 });
}

crowded_partitions : count_partitions crowded (sys_block (codes "sdb")) crowded_names ≡ 128
unfolding count_partitions partition_node starts_with decimal
crowded_partitions = refl

swap_devs_overflow_example : length (swap_devs crowded (codes "sdb") crowded_names) ≡ 129
swap_devs_overflow_example =
    swap_devs_overflow crowded (codes "sdb") 2064 crowded_names
      (rw crowded_partitions (omega arith)) refl
