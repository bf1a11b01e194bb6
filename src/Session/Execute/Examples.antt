-- ===== src/Session/Execute/Examples.antt =====
-- A write of a Windows image to the stick of the samples.
use winafi.Prelude.{◌≡◌, ◌≢◌, refl, false, []}
use winafi.Prelude.Text.{starts_with, decimal, last_slash}
use winafi.Device.Examples.{desk_accepts, desk_unmounted}
use winafi.Partition.Examples.{desk_wiped}
use winafi.Os.{Machine, exited}
use winafi.Session.State.{build_partition_devnode, error}
use winafi.Session.Exec.{Run, lift, gets, modify, fail, require, progress_fire, pure, ◌>>=◌}
use winafi.Os.Io as Io
use winafi.Os.Io.{emit, act, run, make_temp}
use winafi.Mount.{
  mount_create_temp_dirs, in_chosen, name_dirs, make_dirs, make_ntfs_dir, mount_fat32, mount_ntfs,
  run_mount, unmount_and_cleanup, unmount_dir, remove_dir,
}
use winafi.Format.{
  fs_format_fat32, fs_format_ntfs, fs_check_tool_available, run_mkfs, mkfs_result, label_or,
}
use winafi.Session.Nodes.{await_nodes, both_exist}
use winafi.Session.Boot.{
  setup_boot, setup_for, windows_setup, windows_detection, windows_loader, inject, boot_step,
  customization, wintogo_config,
}
use winafi.Session.Lifecycle.Examples.{stick_capacity}
use winafi.Session.Execute.{
  execute, is_prepared, write_usb, end_of, check_device, find_target, or_fail, create_partitions,
  wipe, logged_wipe, format_partitions, fill_partitions, make_mount_dirs, mount_partitions,
  extract_image, extract_failed, finish,
}
use winafi.Session.Execute.Causes.{Causal}
use winafi.Session.Execute.Order.{execute-Causal, execute_failure}
use winafi.Session.Execute.Written.{Written}
use winafi.Samples.{helpful, silent_parts, ready, sdb}

abbrev start : Run
start = record { session = ready; log = [] }

execute-Causal_example : Causal helpful sdb [] (execute helpful silent_parts start).1.log
execute-Causal_example = execute-Causal helpful silent_parts ready

-- Every program that the write starts fails.
abbrev broken : Machine
broken = record helpful { wait = λ l c. exited 1 }

write_fails : (execute broken silent_parts start).0 ≡ false
unfolding execute is_prepared write_usb end_of check_device find_target or_fail create_partitions
    wipe logged_wipe format_partitions fill_partitions make_mount_dirs mount_partitions
    extract_image extract_failed finish await_nodes both_exist lift gets modify fail require
    progress_fire pure ◌>>=◌ Io.pure Io.◌>>=◌ emit act run make_temp setup_boot setup_for
    windows_setup windows_detection windows_loader inject boot_step customization wintogo_config
    mount_create_temp_dirs in_chosen name_dirs make_dirs make_ntfs_dir mount_fat32 mount_ntfs
    run_mount unmount_and_cleanup unmount_dir remove_dir fs_format_fat32 fs_format_ntfs
    fs_check_tool_available run_mkfs mkfs_result label_or build_partition_devnode starts_with
    last_slash decimal
write_fails = rw (desk_accepts, desk_unmounted, stick_capacity, desk_wiped) refl

execute_failure_example :
    let r = (execute broken silent_parts start).1 in
    (r.session.current_state ≡ error) × (r.session.error_code ≢ [])
execute_failure_example = execute_failure broken silent_parts ready write_fails
