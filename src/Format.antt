-- ===== src/Format.antt =====
-- platform/linux/fs_ops.c: the two mkfs programs, run under `timeout 30`. 0 is `true`.
use winafi.Prelude.{Bool, true, false, Option, none, some, ◌==◌, if◌then◌else◌}
use winafi.Prelude.Text.{CString, codes}
use winafi.Os.{
  Machine, Command, which, mkfs_vfat, mkfs_ntfs, Wait, fork_failed, wait_failed, signaled, exited,
  exit_ok,
}
use winafi.Os.Io.{Io, pure, ◌>>=◌, run}

-- The parent's reading of the child's end; 124 is the timeout of timeout(1).
unfoldable pub mkfs_result : Wait → Bool
mkfs_result fork_failed = false
mkfs_result wait_failed = false
mkfs_result signaled = false
mkfs_result (exited code) = if code == 124 then false else if code == 0 then true else false

unfoldable pub label_or : Option CString → CString → CString
label_or none d = d
label_or (some label) d = label

module _ (machine : Machine) where
  unfoldable pub fs_check_tool_available : CString → Io Bool
  fs_check_tool_available tool_name = do w ← run machine (which tool_name); pure (exit_ok w)

  unfoldable pub run_mkfs : Command → Io Bool
  unfolding mkfs_result
  run_mkfs command = do w ← run machine command; pure (mkfs_result w)

  unfoldable pub fs_format_fat32 : Option CString → Option CString → Io Bool
  unfolding fs_check_tool_available run_mkfs label_or
  fs_format_fat32 none label = pure false
  fs_format_fat32 (some device) label = do
    available ← fs_check_tool_available (codes "mkfs.vfat")
    if available then run_mkfs (mkfs_vfat (label_or label (codes "BOOT")) device) else pure false

  unfoldable pub fs_format_ntfs : Option CString → Option CString → Io Bool
  unfolding fs_check_tool_available run_mkfs label_or
  fs_format_ntfs none label = pure false
  fs_format_ntfs (some device) label = do
    available ← fs_check_tool_available (codes "mkfs.ntfs")
    if available then run_mkfs (mkfs_ntfs (label_or label (codes "WINDOWS")) device) else pure false
