-- ===== src/Mount.antt =====
-- platform/linux/mount_ops.c: the temporary directories and the mounts. 0 is `true`.
use winafi.Prelude.{
  ◌+◌, Bool, true, false, not, ◌&&◌, Option, none, some, [], ◌∷◌, ◌++◌, leb, if◌then◌else◌, length,
}
use winafi.Prelude.Text.{CString, codes, fit}
use winafi.Os.{Machine, mount, MountType, vfat, ntfs_3g, ntfs3, ntfs, mkdir, rmdir, umount, exit_ok}
use winafi.Os.Io.{Io, pure, ◌>>=◌, ◌>>◌, emit, act, run, make_temp}

pub record MountContext : Type 0 where
  pub fat_mount : CString
  pub ntfs_mount : CString
  pub temp_dir : CString

module _ (machine : Machine) where
  unfoldable pub run_mount : MountType → CString → CString → Io Bool
  run_mount type device mount_point = do
    w ← run machine (mount type device mount_point)
    pure (exit_ok w)

  -- Takes the directory away again and fails.
  unfoldable pub give_up : CString → MountContext → Io (Bool × MountContext)
  give_up dir ctx = do act machine (rmdir dir); pure (false, ctx)

  unfoldable pub make_ntfs_dir : MountContext → Io (Bool × MountContext)
  make_ntfs_dir ctx = do
    made ← emit machine (mkdir ctx.ntfs_mount)
    if not made
        then act machine (rmdir ctx.fat_mount) >> give_up ctx.temp_dir ctx
        else pure (true, ctx)

  unfoldable pub make_dirs : MountContext → Io (Bool × MountContext)
  unfolding make_ntfs_dir
  make_dirs ctx = do
    fat ← emit machine (mkdir ctx.fat_mount)
    if not fat then give_up ctx.temp_dir ctx else make_ntfs_dir ctx

  -- The paths are written before the directories are made, and stay written where that fails.
  unfoldable pub name_dirs : MountContext → CString → Io (Bool × MountContext)
  unfolding make_dirs
  name_dirs ctx name =
      let temp = fit 256 name in
      let named_fat = record ctx { temp_dir = temp; fat_mount = fit 256 (temp ++ codes "/fat") } in
      let named = record named_fat { ntfs_mount = fit 256 (temp ++ codes "/ntfs") } in
      if leb 256 (length temp + 4)
      then give_up temp named_fat
      else if leb 256 (length temp + 5)
      then give_up temp named
      else make_dirs named

  unfoldable pub in_chosen : MountContext → Option CString → Io (Bool × MountContext)
  unfolding name_dirs
  in_chosen ctx none = pure (false, ctx)
  in_chosen ctx (some name) = name_dirs ctx name

  unfoldable pub mount_create_temp_dirs : MountContext → Io (Bool × MountContext)
  unfolding in_chosen
  mount_create_temp_dirs ctx = do
    chosen ← make_temp machine (codes "/tmp/winafi-mount-XXXXXX")
    in_chosen ctx chosen

  unfoldable pub mount_fat32 : CString → CString → Io Bool
  unfolding run_mount
  mount_fat32 device mount_point = run_mount vfat device mount_point

  unfoldable pub mount_ntfs_kernel : CString → CString → Io Bool
  unfolding run_mount
  mount_ntfs_kernel device mount_point = do
    kernel ← run_mount ntfs3 device mount_point
    if kernel then pure true else run_mount ntfs device mount_point

  -- ntfs-3g first, then the kernel's ntfs3, then what mount itself detects.
  unfoldable pub mount_ntfs : CString → CString → Io Bool
  unfolding run_mount mount_ntfs_kernel
  mount_ntfs device mount_point = do
    fuse ← run_mount ntfs_3g device mount_point
    if fuse then pure true else mount_ntfs_kernel device mount_point

  unfoldable pub unmount_dir : CString → Io Bool
  unmount_dir [] = pure true
  unmount_dir (c ∷ path) = do
    gone ← emit machine (umount (c ∷ path))
    act machine (rmdir (c ∷ path))
    pure gone

  unfoldable pub remove_dir : CString → Io Bool
  remove_dir [] = pure true
  remove_dir (c ∷ path) = emit machine (rmdir (c ∷ path))

  unfoldable pub unmount_and_cleanup : MountContext → Io Bool
  unfolding unmount_dir remove_dir
  unmount_and_cleanup ctx = do
    ntfs_gone ← unmount_dir ctx.ntfs_mount
    fat_gone ← unmount_dir ctx.fat_mount
    temp_gone ← remove_dir ctx.temp_dir
    pure (ntfs_gone && fat_gone && temp_gone)
