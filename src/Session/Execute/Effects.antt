-- ===== src/Session/Execute/Effects.antt =====
-- The mounts, the directories and the mkfs programs, against what has to be done before them.
use winafi.Prelude.{
  ℕ, ◌++◌, ◌≢◌, Bool, refl, inl, inr, ◌&&◌, leb, length, ◌+◌, not, ap, ◌≡◌, true, false, [], ◌∷◌,
  Option, none, some, arith, here,
}
use winafi.Prelude.Text.{CString, codes, fit}
use winafi.Os.{
  which, mkfs_vfat, mkfs_ntfs, Machine, Log, Command, exit_ok, Wait, spawn, rmdir, umount, mkdir,
  mount, vfat, ntfs, ntfs3, ntfs_3g, MountType,
}
use winafi.Os.Io.{event}
use winafi.Mount.{
  in_chosen, give_up, run_mount, mount_ntfs_kernel, unmount_dir, remove_dir, name_dirs, make_dirs,
  make_ntfs_dir, MountContext, mount_fat32, mount_ntfs, unmount_and_cleanup, mount_create_temp_dirs,
}
use winafi.Format.{
  mkfs_result, run_mkfs, fs_check_tool_available, label_or, fs_format_fat32, fs_format_ntfs,
}
use winafi.Session.State.{build_partition_devnode}
use winafi.Session.Execute.Causes.{
  Causal, Causal-trans, Gone, Removed, Released, HasDirs, Needs, later, Mounted, FatMade, NtfsMade,
  Committed, Did,
}
use winafi.Session.Execute.Rules.{
  Due, Due-pure, Due-bind, Due-emit, Due-act, Due-run, Due-if, Due-make_temp,
}

abbrev pub Anything : {A : Type 0} → A → Log → Type 0
Anything a l = Unit

mkfs-exit_ok : (w : Wait) → mkfs_result w ≡ true → exit_ok w ≡ true
unfolding mkfs_result
mkfs-exit_ok w h = ground arith

and_left : (a b d : Bool) → a && b && d ≡ true → a ≡ true
and_left a b d h = ground arith

and_middle : (a b d : Bool) → a && b && d ≡ true → b ≡ true
and_middle a b d h = ground arith

and_right : (a b d : Bool) → a && b && d ≡ true → d ≡ true
and_right a b d h = ground arith

-- A name with something behind it is not empty in its buffer.
fit_not_empty : (s : CString) (c : ℕ) (r : CString) → fit 256 (s ++ c ∷ r) ≢ []
fit_not_empty [] c r h = absurd (cc h)
fit_not_empty (d ∷ s) c r h = absurd (cc h)

module _ {machine : Machine} {dev : CString} where
  run_mount-Due :
      {l : Log} (type : MountType) (node dir : CString)
      → Needs machine dev (spawn (mount type node dir)) l
      → Due machine dev (run_mount machine type node dir) l (λ b l'. b ≡ true → Mounted dir l')
  unfolding run_mount
  run_mount-Due type node dir n =
      Due-bind
        (Due-run {Q = λ w l'. exit_ok w ≡ true → Mounted dir l'} (mount type node dir) n
          (λ w e. (type, node, here (ap (event (spawn (mount type node dir))) e))))
        (λ w l' c q. Due-pure (exit_ok w) q)

  pub mount_fat32-Due :
      {l : Log} (node dir : CString)
      → FatMade node l
      → Due machine dev (mount_fat32 machine node dir) l (λ b l'. b ≡ true → Mounted dir l')
  unfolding mount_fat32
  mount_fat32-Due node dir n = run_mount-Due vfat node dir n

  kernel-Due :
      {l : Log} (node dir : CString)
      → NtfsMade node l
      → Due machine dev (mount_ntfs_kernel machine node dir) l (λ b l'. b ≡ true → Mounted dir l')
  unfolding mount_ntfs_kernel
  kernel-Due node dir n = Due-bind (run_mount-Due ntfs3 node dir n) (λ b l' c q.
      Due-if b (λ e. Due-pure true (λ t. q e))
        (λ e. run_mount-Due ntfs node dir (later machine dev c n)))

  pub mount_ntfs-Due :
      {l : Log} (node dir : CString)
      → NtfsMade node l
      → Due machine dev (mount_ntfs machine node dir) l (λ b l'. b ≡ true → Mounted dir l')
  unfolding mount_ntfs
  mount_ntfs-Due node dir n = Due-bind (run_mount-Due ntfs_3g node dir n) (λ b l' c q.
      Due-if b (λ e. Due-pure true (λ t. q e)) (λ e. kernel-Due node dir (later machine dev c n)))

  run_mkfs-Due :
      {l : Log} (command : Command)
      → Needs machine dev (spawn command) l
      → Due machine dev (run_mkfs machine command) l (λ b l'. b ≡ true → Did (spawn command) l')
  unfolding run_mkfs
  run_mkfs-Due command n =
      Due-bind
        (Due-run {Q = λ w l'. mkfs_result w ≡ true → Did (spawn command) l'} command n
          (λ w e. here (ap (event (spawn command)) (mkfs-exit_ok w e))))
        (λ w l' c q. Due-pure (mkfs_result w) q)

  tool-Due :
      {l : Log} (tool : CString) → Due machine dev (fs_check_tool_available machine tool) l Anything
  unfolding fs_check_tool_available
  tool-Due tool =
      Due-bind (Due-run {Q = Anything} (which tool) tt (λ w. tt))
        (λ w l' c q. Due-pure (exit_ok w) tt)

  pub fat32-Due :
      {l : Log} (node : CString)
      → Committed dev l
      → build_partition_devnode dev 1 128 ≡ some node
      → Due machine dev
          (fs_format_fat32 machine (some node) (some (codes "BOOT")))
          l
          (λ b l'. b ≡ true → FatMade node l')
  unfolding fs_format_fat32 label_or
  fat32-Due node (t, m) e = Due-bind (tool-Due (codes "mkfs.vfat")) (λ b l' c q.
      Due-if b (λ h. run_mkfs-Due (mkfs_vfat (codes "BOOT") node) ((t, later machine dev c m), e))
        (λ h. Due-pure false (λ k. absurd (ground arith))))

  pub ntfs-Due :
      {l : Log} (node : CString)
      → Committed dev l
      → build_partition_devnode dev 2 128 ≡ some node
      → Due machine dev
          (fs_format_ntfs machine (some node) (some (codes "WINDOWS")))
          l
          (λ b l'. b ≡ true → NtfsMade node l')
  unfolding fs_format_ntfs label_or
  ntfs-Due node (t, m) e = Due-bind (tool-Due (codes "mkfs.ntfs")) (λ b l' c q.
      Due-if b
        (λ h. run_mkfs-Due (mkfs_ntfs (codes "WINDOWS") node) ((t, later machine dev c m), e))
        (λ h. Due-pure false (λ k. absurd (ground arith))))

  give_up-Due :
      {l : Log} (dir : CString) (ctx : MountContext)
      → Due machine dev (give_up machine dir ctx) l (λ x l'. x.0 ≡ true → HasDirs x.1)
  unfolding give_up
  give_up-Due dir ctx =
      Due-bind (Due-act {Q = Anything} (rmdir dir) tt (λ d. tt))
        (λ u l c q. Due-pure (false, ctx) (λ h. absurd (cc h)))

  ntfs_dir-Due :
      {l : Log} (ctx : MountContext)
      → HasDirs ctx
      → Due machine dev (make_ntfs_dir machine ctx) l (λ x l'. x.0 ≡ true → HasDirs x.1)
  unfolding make_ntfs_dir
  ntfs_dir-Due ctx named =
      Due-bind (Due-emit {Q = Anything} (mkdir ctx.ntfs_mount) tt (λ b. tt)) (λ b l c q.
        Due-if (not b)
          (λ e.
            Due-bind (Due-act {Q = Anything} (rmdir ctx.fat_mount) tt (λ d. tt))
              (λ u l' d p. give_up-Due ctx.temp_dir ctx))
          (λ e. Due-pure (true, ctx) (λ h. named)))

  both_dirs-Due :
      {l : Log} (ctx : MountContext)
      → HasDirs ctx
      → Due machine dev (make_dirs machine ctx) l (λ x l'. x.0 ≡ true → HasDirs x.1)
  unfolding make_dirs
  both_dirs-Due ctx named =
      Due-bind (Due-emit {Q = Anything} (mkdir ctx.fat_mount) tt (λ b. tt)) (λ b l c q.
        Due-if (not b) (λ e. give_up-Due ctx.temp_dir ctx) (λ e. ntfs_dir-Due ctx named))

  named-Due :
      {l : Log} (ctx : MountContext) (name : CString)
      → Due machine dev (name_dirs machine ctx name) l (λ x l'. x.0 ≡ true → HasDirs x.1)
  unfolding name_dirs
  named-Due ctx name =
      Due-if (leb 256 (length (fit 256 name) + 4)) (λ e. give_up-Due (fit 256 name) _)
        (λ f.
          Due-if (leb 256 (length (fit 256 name) + 5)) (λ e. give_up-Due (fit 256 name) _)
            (λ e. both_dirs-Due _ (
              fit_not_empty (fit 256 name) b'/' (codes "fat"),
              fit_not_empty (fit 256 name) b'/' (codes "ntfs"),
            )))

  chosen-Due :
      {l : Log} (ctx : MountContext) (c : Option CString)
      → Due machine dev (in_chosen machine ctx c) l (λ x l'. x.0 ≡ true → HasDirs x.1)
  unfolding in_chosen
  chosen-Due ctx none = Due-pure (false, ctx) (λ h. absurd (cc h))
  chosen-Due ctx (some name) = named-Due ctx name

  pub temp_dirs-Due :
      {l : Log} (ctx : MountContext)
      → Due machine dev (mount_create_temp_dirs machine ctx) l (λ x l'. x.0 ≡ true → HasDirs x.1)
  unfolding mount_create_temp_dirs
  temp_dirs-Due {l = l} ctx = Due-bind (Due-make_temp _ l) (λ c l' d q. chosen-Due ctx c)

  unmount_dir-Due :
      {l : Log} (path : CString)
      → Due machine dev (unmount_dir machine path) l (λ b l'. b ≡ true → Gone path l')
  unfolding unmount_dir
  unmount_dir-Due [] = Due-pure true (λ h. inl refl)
  unmount_dir-Due (c ∷ path) =
      Due-bind
        (Due-emit {Q = λ b l'. b ≡ true → Did (umount (c ∷ path)) l'} (umount (c ∷ path)) tt
          (λ b h. here (ap (event (umount (c ∷ path))) h)))
        (λ b l d q.
          Due-bind (Due-act {Q = Anything} (rmdir (c ∷ path)) tt (λ d. tt))
            (λ u l' c' r. Due-pure b (λ h. inr (later machine dev c' (q h)))))

  remove_dir-Due :
      {l : Log} (path : CString)
      → Due machine dev (remove_dir machine path) l (λ b l'. b ≡ true → Removed path l')
  unfolding remove_dir
  remove_dir-Due [] = Due-pure true (λ h. inl refl)
  remove_dir-Due (c ∷ path) =
      Due-emit (rmdir (c ∷ path)) tt (λ b h. inr (here (ap (event (rmdir (c ∷ path))) h)))

  Gone-later : {l l' : Log} (dir : CString) → Causal machine dev l l' → Gone dir l → Gone dir l'
  Gone-later dir c (inl e) = inl e
  Gone-later dir c (inr m) = inr (later machine dev c m)

  Removed-later :
      {l l' : Log} (dir : CString) → Causal machine dev l l' → Removed dir l → Removed dir l'
  Removed-later dir c (inl e) = inl e
  Removed-later dir c (inr m) = inr (later machine dev c m)

  pub Released-later :
      {l l' : Log} (ctx : MountContext) → Causal machine dev l l' → Released ctx l → Released ctx l'
  Released-later ctx c (n, f, t) =
      (Gone-later ctx.ntfs_mount c n, Gone-later ctx.fat_mount c f, Removed-later ctx.temp_dir c t)

  pub unmount-Due :
      {l : Log} (ctx : MountContext)
      → Due machine dev (unmount_and_cleanup machine ctx) l (λ b l'. b ≡ true → Released ctx l')
  unfolding unmount_and_cleanup
  unmount-Due ctx = Due-bind (unmount_dir-Due ctx.ntfs_mount) (λ a l c q.
      Due-bind (unmount_dir-Due ctx.fat_mount) (λ b l' c' q'.
        Due-bind (remove_dir-Due ctx.temp_dir) (λ d l'' c'' q''. Due-pure _ (λ h. (
          Gone-later ctx.ntfs_mount (Causal-trans machine dev c' c'') (q (and_left a b d h)),
          Gone-later ctx.fat_mount c'' (q' (and_middle a b d h)),
          q'' (and_right a b d h),
        )))))
