-- ===== src/Session/Execute/Causes.antt =====
-- What has to be done before each effect of the write, and histories in which it was.
use winafi.Prelude.{◌≢◌, ◌≡◌, ◌⊎◌, Bool, true, false, some, [], ◌∷◌, Member, there}
use winafi.Prelude.Text.{CString, codes}
use winafi.Validate.{final_wipe_guard, valid}
use winafi.Os.{
  Machine, Log, Event, Action, progress, spawn, commit, mkdtemp, mkdir, rmdir, umount, sync_path,
  boot, sleep, BootAction, extract_iso, inject_autounattend, inject_wue, detect_windows,
  windows_boot, linux_boot, uefi_ntfs, Command, which, mkfs_vfat, mkfs_ntfs, mount, grub_install,
  MountType, vfat, ntfs_3g, ntfs3, ntfs,
}
use winafi.Device.{device_validate, device_is_mounted}
use winafi.Partition.{Table}
use winafi.Os.Io.{event}
use winafi.Mount.{MountContext}
use winafi.Session.State.{build_partition_devnode}

-- `a` was done, with success.
abbrev pub Did : Action → Log → Type 0
Did a l = Member (event a true) l

abbrev pub Committed : CString → Log → Type 0
Committed dev l = (t : Table) × Did (commit dev t) l

abbrev pub FatMade : CString → Log → Type 0
FatMade node l = Did (spawn (mkfs_vfat (codes "BOOT") node)) l

abbrev pub NtfsMade : CString → Log → Type 0
NtfsMade node l = Did (spawn (mkfs_ntfs (codes "WINDOWS") node)) l

-- The directory holds a mounted file system.
abbrev pub Mounted : CString → Log → Type 0
Mounted dir l = (type : MountType) × (node : CString) × Did (spawn (mount type node dir)) l

abbrev pub Extracted : Log → Type 0
Extracted l = (image : CString) × (dir : CString) × Did (boot (extract_iso image dir)) l

-- Nothing is mounted any more at a directory of the context; one without a name was never mounted.
abbrev pub Gone : CString → Log → Type 0
Gone dir l = (dir ≡ []) ⊎ Did (umount dir) l

abbrev pub Removed : CString → Log → Type 0
Removed dir l = (dir ≡ []) ⊎ Did (rmdir dir) l

abbrev pub Released : MountContext → Log → Type 0
Released ctx l = Gone ctx.ntfs_mount l × Gone ctx.fat_mount l × Removed ctx.temp_dir l

-- Both directories of the mounts have a name.
abbrev pub HasDirs : MountContext → Type 0
HasDirs ctx = (ctx.fat_mount ≢ []) × (ctx.ntfs_mount ≢ [])

module _ (machine : Machine) (dev : CString) where
  abbrev CommandNeeds : Command → Log → Type 0
  CommandNeeds (which tool) l = Unit
  CommandNeeds (mkfs_vfat label node) l =
      Committed dev l × (build_partition_devnode dev 1 128 ≡ some node)
  CommandNeeds (mkfs_ntfs label node) l =
      Committed dev l × (build_partition_devnode dev 2 128 ≡ some node)
  CommandNeeds (mount vfat node dir) l = FatMade node l
  CommandNeeds (mount ntfs_3g node dir) l = NtfsMade node l
  CommandNeeds (mount ntfs3 node dir) l = NtfsMade node l
  CommandNeeds (mount ntfs node dir) l = NtfsMade node l
  CommandNeeds (grub_install d) l = (d ≡ dev) × Extracted l

  abbrev BootNeeds : BootAction → Log → Type 0
  BootNeeds (extract_iso image dir) l = Mounted dir l
  BootNeeds (inject_autounattend xml dir) l = Extracted l
  BootNeeds (inject_wue xml dir) l = Extracted l
  BootNeeds (detect_windows image) l = Extracted l
  BootNeeds (windows_boot dir fs) l = Extracted l
  BootNeeds (linux_boot dir fs) l = Extracted l
  BootNeeds (uefi_ntfs dir) l = Extracted l × Mounted dir l

  -- The machine that the call finds lets `dev` be written.
  abbrev pub Cleared : Type 0
  Cleared =
      (device_validate (machine.system []) (some dev) ≡ true)
      × (device_is_mounted (machine.system []) (some dev) ≡ false)

  -- The partition table of no other device is written, and that one only behind the guard; a file
  -- system is made on the partitions of the new table, mounted where it was made, filled where it
  -- is mounted, and made bootable once it is filled.
  abbrev pub Needs : Action → Log → Type 0
  Needs (progress n m) l = Unit
  Needs (spawn c) l = CommandNeeds c l
  Needs (commit d t) l =
      (d ≡ dev) × Cleared × (final_wipe_guard (machine.system l) (some dev) ≡ valid)
  Needs (mkdtemp p) l = Unit
  Needs (mkdir p) l = Unit
  Needs (rmdir p) l = Unit
  Needs (umount p) l = Unit
  Needs (sync_path p) l = Extracted l
  Needs (boot a) l = BootNeeds a l
  Needs sleep l = Unit

  -- The second history continues the first one, each event with what it needs.
  pub data Causal (l : Log) : Log → Type 0 where
    stop : Causal l l
    step : {l' : Log} {a : Action} (b : Bool) → Causal l l' → Needs a l' → Causal l (event a b ∷ l')

  pub Causal-trans : {l l' l'' : Log} → Causal l l' → Causal l' l'' → Causal l l''
  Causal-trans c stop = c
  Causal-trans c (step b d n) = step b (Causal-trans c d) n

  -- What happened stays in the history.
  pub held : {l l' : Log} {e : Event} → Causal l l' → Member e l → Member e l'
  held stop m = m
  held (step b d n) m = there (held d m)

  pub later : {l l' : Log} {a : Action} → Causal l l' → Did a l → Did a l'
  later stop m = m
  later (step b d n) m = there (later d m)
