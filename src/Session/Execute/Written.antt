-- ===== src/Session/Execute/Written.antt =====
-- What a write that succeeds has done.
use winafi.Prelude.{◌≡◌, ◌≢◌, inl, inr, [], some}
use winafi.Prelude.Text.{CString}
use winafi.Os.{Log, boot, extract_iso, umount}
use winafi.Mount.{MountContext}
use winafi.Session.State.{
  State, Os, windows, linux, unknown, executing, Session, build_partition_devnode,
}
use winafi.Session.Boot.{Parts}
use winafi.Session.Execute.Causes.{Did, Mounted, FatMade, NtfsMade, Committed, Gone, Removed}
use winafi.Session.Execute.Boots.{Bootable}

-- What a write that succeeds has done behind its file systems, with the directories of `ctx`.
pub record Filled (parts : Parts) (s : Session) (ctx : MountContext) (l : Log) : Type 0 where
  pub fat_mounted : Mounted ctx.fat_mount l
  pub ntfs_mounted : Mounted ctx.ntfs_mount l
  pub extracted : Did (boot (extract_iso s.iso_path ctx.ntfs_mount)) l
  pub bootable : Bootable parts s ctx s.iso_info.os_type l
  pub ntfs_unmounted : Did (umount ctx.ntfs_mount) l
  pub fat_unmounted : Did (umount ctx.fat_mount) l
  pub temp_removed : Removed ctx.temp_dir l

-- What a write that succeeds has done.
pub record Written (parts : Parts) (s : Session) (l : Log) : Type 0 where
  pub partitioned : Committed s.selected_device l
  pub fat :
      (node : CString) × (build_partition_devnode s.selected_device 1 128 ≡ some node)
      × FatMade node l
  pub ntfs :
      (node : CString) × (build_partition_devnode s.selected_device 2 128 ≡ some node)
      × NtfsMade node l
  pub filled : (ctx : MountContext) × Filled parts s ctx l

-- The setup depends on neither the state nor the context that the session stores.
pub Bootable-stored :
    (parts : Parts) (s : Session) (state : State) (m ctx : MountContext) (os : Os) (l : Log)
    → Bootable parts (record s { current_state = state; mount_ctx = m }) ctx os l
    → Bootable parts s ctx os l
Bootable-stored parts s state m ctx windows l w = record {
  customized = w.customized;
  to_go = w.to_go;
  loader = w.loader;
  uefi = w.uefi;
}
Bootable-stored parts s state m ctx linux l b = b
Bootable-stored parts s state m ctx unknown l b = b

-- The session before the write and the one that executes ask for the same.
pub Written-executing :
    (parts : Parts) (s : Session) {l : Log}
    → Written parts (record s { current_state = executing }) l
    → Written parts s l
Written-executing parts s w =
    let (ctx, filled) = w.filled in
    record {
      partitioned = w.partitioned;
      fat = w.fat;
      ntfs = w.ntfs;
      filled = (
        ctx,
        record {
          fat_mounted = filled.fat_mounted;
          ntfs_mounted = filled.ntfs_mounted;
          extracted = filled.extracted;
          bootable =
              Bootable-stored parts s executing s.mount_ctx ctx s.iso_info.os_type _
                filled.bootable;
          ntfs_unmounted = filled.ntfs_unmounted;
          fat_unmounted = filled.fat_unmounted;
          temp_removed = filled.temp_removed;
        },
      );
    }

pub unmounted : {l : Log} (dir : CString) → dir ≢ [] → Gone dir l → Did (umount dir) l
unmounted dir h (inl e) = absurd (h e)
unmounted dir h (inr m) = m
