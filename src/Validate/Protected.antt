-- ===== src/Validate/Protected.antt =====
-- The protection of system drives: what `validate_not_system_drive` refuses.
use winafi.Prelude.{
  ℕ, ◌≡◌, refl, true, some, List, [], ◌∷◌, arith, any, any-Member, Member, ==_refl,
}
use winafi.Prelude.Text.{CString}
use winafi.System.{MntEnt, System}
use winafi.Validate.{
  system_drive, block_rdev, devnode_to_sysname, is_protected_mountpoint, mount_entry_matches_dev,
  entry_hits, table_hits, child_devs, child_partition_mounted_at_protected, mtab, proc_mounts,
  validate_not_system_drive,
}

entry_hits_lem :
    (sys : System) (rdev : ℕ) (devs : List ℕ) (entry : MntEnt)
    → Member rdev devs
    → block_rdev sys entry.fsname ≡ some rdev
    → is_protected_mountpoint entry.dir ≡ true
    → entry_hits sys devs entry ≡ true
unfolding entry_hits mount_entry_matches_dev
entry_hits_lem sys rdev devs entry m e p = any-Member _ m (ground (arith, ==_refl rdev))

table_hits_lem :
    (sys : System) (rdev : ℕ) (devs : List ℕ) (table : CString) (entries : List MntEnt)
    (entry : MntEnt)
    → sys.getmntent table ≡ some entries
    → Member entry entries
    → Member rdev devs
    → block_rdev sys entry.fsname ≡ some rdev
    → is_protected_mountpoint entry.dir ≡ true
    → table_hits sys devs table ≡ true
unfolding table_hits
table_hits_lem sys rdev devs table entries entry t me m e p =
    rw (t, table_hits) (any-Member _ me (entry_hits_lem sys rdev devs entry m e p))

child_check_lem :
    (sys : System) (devnode sysname : CString) (self : ℕ)
    → devnode_to_sysname sys devnode 64 ≡ some sysname
    → block_rdev sys devnode ≡ some self
    → any (table_hits sys (child_devs sys sysname self)) (mtab ∷ proc_mounts ∷ []) ≡ true
    → child_partition_mounted_at_protected sys devnode ≡ system_drive
unfolding child_partition_mounted_at_protected
child_check_lem sys devnode sysname self n b hit =
    rw (n, child_partition_mounted_at_protected) (ground arith)

-- Whatever the tables hold besides: an entry, in either table, whose source is the number of the
-- device itself or of one of its collected partitions, at a protected directory, is refused.
pub protected_refused :
    (sys : System) (devnode sysname table : CString) (self rdev : ℕ) (entries : List MntEnt)
    (entry : MntEnt)
    → devnode_to_sysname sys devnode 64 ≡ some sysname
    → block_rdev sys devnode ≡ some self
    → Member table (mtab ∷ proc_mounts ∷ [])
    → sys.getmntent table ≡ some entries
    → Member entry entries
    → Member rdev (child_devs sys sysname self)
    → block_rdev sys entry.fsname ≡ some rdev
    → is_protected_mountpoint entry.dir ≡ true
    → validate_not_system_drive sys (some devnode) ≡ system_drive
unfolding validate_not_system_drive
protected_refused sys devnode sysname table self rdev entries entry n b mt t me m e p =
    let hit =
      any-Member (table_hits sys (child_devs sys sysname self)) mt
        (table_hits_lem sys rdev (child_devs sys sysname self) table entries entry t me m e p) in
    rw (child_check_lem sys devnode sysname self n b hit, validate_not_system_drive) refl
