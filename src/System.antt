-- ===== src/System.antt =====
-- What the program learns from the kernel and the C library when it inspects a device: stat(2),
-- sysfs, the mount tables, the swap table. A value of `System` is one state of the machine; the
-- code that reads it is modelled as functions of it.
use winafi.Prelude.{ℕ, Bool, Option, List}
use winafi.Prelude.Text.{CString}

-- The fields of `struct stat` that the program reads.
pub record Stat : Type 0 where
  pub is_blk : Bool
  pub is_reg : Bool
  pub rdev : ℕ
  pub size : ℕ

-- The fields of `struct mntent` that the program reads.
pub record MntEnt : Type 0 where
  pub fsname : CString
  pub dir : CString

-- `open` with `O_EXCL`: a descriptor, or `errno`.
pub data OpenResult : Type 0 where
  opened enoent ebusy other_errno : OpenResult

pub record System : Type 0 where
  pub stat : CString → Option Stat
  pub realpath : CString → Option CString
  -- `access(path, F_OK) == 0`
  pub access : CString → Bool
  -- `opendir` and then the names of each `readdir`
  pub readdir : CString → Option (List CString)
  -- `fopen` and then the texts of each `fgets` into a buffer of the given size
  pub fgets : CString → ℕ → Option (List CString)
  -- `fopen` and then each `getmntent`
  pub getmntent : CString → Option (List MntEnt)
  pub open_excl : CString → OpenResult
  -- the macros of sys/sysmacros.h
  pub dev_major : ℕ → ℕ
  pub dev_minor : ℕ → ℕ
  pub geteuid : ℕ
