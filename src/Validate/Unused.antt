-- ===== src/Validate/Unused.antt =====
-- What `final_wipe_guard` looks for, said of the system's files and nodes and not of the code.
use mathlib.Core.Option.{Option, some-injective}
use winafi.Prelude.{
  ℕ, ◌+◌, ◌≤◌, ◌≡◌, ◌≢◌, ◌⊎◌, refl, ap, sym, ◌∙◌, subst, inl, inr, true, false, some, List, [], ◌∷◌,
  ◌++◌, arith, length, length-append, Member, here, Member-append_left, Member-append_right,
  Option-cases, Bool-cases, none, All, take, ◌==◌,
}
use winafi.Prelude.Text.{CString, codes, char_at, scan_word, decimal, fit, last_slash}
use winafi.System.{Stat, MntEnt, System}
use winafi.Validate.{
  block_rdev, sysfs_dev_path, devnode_to_sysname, sys_block, partition_node, partition_rdev,
  collect_devs, swap_devs, child_devs,
}
use winafi.Validate.Devices.{collect_devs-Member, child_devs-Member, child_devs_self}

-- The line's first field is the node: after it comes a blank, a tab or the end of the line.
abbrev pub IsMountLineOf : CString → CString → Type 0
IsMountLineOf node line =
    (c : ℕ) × (r : CString) × (line ≡ node ++ c ∷ r) × ((c ≡ b' ') ⊎ (c ≡ b'\t') ⊎ (c ≡ b'\n'))

-- `path` is the node of the block device with the number `rdev`.
pub record IsNode (sys : System) (path : CString) (rdev : ℕ) : Type 0 where
  pub st : Stat
  pub found : sys.stat path ≡ some st
  pub block : st.is_blk ≡ true
  pub number : st.rdev ≡ rdev

-- The name that sysfs has for the block device `rdev`: the last part of the path behind the link
-- with its number, of which 63 bytes are kept.
pub record IsDiskName (sys : System) (rdev : ℕ) (sysname : CString) : Type 0 where
  pub directory : CString
  pub base : CString
  pub link :
      sys.realpath (
        codes "/sys/dev/block/"
        ++ (decimal (sys.dev_major rdev) ++ (b':' ∷ decimal (sys.dev_minor rdev))))
      ≡ some (directory ++ b'/' ∷ base)
  pub last : All (λ c. (c == b'/') ≡ false) base
  pub kept : sysname ≡ take 63 base

-- An entry of /sys/block/<disk> that is a partition: it has the file of that name.
pub record IsPartition (sys : System) (sysname : CString) (names : List CString) (name : CString)
    : Type 0 where
  pub listing : sys.readdir (codes "/sys/block/" ++ sysname) ≡ some names
  pub listed : Member name names
  pub visible : (char_at name 0 == b'.') ≡ false
  pub short : length sysname + length name ≤ 4000
  pub file :
      sys.access (codes "/sys/block/" ++ sysname ++ (b'/' ∷ name ++ codes "/partition")) ≡ true

-- The number of the disk, or that of one of its partitions by /dev, where the disk has at most 127
-- entries in sysfs.
pub data IsOf (sys : System) (devnode sysname : CString) (rdev : ℕ) : Type 0 where
  disk : IsNode sys devnode rdev → IsOf sys devnode sysname rdev
  partition :
      (names : List CString) (name : CString)
      → length names ≤ 127
      → IsPartition sys sysname names name
      → IsNode sys (codes "/dev/" ++ name) rdev
      → IsOf sys devnode sysname rdev

-- The paths of devices that are never a stick.
abbrev pub virtual_dirs : List CString
virtual_dirs =
    codes "/dev/loop"
    ∷ codes "/dev/ram"
    ∷ codes "/dev/dm-"
    ∷ codes "/dev/zram"
    ∷ codes "/dev/nbd"
    ∷ codes "/dev/mapper/"
    ∷ []

abbrev pub protected_dirs : List CString
protected_dirs =
    codes "/"
    ∷ codes "/boot"
    ∷ codes "/boot/efi"
    ∷ codes "/efi"
    ∷ codes "/home"
    ∷ codes "/var"
    ∷ codes "/usr"
    ∷ []

-- What is looked for, and not found, on a device that passes. `sysname` is the disk's name in sysfs.
pub record IsUnused (sys : System) (devnode sysname : CString) : Type 0 where
  pub physical : (prefix r : CString) → Member prefix virtual_dirs → devnode ≢ prefix ++ r
  pub number : ℕ
  pub is_block : IsNode sys devnode number
  pub named : IsDiskName sys number sysname
  pub unmounted :
      (lines : List CString) (line : CString)
      → sys.fgets (codes "/proc/mounts") 4096 ≡ some lines
      → Member line lines
      → ¬ IsMountLineOf devnode line
  pub partitions_unmounted :
      (names lines : List CString) (name line : CString)
      → IsPartition sys sysname names name
      → sys.fgets (codes "/proc/mounts") 4096 ≡ some lines
      → Member line lines
      → ¬ IsMountLineOf (codes "/dev/" ++ name) line
  pub no_swap :
      (swaps names : List CString) (header line file : CString) (rdev : ℕ)
      → sys.fgets (codes "/proc/swaps") 4096 ≡ some (header ∷ swaps)
      → Member line swaps
      → scan_word 255 line ≡ some file
      → IsNode sys file rdev
      → sys.readdir (codes "/sys/block/" ++ sysname) ≡ some names
      → ¬ IsOf sys (codes "/dev/" ++ sysname) sysname rdev
  pub not_protected :
      (table : CString) (entries : List MntEnt) (entry : MntEnt) (rdev : ℕ)
      → Member table (codes "/etc/mtab" ∷ codes "/proc/mounts" ∷ [])
      → sys.getmntent table ≡ some entries
      → Member entry entries
      → Member entry.dir protected_dirs
      → IsNode sys entry.fsname rdev
      → ¬ IsOf sys devnode sysname rdev

pub IsNode-block_rdev :
    (sys : System) (path : CString) (rdev : ℕ)
    → IsNode sys path rdev
    → block_rdev sys path ≡ some rdev
IsNode-block_rdev sys path rdev n = rw (n.found, block_rdev) (rw n.block (ap some n.number))

pub block_rdev-IsNode :
    (sys : System) (path : CString) (rdev : ℕ)
    → block_rdev sys path ≡ some rdev
    → IsNode sys path rdev
block_rdev-IsNode sys path rdev h = elim (Option-cases (sys.stat path)) [
  | inl e ↦ absurd (cc (rw (block_rdev, e) at h))
  | inr (st, e) ↦ record { st = st; found = e; block = ground arith; number = ground arith }
]

no_slash : (s : CString) → last_slash s ≡ none → All (λ c. (c == b'/') ≡ false) s
unfolding last_slash
no_slash [] h = tt
no_slash (c ∷ s) h = (ground arith, no_slash s (ground arith))

at_last_slash :
    (s t : CString)
    → last_slash s ≡ some t
    → (directory : CString) × (s ≡ directory ++ b'/' ∷ t) × All (λ c. (c == b'/') ≡ false) t
unfolding last_slash
at_last_slash [] t h = absurd (cc h)
at_last_slash (c ∷ s) t h = elim (Option-cases (last_slash s)) [
  | inr (u, e) ↦
      let (directory, split, last) = at_last_slash s t (e ∙ (rw e at h)) in
      (c ∷ directory, ap (λ l. c ∷ l) split, last)
  | inl e ↦ elim (Bool-cases (c == b'/')) [
    | inr other ↦ absurd (cc (rw (e, other) at h))
    | inl slash ↦
        let same = some-injective _ _ (rw (e, slash) at h) in
        ([], ground (arith, same), subst (All (λ c. (c == b'/') ≡ false)) same (no_slash s e))
  ]
]

sysname_kept :
    (base sysname : CString)
    → (elim base as (λ x. Option CString) [ [] ↦ none | c ∷ r ↦ some (fit 64 (c ∷ r)) ])
      ≡ some sysname
    → sysname ≡ take 63 base
sysname_kept [] sysname h = absurd (cc h)
sysname_kept (c ∷ r) sysname h = sym (some-injective _ _ h)

pub devnode_to_sysname-IsDiskName :
    (sys : System) (devnode sysname : CString) (rdev : ℕ)
    → block_rdev sys devnode ≡ some rdev
    → devnode_to_sysname sys devnode 64 ≡ some sysname
    → IsDiskName sys rdev sysname
unfolding devnode_to_sysname
devnode_to_sysname-IsDiskName sys devnode sysname rdev b h =
    elim (Option-cases (sys.realpath (sysfs_dev_path sys rdev))) [
      | inl e ↦ absurd (cc (rw (devnode_to_sysname, b, e) at h))
      | inr (resolved, e) ↦ elim (Option-cases (last_slash resolved)) [
        | inl l ↦ absurd (cc (rw (devnode_to_sysname, b, e, l) at h))
        | inr (base, l) ↦
            let (directory, split, last) = at_last_slash resolved base l in
            record {
              directory = directory;
              base = base;
              link = e ∙ ap some split;
              last = last;
              kept = sysname_kept base sysname (rw (devnode_to_sysname, b, e, l) at h);
            }
      ]
    ]

pub IsPartition-partition_node :
    (sys : System) (sysname : CString) (names : List CString) (name : CString)
    → IsPartition sys sysname names name
    → partition_node sys (sys_block sysname) name ≡ some (codes "/dev/" ++ name)
unfolding partition_node
IsPartition-partition_node sys sysname names name p =
    ground (arith, p.visible, p.file, p.short, length-append {0} (codes "/sys/block/") sysname)

IsPartition-partition_rdev :
    (sys : System) (sysname : CString) (names : List CString) (name : CString) (rdev : ℕ)
    → IsPartition sys sysname names name
    → IsNode sys (codes "/dev/" ++ name) rdev
    → partition_rdev sys (sys_block sysname) name ≡ some rdev
IsPartition-partition_rdev sys sysname names name rdev p n =
    rw (partition_rdev, IsPartition-partition_node sys sysname names name p)
      (IsNode-block_rdev sys (codes "/dev/" ++ name) rdev n)

-- Both arrays hold the numbers.
pub IsOf-child_devs :
    (sys : System) (devnode sysname : CString) (self rdev : ℕ)
    → block_rdev sys devnode ≡ some self
    → IsOf sys devnode sysname rdev
    → Member rdev (child_devs sys sysname self)
IsOf-child_devs sys devnode sysname self rdev b (disk n) =
    let e = some-injective _ _ (sym (IsNode-block_rdev sys devnode rdev n) ∙ b) in
    subst (λ r. Member r (child_devs sys sysname self)) (sym e) (child_devs_self sys sysname self)
IsOf-child_devs sys devnode sysname self rdev b (partition names name few p n) =
    child_devs-Member sys sysname self rdev name names p.listing few p.listed
      (IsPartition-partition_rdev sys sysname names name rdev p n)

pub IsOf-swap_devs :
    (sys : System) (sysname : CString) (rdev : ℕ) (names : List CString)
    → sys.readdir (codes "/sys/block/" ++ sysname) ≡ some names
    → IsOf sys (codes "/dev/" ++ sysname) sysname rdev
    → Member rdev (swap_devs sys sysname names)
unfolding swap_devs
IsOf-swap_devs sys sysname rdev names d (disk n) =
    rw (swap_devs, IsNode-block_rdev sys (codes "/dev/" ++ sysname) rdev n)
      (Member-append_right (collect_devs sys (sys_block sysname) 0 names) (here refl))
IsOf-swap_devs sys sysname rdev names d (partition names' name few p n) =
    let same = some-injective _ _ (sym p.listing ∙ d) in
    Member-append_left _ (
      subst (λ l. Member rdev (collect_devs sys (sys_block sysname) 0 l)) same
        (collect_devs-Member sys (sys_block sysname) 0 rdev names' (omega arith) p.listed
          (IsPartition-partition_rdev sys sysname names' name rdev p n)))
