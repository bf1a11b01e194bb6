-- ===== src/Validate/Devices.antt =====
-- The arrays of device numbers that device_validate.c fills from /sys/block/<disk>.
use winafi.Prelude.{
  ℕ, ◌+◌, ◌≤◌, ◌<◌, ◌≡◌, refl, sym, subst, inl, inr, none, some, List, [], ◌∷◌, ◌++◌, arith, length,
  length-append, here, there, Member, Option-cases, Bool-cases, ltb, suc,
}
use winafi.Prelude.Text.{CString, codes}
use winafi.System.{System}
use winafi.Validate.{block_rdev, partition_rdev, collect_devs, swap_devs, child_devs, sys_block}

-- The loop leaves at most 128 entries in `devs`.
pub collect_devs_bound :
    (sys : System) (block_dir : CString) (n : ℕ) (names : List CString)
    → n ≤ 128
    → n + length (collect_devs sys block_dir n names) ≤ 128
unfolding collect_devs
collect_devs_bound sys block_dir n [] h = omega arith
collect_devs_bound sys block_dir n (name ∷ names) h = ground (
  arith,
  collect_devs_bound sys block_dir n names,
  collect_devs_bound sys block_dir (n + 1) names,
)

module _ (sys : System) (block_dir : CString) (n : ℕ) where
  collect_devs_skip :
      (name : CString) (names : List CString)
      → n < 128
      → partition_rdev sys block_dir name ≡ none
      → collect_devs sys block_dir n (name ∷ names) ≡ collect_devs sys block_dir n names
  unfolding collect_devs
  collect_devs_skip name names room e = ground arith

  collect_devs_keep :
      (rdev : ℕ) (name : CString) (names : List CString)
      → n < 128
      → partition_rdev sys block_dir name ≡ some rdev
      → collect_devs sys block_dir n (name ∷ names)
        ≡ rdev ∷ collect_devs sys block_dir (n + 1) names
  unfolding collect_devs
  collect_devs_keep rdev name names room e = ground arith

  collected-head :
      (rdev : ℕ) (name : CString) (names : List CString)
      → n < 128
      → partition_rdev sys block_dir name ≡ some rdev
      → Member rdev (collect_devs sys block_dir n (name ∷ names))
  collected-head rdev name names room e =
      subst (Member rdev) (sym (collect_devs_keep rdev name names room e)) (here refl)

-- While there is room, every partition of the disk is collected.
pub collect_devs-Member :
    (sys : System) (block_dir : CString) (n : ℕ) {name : CString} (rdev : ℕ) (names : List CString)
    → n + length names ≤ 128
    → Member name names
    → partition_rdev sys block_dir name ≡ some rdev
    → Member rdev (collect_devs sys block_dir n names)
unfolding collect_devs
collect_devs-Member sys block_dir n rdev [] room m h = elim m [ ]
collect_devs-Member sys block_dir n rdev (x ∷ names) room (here e) h =
    collected-head sys block_dir n rdev x names (omega arith) (rw e h)
collect_devs-Member sys block_dir n rdev (x ∷ names) room (there m) h =
    elim (Option-cases (partition_rdev sys block_dir x)) [
      | inl e ↦
          subst (Member rdev) (sym (collect_devs_skip sys block_dir n x names (omega arith) e))
            (collect_devs-Member sys block_dir n rdev names (omega arith) m h)
      | inr (r, e) ↦
          subst (Member rdev) (sym (collect_devs_keep sys block_dir n r x names (omega arith) e))
            (there (collect_devs-Member sys block_dir (n + 1) rdev names (omega arith) m h))
    ]

-- How many of the names are partitions with a block device node; a listing has other names too.
unfoldable pub count_partitions : System → CString → List CString → ℕ
count_partitions sys block_dir [] = 0
count_partitions sys block_dir (name ∷ names) =
    let rest = count_partitions sys block_dir names in
    elim (partition_rdev sys block_dir name) [ none ↦ rest | some rdev ↦ suc rest ]

-- Where the partitions fill the array, each of its places is written.
collect_devs_full :
    (sys : System) (block_dir : CString) (n : ℕ) (names : List CString)
    → n ≤ 128
    → 128 ≤ n + count_partitions sys block_dir names
    → n + length (collect_devs sys block_dir n names) ≡ 128
unfolding collect_devs count_partitions
collect_devs_full sys block_dir n [] room h = omega arith
collect_devs_full sys block_dir n (name ∷ names) room h = elim (Bool-cases (ltb n 128)) [
  | inr full ↦ ground arith
  | inl more ↦ elim (Option-cases (partition_rdev sys block_dir name)) [
    | inl e ↦
        rw (collect_devs_skip sys block_dir n name names (ground arith) e)
          (collect_devs_full sys block_dir n names room (rw (count_partitions, e) at h))
    | inr (rdev, e) ↦ rw (collect_devs_keep sys block_dir n rdev name names (ground arith) e) (
        full_next sys block_dir n names (
          collect_devs_full sys block_dir (n + 1) names (ground arith)
            (full_count sys block_dir n names (rw (count_partitions, e) at h))))
  ]
]
  where
    full_next :
        (sys : System) (block_dir : CString) (n : ℕ) (names : List CString)
        → n + 1 + length (collect_devs sys block_dir (n + 1) names) ≡ 128
        → n + suc (length (collect_devs sys block_dir (n + 1) names)) ≡ 128
    full_next sys block_dir n names h = omega arith

    full_count :
        (sys : System) (block_dir : CString) (n : ℕ) (names : List CString)
        → 128 ≤ n + suc (count_partitions sys block_dir names)
        → 128 ≤ n + 1 + count_partitions sys block_dir names
    full_count sys block_dir n names h = omega arith

-- The array of `child_partition_mounted_at_protected` never overflows its 128 places.
pub child_devs_bound :
    (sys : System) (sysname : CString) (self : ℕ) → length (child_devs sys sysname self) ≤ 128
unfolding child_devs
child_devs_bound sys sysname self = elim (Option-cases (sys.readdir (sys_block sysname))) [
  | inl e ↦ ground (arith, e)
  | inr (names, e) ↦ ground (arith, e, collect_devs_bound sys (sys_block sysname) 1 names)
]

-- The array of `child_partition_has_swap` gets one entry more than its 128 places, from any disk
-- that is a block device itself and whose listing has, among other names, 128 or more partitions
-- with a block device node.
pub swap_devs_overflow :
    (sys : System) (sysname : CString) (self : ℕ) (names : List CString)
    → 128 ≤ count_partitions sys (sys_block sysname) names
    → block_rdev sys (codes "/dev/" ++ sysname) ≡ some self
    → length (swap_devs sys sysname names) ≡ 129
unfolding swap_devs
swap_devs_overflow sys sysname self names many disk = ground (
  arith,
  length-append {0} (collect_devs sys (sys_block sysname) 0 names) (self ∷ []),
  collect_devs_full sys (sys_block sysname) 0 names (omega arith) (omega arith),
)

-- A disk with at most 127 entries under /sys/block: the number of each of its partitions, and its
-- own, are among those compared with the mount tables.
pub child_devs-Member :
    (sys : System) (sysname : CString) (self rdev : ℕ) (name : CString) (names : List CString)
    → sys.readdir (sys_block sysname) ≡ some names
    → length names ≤ 127
    → Member name names
    → partition_rdev sys (sys_block sysname) name ≡ some rdev
    → Member rdev (child_devs sys sysname self)
unfolding child_devs
child_devs-Member sys sysname self rdev name names e room m h =
    rw e (there (collect_devs-Member sys (sys_block sysname) 1 rdev names (omega arith) m h))

pub child_devs_self :
    (sys : System) (sysname : CString) (self : ℕ) → Member self (child_devs sys sysname self)
unfolding child_devs
child_devs_self sys sysname self = here refl
