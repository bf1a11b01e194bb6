-- ===== src/Sysfs.antt =====
-- platform/linux/device_validate.c: what its checks read of a node and of the disk behind it.
use winafi.Prelude.{
  ℕ, ◌+◌, Bool, true, false, not, Option, none, some, List, [], ◌∷◌, ◌++◌, leb, ltb, ◌==◌,
  if◌then◌else◌, length,
}
use winafi.Prelude.Text.{CString, codes, str_eq, char_at, fit, decimal, last_slash, strstr}
use winafi.System.{System}

abbrev pub path_max : ℕ
path_max = 4096

-- `stat(path, &st) == 0 && S_ISBLK(st.st_mode)`, with `st.st_rdev`.
abbrev pub block_rdev : System → CString → Option ℕ
block_rdev sys path = elim (sys.stat path) [
  | none ↦ none
  | some st ↦ if st.is_blk then some st.rdev else none
]

unfoldable pub strip_newline : CString → CString
strip_newline [] = []
strip_newline (c ∷ s) = elim s [
  | [] ↦ (if c == b'\n' then [] else c ∷ [])
  | d ∷ r ↦ c ∷ strip_newline s
]

-- `none` is the -1 of a file that cannot be opened or is empty.
unfoldable pub read_first_line : System → CString → ℕ → Option CString
unfolding strip_newline
read_first_line sys path bufsz = elim (sys.fgets path bufsz) [
  | none ↦ none
  | some lines ↦ elim lines [ [] ↦ none | l ∷ rest ↦ some (strip_newline l) ]
]

abbrev pub sysfs_dev_path : System → ℕ → CString
sysfs_dev_path sys dev =
    codes "/sys/dev/block/" ++ (decimal (sys.dev_major dev) ++ (b':' ∷ decimal (sys.dev_minor dev)))

unfoldable pub devnode_to_sysname : System → CString → ℕ → Option CString
devnode_to_sysname sys devnode size = elim (block_rdev sys devnode) [
  | none ↦ none
  | some dev ↦ elim (sys.realpath (sysfs_dev_path sys dev)) [
    | none ↦ none
    | some resolved ↦ elim (last_slash resolved) [
      | none ↦ none
      | some base ↦ elim base [ [] ↦ none | c ∷ r ↦ some (fit size (c ∷ r)) ]
    ]
  ]
]

abbrev pub sys_block : CString → CString
sys_block sysname = codes "/sys/block/" ++ sysname

unfoldable pub read_removable_flag : System → CString → Bool
unfolding read_first_line
read_removable_flag sys sysname =
    elim (read_first_line sys (sys_block sysname ++ codes "/removable") 32) [
      | none ↦ false
      | some value ↦ str_eq value (codes "1")
    ]

unfoldable pub has_usb_ancestor : System → CString → Bool
has_usb_ancestor sys sysname = elim (sys.realpath (sys_block sysname)) [
  | none ↦ false
  | some resolved ↦ strstr resolved (codes "/usb")
]

unfoldable pub mount_entry_matches_dev : System → CString → ℕ → Bool
mount_entry_matches_dev sys fsname dev = elim (block_rdev sys fsname) [
  | none ↦ false
  | some rdev ↦ rdev == dev
]

-- One round of a loop over /sys/block/<disk>: the device node of the entry, `none` where the loop
-- says `continue`.
unfoldable pub partition_node : System → CString → CString → Option CString
partition_node sys block_dir name =
    if char_at name 0 == b'.'
    then none
    else if leb path_max (length block_dir + 1 + length name + 10)
    then none
    else if not (sys.access (block_dir ++ (b'/' ∷ name ++ codes "/partition")))
    then none
    else if leb path_max (5 + length name)
    then none
    else some (codes "/dev/" ++ name)

abbrev pub partition_rdev : System → CString → CString → Option ℕ
partition_rdev sys block_dir name = elim (partition_node sys block_dir name) [
  | none ↦ none
  | some part_dev ↦ block_rdev sys part_dev
]

-- `while ((de = readdir(dp)) != NULL && dev_count < 128)`; the result is what the loop appends to
-- `devs` after the first `dev_count` entries.
unfoldable pub collect_devs : System → CString → ℕ → List CString → List ℕ
collect_devs sys block_dir dev_count [] = []
collect_devs sys block_dir dev_count (name ∷ names) = elim (ltb dev_count 128) [
  | false ↦ []
  | true ↦ elim (partition_rdev sys block_dir name) [
    | none ↦ collect_devs sys block_dir dev_count names
    | some rdev ↦ rdev ∷ collect_devs sys block_dir (dev_count + 1) names
  ]
]
