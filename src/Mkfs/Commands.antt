-- ===== src/Mkfs/Commands.antt =====
-- platform/linux/filesystem.c. The three file systems have the same code with other constants.
use winafi.Prelude.{
  ℕ, Bool, ◌||◌, not, ◌&&◌, ◌⊎◌, inl, inr, Option, none, some, List, [], ◌∷◌, ◌++◌, length, any,
  ltb, leb, ◌==◌, if◌then◌else◌,
}
use winafi.Prelude.Text.{CString, codes}
use winafi.Os.{Wait, exit_ok}

-- The error codes; FILESYSTEM_OK is `none` or the right side.
pub data FsError : Type 0 where
  label_too_long invalid_chars invalid_size mkfs_failed tool_missing : FsError

abbrev pub forbidden : CString
forbidden = codes "'\"*+,/:;<=>?[\\]|`$&(){}~"

unfoldable pub is_invalid_char : ℕ → Bool
is_invalid_char ch = ltb ch 32 || any (λ c. c == ch) forbidden

-- A label of at most `longest` bytes; `none` is the result FILESYSTEM_OK.
unfoldable pub validate_label : ℕ → Option CString → Option FsError
validate_label longest none = none
validate_label longest (some []) = none
validate_label longest (some (c ∷ label)) =
    if ltb longest (length (c ∷ label))
    then some label_too_long
    else if any is_invalid_char (c ∷ label)
    then some invalid_chars
    else none

unfoldable pub validate_label_for_fat32 : Option CString → Option FsError
validate_label_for_fat32 label = validate_label 11 label

unfoldable pub validate_label_for_ntfs : Option CString → Option FsError
validate_label_for_ntfs label = validate_label 32 label

unfoldable pub validate_label_for_exfat : Option CString → Option FsError
validate_label_for_exfat label = validate_label 15 label

-- The end of snprintf: a text that does not fit with its terminator is an error.
unfoldable pub fits : ℕ → CString → FsError ⊎ CString
fits cmd_size text = if leb cmd_size (length text) then inl invalid_size else inr text

-- One generator: `plain` before the partition, `labelled` before the quoted label.
unfoldable pub gen_command :
    (Option CString → Option FsError)
    → CString
    → CString
    → Option CString
    → Option CString
    → ℕ
    → FsError ⊎ CString
gen_command validate plain labelled none label cmd_size = inl invalid_size
gen_command validate plain labelled (some partition) none cmd_size =
    if cmd_size == 0 then inl invalid_size else fits cmd_size (plain ++ partition)
gen_command validate plain labelled (some partition) (some []) cmd_size =
    if cmd_size == 0 then inl invalid_size else fits cmd_size (plain ++ partition)
gen_command validate plain labelled (some partition) (some (c ∷ label)) cmd_size =
    if cmd_size == 0 then inl invalid_size else elim (validate (some (c ∷ label))) [
      | some e ↦ inl e
      | none ↦ fits cmd_size (labelled ++ ((c ∷ label) ++ (codes "' " ++ partition)))
    ]

unfoldable pub gen_mkfs_fat32_command : Option CString → Option CString → ℕ → FsError ⊎ CString
gen_mkfs_fat32_command =
    gen_command validate_label_for_fat32 (codes "mkfs.vfat -F 32 ") (codes "mkfs.vfat -F 32 -n '")

unfoldable pub gen_mkfs_ntfs_command : Option CString → Option CString → ℕ → FsError ⊎ CString
gen_mkfs_ntfs_command =
    gen_command validate_label_for_ntfs (codes "mkfs.ntfs ") (codes "mkfs.ntfs -L '")

unfoldable pub gen_mkfs_exfat_command : Option CString → Option CString → ℕ → FsError ⊎ CString
gen_mkfs_exfat_command =
    gen_command validate_label_for_exfat (codes "mkfs.exfat ") (codes "mkfs.exfat -L '")

-- access(2) with X_OK, and system(3): the status, where `fork_failed` is its -1.
pub record Shell : Type 0 where
  pub executable : CString → Bool
  pub status : CString → Wait

-- The result, and the commands that the shell was given.
pub record Made : Type 0 where
  pub error : Option FsError
  pub ran : List CString

unfoldable pub run_command : Shell → FsError ⊎ CString → Made
run_command shell (inl e) = record { error = some e; ran = [] }
run_command shell (inr cmd) = record {
  error = if exit_ok (shell.status cmd) then none else some mkfs_failed;
  ran = cmd ∷ [];
}

unfoldable pub create_filesystem :
    Shell → CString → (Option CString → Option FsError) → FsError ⊎ CString → Option CString → Made
create_filesystem shell tool validate command label =
    if not (shell.executable (codes "/sbin/" ++ tool))
      && not (shell.executable (codes "/usr/sbin/" ++ tool))
    then record { error = some tool_missing; ran = [] }
    else elim (validate label) [
      | some e ↦ record { error = some e; ran = [] }
      | none ↦ run_command shell command
    ]

unfoldable pub create_fat32_filesystem : Shell → Option CString → Option CString → Made
create_fat32_filesystem shell partition label =
    create_filesystem shell (codes "mkfs.vfat") validate_label_for_fat32
      (gen_mkfs_fat32_command partition label 512) label

unfoldable pub create_ntfs_filesystem : Shell → Option CString → Option CString → Made
create_ntfs_filesystem shell partition label =
    create_filesystem shell (codes "mkfs.ntfs") validate_label_for_ntfs
      (gen_mkfs_ntfs_command partition label 512) label

unfoldable pub create_exfat_filesystem : Shell → Option CString → Option CString → Made
create_exfat_filesystem shell partition label =
    create_filesystem shell (codes "mkfs.exfat") validate_label_for_exfat
      (gen_mkfs_exfat_command partition label 512) label

-- The three, by their file system.
pub data Kind : Type 0 where
  fat32 ntfs exfat : Kind

abbrev pub create_for : Kind → Shell → Option CString → Option CString → Made
create_for fat32 = create_fat32_filesystem
create_for ntfs = create_ntfs_filesystem
create_for exfat = create_exfat_filesystem

abbrev pub gen_for : Kind → Option CString → Option CString → ℕ → FsError ⊎ CString
gen_for fat32 = gen_mkfs_fat32_command
gen_for ntfs = gen_mkfs_ntfs_command
gen_for exfat = gen_mkfs_exfat_command
