-- ===== src/Mkfs/Argv.antt =====
-- The commands of filesystem.c as the shell reads them.
use winafi.Prelude.{
  ℕ, ◌≤◌, ◌<◌, false, ◌≡◌, ◌⊎◌, refl, sym, ◌∙◌, inl, inr, Option, none, some, [], ◌∷◌, ◌++◌, All,
  arith, length, IsTrue, not, ◌&&◌, Bool-cases, Option-cases,
}
use winafi.Prelude.Text.{CString, codes}
use winafi.Os.{exit_ok}
use winafi.Mkfs.Commands.{
  FsError, is_invalid_char, validate_label_for_fat32, validate_label_for_ntfs,
  validate_label_for_exfat, gen_command, gen_mkfs_fat32_command, gen_mkfs_ntfs_command,
  gen_mkfs_exfat_command, Kind, fat32, ntfs, exfat, gen_for, create_for, Made, run_command,
  create_filesystem, create_fat32_filesystem, create_ntfs_filesystem, create_exfat_filesystem,
}
use winafi.Mkfs.Commands.{Shell}
use winafi.Mkfs.Shell.{words}
use winafi.Mkfs.Quoting.{
  IsPlainPath, argv, plain_text, labelled_text, words-plain_text, words-labelled_text, validated,
  generated_plain, generated_labelled,
}

-- The generators, by their file system.
plain_generated :
    (kind : Kind) (path : CString) (n : ℕ) (cmd : CString)
    → gen_for kind (some path) none n ≡ inr cmd
    → (cmd ≡ plain_text kind ++ path) × (length cmd < n)
unfolding gen_mkfs_fat32_command gen_mkfs_ntfs_command gen_mkfs_exfat_command
plain_generated fat32 path n cmd h =
    generated_plain validate_label_for_fat32 (plain_text fat32) (labelled_text fat32) path n cmd h
plain_generated ntfs path n cmd h =
    generated_plain validate_label_for_ntfs (plain_text ntfs) (labelled_text ntfs) path n cmd h
plain_generated exfat path n cmd h =
    generated_plain validate_label_for_exfat (plain_text exfat) (labelled_text exfat) path n cmd h

empty_generated :
    (kind : Kind) (path : CString) (n : ℕ)
    → gen_for kind (some path) (some []) n ≡ gen_for kind (some path) none n
unfolding gen_mkfs_fat32_command gen_mkfs_ntfs_command gen_mkfs_exfat_command gen_command
empty_generated fat32 path n = refl
empty_generated ntfs path n = refl
empty_generated exfat path n = refl

labelled_generated :
    (kind : Kind) (path : CString) (c : ℕ) (label : CString) (n : ℕ) (cmd : CString)
    → gen_for kind (some path) (some (c ∷ label)) n ≡ inr cmd
    → All (λ d. is_invalid_char d ≡ false) (c ∷ label)
      × ((cmd ≡ labelled_text kind ++ ((c ∷ label) ++ (codes "' " ++ path))) × (length cmd < n))
unfolding gen_mkfs_fat32_command gen_mkfs_ntfs_command gen_mkfs_exfat_command
    validate_label_for_fat32 validate_label_for_ntfs validate_label_for_exfat
labelled_generated fat32 path c label n cmd h =
    let (ok, e) =
      generated_labelled validate_label_for_fat32 (plain_text fat32) (labelled_text fat32) path c
        label n cmd h in
    (validated 11 c label ok, e)
labelled_generated ntfs path c label n cmd h =
    let (ok, e) =
      generated_labelled validate_label_for_ntfs (plain_text ntfs) (labelled_text ntfs) path c label
        n cmd h in
    (validated 32 c label ok, e)
labelled_generated exfat path c label n cmd h =
    let (ok, e) =
      generated_labelled validate_label_for_exfat (plain_text exfat) (labelled_text exfat) path c
        label n cmd h in
    (validated 15 c label ok, e)

-- A command that one of the three generators makes for a path of plain bytes fits its buffer, and
-- the shell splits it into the program, its options, the label as one word with all its bytes where
-- there is one, and the path.
pub words-gen_for :
    (kind : Kind) (path : CString) (label : Option CString) (n : ℕ) (cmd : CString)
    → IsPlainPath path
    → gen_for kind (some path) label n ≡ inr cmd
    → (words cmd ≡ some (argv kind path label)) × (length cmd < n)
words-gen_for kind path none n cmd p h =
    let (e, short) = plain_generated kind path n cmd h in
    (rw e (words-plain_text kind path p), short)
words-gen_for kind path (some []) n cmd p h =
    let (e, short) = plain_generated kind path n cmd (sym (empty_generated kind path n) ∙ h) in
    (rw e (words-plain_text kind path p), short)
words-gen_for kind path (some (c ∷ label)) n cmd p h =
    let (v, t) = labelled_generated kind path c label n cmd h in
    let (e, short) = t in (rw e (words-labelled_text kind c label path v p), short)

-- The run of a generated command.
pub record IsMade (shell : Shell) (kind : Kind) (path : CString) (label : Option CString) (m : Made)
    : Type 0 where
  pub one_command : length m.ran ≤ 1
  pub meant : All (λ cmd. words cmd ≡ some (argv kind path label)) m.ran
  pub formatted :
      m.error ≡ none → (cmd : CString) × (m.ran ≡ cmd ∷ []) × IsTrue (exit_ok (shell.status cmd))

run_IsMade :
    (shell : Shell) (kind : Kind) (path : CString) (label : Option CString) (r : FsError ⊎ CString)
    → gen_for kind (some path) label 512 ≡ r
    → IsPlainPath path
    → IsMade shell kind path label (run_command shell r)
unfolding run_command
run_IsMade shell kind path label (inl e) h p = record {
  one_command = omega arith;
  meant = tt;
  formatted = λ k. absurd (ground arith);
}
run_IsMade shell kind path label (inr cmd) h p =
    let (w, short) = words-gen_for kind path label 512 cmd p h in
    record {
      one_command = omega arith;
      meant = (w, tt);
      formatted = λ k. (cmd, refl, ground arith);
    }

stopped_IsMade :
    (shell : Shell) (kind : Kind) (path : CString) (label : Option CString) (e : FsError)
    → IsMade shell kind path label (record { error = some e; ran = [] })
stopped_IsMade shell kind path label e = record {
  one_command = omega arith;
  meant = tt;
  formatted = λ k. absurd (ground arith);
}

filesystem_IsMade :
    (shell : Shell) (kind : Kind) (path : CString) (label : Option CString) (tool : CString)
    (validate : Option CString → Option FsError)
    → IsPlainPath path
    → IsMade shell kind path label
        (create_filesystem shell tool validate (gen_for kind (some path) label 512) label)
unfolding create_filesystem
filesystem_IsMade shell kind path label tool validate p =
    elim (Bool-cases (
      not (shell.executable (codes "/sbin/" ++ tool))
      && not (shell.executable (codes "/usr/sbin/" ++ tool)))) [
        | inl missing ↦ rw missing (stopped_IsMade shell kind path label _)
        | inr found ↦ elim (Option-cases (validate label)) [
          | inl ok ↦ rw (found, ok) (run_IsMade shell kind path label _ refl p)
          | inr (e, bad) ↦ rw (found, bad) (stopped_IsMade shell kind path label e)
        ]
      ]

-- For a path of plain bytes, each of the three functions gives the shell at most one command, whose
-- words are the program, its options, the whole label and the path; it returns FILESYSTEM_OK only if
-- it gave one and that one exited with 0.
pub create_for-IsMade :
    (shell : Shell) (kind : Kind) (path : CString) (label : Option CString)
    → IsPlainPath path
    → IsMade shell kind path label (create_for kind shell (some path) label)
unfolding create_fat32_filesystem create_ntfs_filesystem create_exfat_filesystem
create_for-IsMade shell fat32 path label p = filesystem_IsMade shell fat32 path label _ _ p
create_for-IsMade shell ntfs path label p = filesystem_IsMade shell ntfs path label _ _ p
create_for-IsMade shell exfat path label p = filesystem_IsMade shell exfat path label _ _ p
