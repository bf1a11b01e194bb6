-- ===== src/Mkfs/Quoting.antt =====
-- A command that reaches the shell has the words that the code means, whatever the label is.
use winafi.Prelude.{
  ℕ, ◌≤◌, ◌<◌, true, false, ◌≡◌, refl, ap, ◌∙◌, inl, inr, Option, none, some, List, [], ◌∷◌, ◌++◌,
  All, any, any-false, ◌==◌, arith, length, Bool-cases, Option-cases,
}
use mathlib.Core.List.{append_assoc, append-nil}
use winafi.Prelude.Text.{CString, codes}
use winafi.Mkfs.Commands.{
  FsError, is_invalid_char, validate_label, fits, gen_command, Kind, fat32, ntfs, exfat,
}
use winafi.Mkfs.Shell.{is_special, add_word, unquoted, quoted, words, is_plain}

-- No quote is valid in a label.
valid_unquoted : (c : ℕ) → is_invalid_char c ≡ false → (c == b'\'') ≡ false
unfolding is_invalid_char any
valid_unquoted c h = ground arith

-- Inside quotes every byte but the quote is taken as it is.
quoted-append :
    (w label rest : CString)
    → All (λ c. is_invalid_char c ≡ false) label
    → quoted w (label ++ b'\'' ∷ rest) ≡ unquoted (some (w ++ label)) rest
unfolding quoted
quoted-append w [] rest h = rw (append-nil w) refl
quoted-append w (c ∷ label) rest (h, hs) = rw (valid_unquoted c h) (
    quoted-append (w ++ c ∷ []) label rest hs
    ∙ ap (λ v. unquoted (some v) rest) (append_assoc w (c ∷ []) label))

-- Plain bytes are taken as they are.
plain_step :
    (c : ℕ)
    → is_plain c ≡ true
    → ((c == b' ') ≡ false) × ((c == b'\'') ≡ false) × (is_special c ≡ false)
unfolding is_plain
plain_step c h = ground arith

unquoted-append :
    (w name : CString)
    → All (λ c. is_plain c ≡ true) name
    → unquoted (some w) name ≡ some ((w ++ name) ∷ [])
unfolding unquoted
unquoted-append w [] h = rw (append-nil w) refl
unquoted-append w (c ∷ name) (h, hs) =
    let (s, q, m) = plain_step c h in
    rw (s, q, m)
      (unquoted-append (w ++ c ∷ []) name hs
        ∙ ap (λ v. some (v ∷ [])) (append_assoc w (c ∷ []) name))

-- A path that the shell reads as one word.
pub record IsPlainPath (path : CString) : Type 0 where
  pub some_byte : 1 ≤ length path
  pub plain : All (λ c. is_plain c ≡ true) path

one_word : (path : CString) → IsPlainPath path → unquoted none path ≡ some (path ∷ [])
unfolding unquoted
one_word [] p = absurd (omega (arith, p.some_byte))
one_word (c ∷ path) p =
    let (h, hs) = p.plain in
    let (s, q, m) = plain_step c h in rw (s, q, m) (unquoted-append (c ∷ []) path hs)

-- The arguments that the code means, the label's flag first.
abbrev pub tool_words : Kind → List CString
tool_words fat32 = codes "mkfs.vfat" ∷ codes "-F" ∷ codes "32" ∷ []
tool_words ntfs = codes "mkfs.ntfs" ∷ []
tool_words exfat = codes "mkfs.exfat" ∷ []

abbrev pub label_flag : Kind → CString
label_flag fat32 = codes "-n"
label_flag ntfs = codes "-L"
label_flag exfat = codes "-L"

abbrev pub argv : Kind → CString → Option CString → List CString
argv kind path none = tool_words kind ++ path ∷ []
argv kind path (some []) = tool_words kind ++ path ∷ []
argv kind path (some (c ∷ label)) = tool_words kind ++ label_flag kind ∷ (c ∷ label) ∷ path ∷ []

abbrev pub plain_text : Kind → CString
plain_text fat32 = codes "mkfs.vfat -F 32 "
plain_text ntfs = codes "mkfs.ntfs "
plain_text exfat = codes "mkfs.exfat "

abbrev pub labelled_text : Kind → CString
labelled_text fat32 = codes "mkfs.vfat -F 32 -n '"
labelled_text ntfs = codes "mkfs.ntfs -L '"
labelled_text exfat = codes "mkfs.exfat -L '"

pub words-plain_text :
    (kind : Kind) (path : CString)
    → IsPlainPath path
    → words (plain_text kind ++ path) ≡ some (argv kind path none)
unfolding words unquoted is_special any add_word
words-plain_text fat32 path p = rw (one_word path p) refl
words-plain_text ntfs path p = rw (one_word path p) refl
words-plain_text exfat path p = rw (one_word path p) refl

pub words-labelled_text :
    (kind : Kind) (c : ℕ) (label path : CString)
    → All (λ d. is_invalid_char d ≡ false) (c ∷ label)
    → IsPlainPath path
    → words (labelled_text kind ++ ((c ∷ label) ++ (codes "' " ++ path)))
      ≡ some (argv kind path (some (c ∷ label)))
unfolding words unquoted is_special any add_word
words-labelled_text fat32 c label path v p =
    rw (quoted-append [] (c ∷ label) (b' ' ∷ path) v, one_word path p) refl
words-labelled_text ntfs c label path v p =
    rw (quoted-append [] (c ∷ label) (b' ' ∷ path) v, one_word path p) refl
words-labelled_text exfat c label path v p =
    rw (quoted-append [] (c ∷ label) (b' ' ∷ path) v, one_word path p) refl

-- A text that fits is the text itself.
fits_lem : (n : ℕ) (text cmd : CString) → fits n text ≡ inr cmd → (cmd ≡ text) × (length cmd < n)
unfolding fits
fits_lem n text cmd h = ground arith

-- An accepted label has valid bytes only.
pub validated :
    (longest c : ℕ) (label : CString)
    → validate_label longest (some (c ∷ label)) ≡ none
    → All (λ d. is_invalid_char d ≡ false) (c ∷ label)
unfolding validate_label
validated longest c label h = any-false is_invalid_char (c ∷ label) (ground arith)

pub generated_plain :
    (validate : Option CString → Option FsError) (plain labelled path : CString) (n : ℕ)
    (cmd : CString)
    → gen_command validate plain labelled (some path) none n ≡ inr cmd
    → (cmd ≡ plain ++ path) × (length cmd < n)
unfolding gen_command
generated_plain validate plain labelled path n cmd h = elim (Bool-cases (n == 0)) [
  | inl z ↦ absurd (cc (rw z at h))
  | inr nz ↦ fits_lem n (plain ++ path) cmd (rw nz at h)
]

pub generated_labelled :
    (validate : Option CString → Option FsError) (plain labelled path : CString) (c : ℕ)
    (label : CString) (n : ℕ) (cmd : CString)
    → gen_command validate plain labelled (some path) (some (c ∷ label)) n ≡ inr cmd
    → (validate (some (c ∷ label)) ≡ none)
      × ((cmd ≡ labelled ++ ((c ∷ label) ++ (codes "' " ++ path))) × (length cmd < n))
unfolding gen_command
generated_labelled validate plain labelled path c label n cmd h = elim (Bool-cases (n == 0)) [
  | inl z ↦ absurd (cc (rw z at h))
  | inr nz ↦ elim (Option-cases (validate (some (c ∷ label)))) [
    | inl ok ↦
        (ok, fits_lem n (labelled ++ ((c ∷ label) ++ (codes "' " ++ path))) cmd (rw (nz, ok) at h))
    | inr (e, bad) ↦ absurd (cc (rw (nz, bad) at h))
  ]
]
