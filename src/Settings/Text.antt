-- ===== src/Settings/Text.antt =====
-- platform/linux/settings.c: the file, and opening and closing the settings. `none` for the file is
-- one that fopen cannot open.
use winafi.Prelude.{
  ℕ, ◌-◌, Bool, true, false, ◌||◌, not, Option, none, some, List, [], ◌∷◌, ◌++◌, length, leb, ◌==◌,
  if◌then◌else◌,
}
use winafi.Prelude.Text.{CString, codes, fit, char_at}
use winafi.Settings.Store.{Entry, Settings}

abbrev pub cons_line : ℕ → List CString → List CString
cons_line c [] = (c ∷ []) ∷ []
cons_line c (l ∷ ls) = (c ∷ l) ∷ ls

-- The texts that the calls `fgets(line, 644, f)` give one after the other, with `room` bytes left
-- for the first: each ends behind a newline, with its 643rd byte, or with the file.
unfoldable pub fgets_lines : ℕ → CString → List CString
fgets_lines room [] = []
fgets_lines room (c ∷ s) =
    let last = c == b'\n' || leb room 1 in
    let rest = fgets_lines (if last then 643 else room - 1) s in
    if last then (c ∷ []) ∷ rest else cons_line c rest

-- The line as split at its first `=`.
unfoldable pub split_line : CString → Option (CString × CString)
split_line [] = none
split_line (c ∷ s) =
    if c == b'='
    then some ([], s)
    else elim (split_line s) [ none ↦ none | some (k, v) ↦ some (c ∷ k, v) ]

-- `val[strcspn(val, "\r\n")] = 0`.
unfoldable pub cut_line_end : CString → CString
cut_line_end [] = []
cut_line_end (c ∷ s) = if c == b'\r' || c == b'\n' then [] else c ∷ cut_line_end s

-- The entry of a line, `none` where the loop goes on without one.
unfoldable pub parse_line : CString → Option Entry
parse_line line = elim (split_line line) [
  | none ↦ none
  | some (k, v) ↦
      if char_at line 0 == b'#' || char_at line 0 == b'['
      then none
      else some (record { key = fit 128 k; val = fit 512 (cut_line_end v) })
]

abbrev pub add_entry : List Entry → Option Entry → List Entry
add_entry es none = es
add_entry es (some e) = es ++ e ∷ []

-- The loop of `load`, which stops at 256 entries.
unfoldable pub load_lines : List CString → List Entry → List Entry
load_lines [] es = es
load_lines (l ∷ ls) es =
    let rest = load_lines ls (add_entry es (parse_line l)) in
    if leb 256 (length es) then es else rest

unfoldable pub load : Option CString → Settings → Settings
load none s = s
load (some text) s = record s { entries = load_lines (fgets_lines 643 text) s.entries }

unfoldable pub entry_lines : List Entry → CString
entry_lines [] = []
entry_lines (e ∷ es) = e.key ++ b'=' ∷ (e.val ++ b'\n' ∷ entry_lines es)

unfoldable pub file_text : List Entry → CString
file_text es = codes "[Winafi]\n" ++ entry_lines es

-- The success, the settings, and the text written; `writable` is fopen for writing.
pub record Flushed : Type 0 where
  pub succeeded : Bool
  pub settings : Settings
  pub written : Option CString

unfoldable pub flush : Bool → Settings → Flushed
flush writable s =
    if not s.dirty
    then record { succeeded = true; settings = s; written = none }
    else if not writable
    then record { succeeded = false; settings = s; written = none }
    else record {
      succeeded = true;
      settings = record s { dirty = false };
      written = some (file_text s.entries);
    }

-- getenv of XDG_CONFIG_HOME and of HOME; the path has a buffer of 1024 bytes.
unfoldable pub get_settings_path : Option CString → Option CString → CString
get_settings_path (some (c ∷ xdg)) home = fit 1024 ((c ∷ xdg) ++ codes "/Winafi/winafi.ini")
get_settings_path xdg (some home) = fit 1024 (home ++ codes "/.config/Winafi/winafi.ini")
get_settings_path xdg none = fit 1024 (codes "/tmp/.config/Winafi/winafi.ini")

-- The text before the last slash, the directory that mkdir is asked for; `none` if there is none.
unfoldable pub ensure_dir : CString → Option CString
ensure_dir [] = none
ensure_dir (c ∷ path) = elim (ensure_dir path) [
  | some dir ↦ some (c ∷ dir)
  | none ↦ if c == b'/' then some [] else none
]

-- calloc, the path, its directory and the file there; `file` is what fopen finds at a path once the
-- directory was asked for.
unfoldable pub settings_open :
    (Option CString → CString → Option CString) → Option CString → Option CString → Settings
settings_open file xdg home =
    let path = get_settings_path xdg home in
    load (file (ensure_dir path) path) (record { path = path; entries = []; dirty = false })

-- The result 0 of the call is `true`.
unfoldable pub settings_close : Bool → Option Settings → Bool × Option CString
settings_close writable none = (true, none)
settings_close writable (some s) = let out = flush writable s in (out.succeeded, out.written)
