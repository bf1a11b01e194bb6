-- ===== src/Settings/Examples.antt =====
-- Settings with one key, and what the store does to keys and values it cannot keep.
use winafi.Prelude.{◌≡◌, refl, true, false, none, some, inr, [], ◌∷◌, All, arith, ℕ, zero, suc}
use winafi.Prelude.Int.{pos, negsuc}
use winafi.Prelude.Text.{CString, codes, str_eq, fit}
use winafi.Settings.Store.{
  Settings, find_entry, store_val, settings_set_string, settings_get_int, settings_set_int,
}
use winafi.Settings.Text.{
  settings_open, load, flush, load_lines, fgets_lines, parse_line, split_line, cut_line_end,
  entry_lines, file_text,
}
use winafi.Settings.Lookup.{lookup, update, HasRoom, settings_set_string-update}
use winafi.Settings.Bounds.{IsBounded, opened, string_set, Reached-IsBounded}
use winafi.Settings.File.{IsWritable, load-flush}
use winafi.Settings.Numbers.{settings_get_int-settings_set_int}

abbrev theme : CString
theme = codes "theme"

abbrev one_key : Settings
one_key = record {
  path = codes "/tmp/winafi.ini";
  entries = record { key = theme; val = codes "dark" } ∷ [];
  dirty = true;
}

theme_room : HasRoom one_key theme
unfolding find_entry str_eq
theme_room = (omega arith, inr (omega arith))

settings_set_string-update_example :
    lookup (settings_set_string one_key (some theme) (some (codes "light"))) (codes "lang")
    ≡ update (lookup one_key) theme (fit 512 (codes "light")) (codes "lang")
settings_set_string-update_example =
    settings_set_string-update one_key theme (codes "light") (codes "lang") theme_room

settings_get_int-settings_set_int_example :
    settings_get_int (settings_set_int one_key (some theme) (negsuc 41)) (some theme) (pos 7)
    ≡ negsuc 41
settings_get_int-settings_set_int_example =
    settings_get_int-settings_set_int one_key theme (negsuc 41) (pos 7) theme_room (omega arith)

theme-IsWritable : All IsWritable one_key.entries
theme-IsWritable = (
  record {
    sizes = (omega arith, omega arith);
    key = ground arith;
    first = refl;
    val = ground arith;
  },
  tt,
)

load-flush_example :
    (load
      ((flush true one_key).written)
      (record { path = []; entries = []; dirty = false })).entries
    ≡ one_key.entries
load-flush_example = load-flush one_key [] theme-IsWritable (omega arith) refl

abbrev fresh : Settings
fresh = settings_open (λ dir path. some (codes "[Winafi]\n# c\nlang=de\r\n")) none none

Reached-IsBounded_example : IsBounded (settings_set_string fresh (some theme) none)
Reached-IsBounded_example = Reached-IsBounded (
    string_set (some theme) none
      (opened (λ dir path. some (codes "[Winafi]\n# c\nlang=de\r\n")) none none))

abbrev long_key : ℕ → CString
long_key zero = []
long_key (suc n) = b'k' ∷ long_key n

-- A key of 128 bytes is cut to 127 when it is stored, and not found again.
long_key_lost :
    settings_get_int
      (settings_set_int one_key (some (long_key 128)) (pos 1))
      (some (long_key 128))
      (pos 0)
    ≡ pos 0
unfolding settings_get_int settings_set_int store_val find_entry str_eq
long_key_lost = refl

-- A value with a newline is cut at it by the next load.
newline_lost :
    load_lines (fgets_lines 643 (file_text (record { key = theme; val = codes "a\nb=c" } ∷ []))) []
    ≡ record { key = theme; val = codes "a" } ∷ record { key = codes "b"; val = codes "c" } ∷ []
unfolding load_lines fgets_lines file_text entry_lines parse_line split_line cut_line_end
newline_lost = refl
