-- ===== src/Settings/Store.antt =====
-- platform/linux/settings.c: the entries, and reading and setting them. An array of entries with
-- its count is the list of the entries in use.
use winafi.Prelude.{
  ℕ, zero, suc, ◌+◌, ◌-◌, ◌*◌, Bool, true, false, not, ◌&&◌, Option, none, some, List, [], ◌∷◌,
  ◌++◌, length, leb, ◌==◌, if◌then◌else◌,
}
use winafi.Prelude.Int.{ℤ, pos, negsuc}
use winafi.Prelude.Text.{CString, str_eq, fit, decimal, skip_spaces}

pub record Entry : Type 0 where
  pub key : CString
  pub val : CString

pub record Settings : Type 0 where
  pub path : CString
  pub entries : List Entry
  pub dirty : Bool

unfoldable pub find_entry : List Entry → CString → Option CString
find_entry [] key = none
find_entry (e ∷ es) key =
    let rest = find_entry es key in if str_eq e.key key then some e.val else rest

-- `find_or_create` and the write to the entry's value: `val` is what the buffer then holds. A new
-- entry keeps the first 127 bytes of its key, and there is none behind the 256th.
unfoldable pub replace_val : List Entry → CString → CString → List Entry
replace_val [] key val = []
replace_val (e ∷ es) key val =
    let rest = replace_val es key val in
    if str_eq e.key key then record e { val = val } ∷ es else e ∷ rest

unfoldable pub store_val : Settings → CString → CString → Settings
store_val s key val = elim (find_entry s.entries key) [
  | some v ↦ record s { entries = replace_val s.entries key val; dirty = true }
  | none ↦ if leb 256 (length s.entries) then s else record s {
    entries = s.entries ++ record { key = fit 128 key; val = val } ∷ [];
    dirty = true;
  }
]

-- The text in `out`, a buffer of `n` bytes; `none` is the result -1.
unfoldable pub settings_get_string : Settings → Option CString → ℕ → Option CString → Option CString
settings_get_string s none n d = none
settings_get_string s (some key) n d = if n == 0 then none else elim (find_entry s.entries key) [
  | some v ↦ some (fit n v)
  | none ↦ elim d [ some t ↦ some (fit n t) | none ↦ some [] ]
]

unfoldable pub settings_set_string : Settings → Option CString → Option CString → Settings
settings_set_string s none val = s
settings_set_string s (some key) none = store_val s key []
settings_set_string s (some key) (some val) = store_val s key (fit 512 val)

-- `%d`.
unfoldable pub print_int : ℤ → CString
print_int (pos n) = decimal n
print_int (negsuc n) = b'-' ∷ decimal (n + 1)

-- The digits at the front of a text, behind those with the value `acc`.
unfoldable pub digits_value : ℕ → CString → ℕ
digits_value acc [] = acc
digits_value acc (c ∷ s) =
    let rest = digits_value (acc * 10 + (c - b'0')) s in
    if leb b'0' c && leb c b'9' then rest else acc

abbrev pub negated : ℕ → ℤ
negated zero = pos 0
negated (suc n) = negsuc n

-- A value outside of `int` is undefined in C; here it is the number itself.
unfoldable pub signed_value : CString → ℤ
signed_value [] = pos 0
signed_value (c ∷ s) =
    if c == b'-'
    then negated (digits_value 0 s)
    else if c == b'+'
    then pos (digits_value 0 s)
    else pos (digits_value 0 (c ∷ s))

unfoldable pub atoi : CString → ℤ
atoi s = signed_value (skip_spaces s)

unfoldable pub settings_get_int : Settings → Option CString → ℤ → ℤ
settings_get_int s none d = d
settings_get_int s (some key) d = elim (find_entry s.entries key) [ some v ↦ atoi v | none ↦ d ]

unfoldable pub settings_set_int : Settings → Option CString → ℤ → Settings
settings_set_int s none val = s
settings_set_int s (some key) val = store_val s key (fit 512 (print_int val))

abbrev pub is_zero : ℤ → Bool
is_zero (pos n) = n == 0
is_zero (negsuc n) = false

unfoldable pub settings_get_bool : Settings → Option CString → ℤ → Bool
settings_get_bool s key d = not (is_zero (settings_get_int s key d))

unfoldable pub settings_set_bool : Settings → Option CString → ℤ → Settings
settings_set_bool s key val = settings_set_int s key (if is_zero val then pos 0 else pos 1)
