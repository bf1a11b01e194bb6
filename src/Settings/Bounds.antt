-- ===== src/Settings/Bounds.antt =====
-- The bounds of the arrays of `struct settings`, in every state that the program reaches.
use winafi.Prelude.{
  ◌≤◌, false, ◌≡◌, refl, subst, ◌||◌, ◌==◌, inl, inr, Option, none, some, List, [], ◌∷◌, ◌++◌,
  arith, length, leb, Bool-cases, Option-cases, length-append, length-take, All, All-append,
}
use mathlib.Core.Option.{some-injective}
use winafi.Prelude.Int.{ℤ}
use winafi.Prelude.Text.{CString, str_eq, fit, char_at}
use winafi.Settings.Store.{
  Entry, Settings, find_entry, replace_val, store_val, print_int, settings_set_string,
  settings_set_int, settings_set_bool,
}
use winafi.Settings.Text.{
  split_line, parse_line, cut_line_end, load_lines, fgets_lines, load, settings_open,
}
use winafi.Settings.Lookup.{stored_new}

abbrev pub FitsBuffers : Entry → Type 0
FitsBuffers e = (length e.key ≤ 127) × (length e.val ≤ 511)

-- The counts and the buffers stay within their bounds.
pub record IsBounded (s : Settings) : Type 0 where
  pub count : length s.entries ≤ 256
  pub sizes : All FitsBuffers s.entries

length-replace_val :
    (es : List Entry) (key val : CString) → length (replace_val es key val) ≡ length es
unfolding replace_val
length-replace_val [] key val = refl
length-replace_val (e ∷ es) key val = ground (arith, length-replace_val es key val)

replaced_sizes :
    (es : List Entry) (key val : CString)
    → length val ≤ 511
    → All FitsBuffers es
    → All FitsBuffers (replace_val es key val)
unfolding replace_val
replaced_sizes [] key val h a = tt
replaced_sizes (e ∷ es) key val h ((k, v), a) = elim (Bool-cases (str_eq e.key key)) [
  | inl t ↦ rw t ((k, h), a)
  | inr f ↦ rw f ((k, v), replaced_sizes es key val h a)
]

store_val-IsBounded :
    (s : Settings) (key val : CString)
    → length val ≤ 511
    → IsBounded s
    → IsBounded (store_val s key val)
unfolding store_val
store_val-IsBounded s key val h b = elim (Option-cases (find_entry s.entries key)) [
  | inr (w, used) ↦
      rw (store_val, used)
        (record {
          count = omega (arith, length-replace_val s.entries key val, b.count);
          sizes = replaced_sizes s.entries key val h b.sizes;
        })
  | inl free ↦ elim (Bool-cases (leb 256 (length s.entries))) [
    | inl full ↦ rw (store_val, free, full) b
    | inr more ↦ rw (stored_new s key val free more) (record {
      count =
          ground (arith, length-append s.entries (record { key = fit 128 key; val = val } ∷ []));
      sizes = All-append _ s.entries _ b.sizes ((omega (arith, length-take 127 key), h), tt);
    })
  ]
]

parsed_sizes : (line : CString) (e : Entry) → parse_line line ≡ some e → FitsBuffers e
unfolding parse_line
parsed_sizes line e h = elim (Option-cases (split_line line)) [
  | inl n ↦ absurd (cc (rw (parse_line, n) at h))
  | inr ((k, v), j) ↦ elim (Bool-cases (char_at line 0 == b'#' || char_at line 0 == b'[')) [
    | inl skipped ↦ absurd (cc (rw (parse_line, j, skipped) at h))
    | inr kept ↦
        subst FitsBuffers (some-injective _ _ (rw (parse_line, j, kept) at h))
          (omega (arith, length-take 127 k), omega (arith, length-take 511 (cut_line_end v)))
  ]
]

loaded :
    (ls : List CString) (es : List Entry)
    → length es ≤ 256
    → All FitsBuffers es
    → (length (load_lines ls es) ≤ 256) × All FitsBuffers (load_lines ls es)
unfolding load_lines
loaded [] es c a = (c, a)
loaded (l ∷ ls) es c a = elim (Bool-cases (leb 256 (length es))) [
  | inl full ↦ rw full (c, a)
  | inr more ↦ elim (Option-cases (parse_line l)) [
    | inl skipped ↦ rw (more, skipped) (loaded ls es c a)
    | inr (e, parsed) ↦
        rw (more, parsed)
          (loaded ls (es ++ e ∷ []) (ground (arith, length-append es (e ∷ [])))
            (All-append FitsBuffers es (e ∷ []) a (parsed_sizes l e parsed, tt)))
  ]
]

-- The settings that the program can hold: opened, then set any number of times.
pub data Reached : Settings → Type 0 where
  opened :
      (file : Option CString → CString → Option CString) (xdg home : Option CString)
      → Reached (settings_open file xdg home)
  string_set :
      {s : Settings} (key val : Option CString)
      → Reached s
      → Reached (settings_set_string s key val)
  int_set :
      {s : Settings} (key : Option CString) (val : ℤ)
      → Reached s
      → Reached (settings_set_int s key val)
  bool_set :
      {s : Settings} (key : Option CString) (val : ℤ)
      → Reached s
      → Reached (settings_set_bool s key val)

load-IsBounded :
    (text : Option CString) (path : CString)
    → IsBounded (load text (record { path = path; entries = []; dirty = false }))
unfolding load
load-IsBounded none path = record { count = omega arith; sizes = tt }
load-IsBounded (some text) path =
    let (c, a) = loaded (fgets_lines 643 text) [] (omega arith) tt in
    record { count = c; sizes = a }

settings_set_int-IsBounded :
    (s : Settings) (key : Option CString) (v : ℤ)
    → IsBounded s
    → IsBounded (settings_set_int s key v)
unfolding settings_set_int
settings_set_int-IsBounded s none v b = b
settings_set_int-IsBounded s (some key) v b =
    store_val-IsBounded s key (fit 512 (print_int v)) (omega (arith, length-take 511 (print_int v)))
      b

-- Whatever file was loaded and whatever was set since, the store holds at most 256 entries, with
-- keys of at most 127 bytes and values of at most 511.
pub Reached-IsBounded : {s : Settings} → Reached s → IsBounded s
unfolding settings_open settings_set_string settings_set_bool
Reached-IsBounded (opened file xdg home) = load-IsBounded _ _
Reached-IsBounded (string_set none val r) = Reached-IsBounded r
Reached-IsBounded (string_set (some key) none r) =
    store_val-IsBounded _ key [] (omega arith) (Reached-IsBounded r)
Reached-IsBounded (string_set (some key) (some val) r) =
    store_val-IsBounded _ key (fit 512 val) (omega (arith, length-take 511 val))
      (Reached-IsBounded r)
Reached-IsBounded (int_set key val r) = settings_set_int-IsBounded _ key val (Reached-IsBounded r)
Reached-IsBounded (bool_set key val r) = settings_set_int-IsBounded _ key _ (Reached-IsBounded r)
