-- ===== src/Settings/File.antt =====
-- The settings' file: what is written is read back.
use winafi.Prelude.{
  ℕ, suc, ◌+◌, ◌-◌, ◌≤◌, ◌<◌, true, false, ◌||◌, ◌≡◌, refl, sym, ◌∙◌, some, List, [], ◌∷◌, ◌++◌,
  arith, length, leb, ◌==◌, length-append, take_all, All, All-append,
}
use mathlib.Core.List.{append_assoc, append-nil}
use winafi.Prelude.Text.{CString, codes, char_at}
use winafi.Settings.Store.{Entry, Settings}
use winafi.Settings.Text.{
  split_line, parse_line, cut_line_end, load_lines, fgets_lines, load, entry_lines, file_text,
  flush,
}
use winafi.Settings.Bounds.{FitsBuffers}

-- No byte of `s` is one of `cs`.
abbrev pub Free : List ℕ → CString → Type 0
Free cs s = All (λ c. All (λ b. (c == b) ≡ false) cs) s

-- An entry that its line says unambiguously.
pub record IsWritable (e : Entry) : Type 0 where
  pub sizes : FitsBuffers e
  pub key : Free (b'=' ∷ b'\n' ∷ []) e.key
  pub first : (char_at e.key 0 == b'#' || char_at e.key 0 == b'[') ≡ false
  pub val : Free (b'\r' ∷ b'\n' ∷ []) e.val

-- A line that fits in the buffer is one text.
fgets_lines-append :
    (line rest : CString) (room : ℕ)
    → All (λ c. (c == b'\n') ≡ false) line
    → length line < room
    → fgets_lines room (line ++ b'\n' ∷ rest) ≡ (line ++ b'\n' ∷ []) ∷ fgets_lines 643 rest
unfolding fgets_lines
fgets_lines-append [] rest room h r = refl
fgets_lines-append (c ∷ line) rest room (h, hs) r =
    rw (h, large room r, fgets_lines-append line rest (room - 1) hs (omega arith)) refl
  where
    large : (room : ℕ) → suc (length line) < room → leb room 1 ≡ false
    large room r = ground arith

split_line-append :
    (key val : CString)
    → All (λ c. (c == b'=') ≡ false) key
    → split_line (key ++ b'=' ∷ val) ≡ some (key, val)
unfolding split_line
split_line-append [] val h = refl
split_line-append (c ∷ key) val (h, hs) = rw (h, split_line-append key val hs) refl

cut_line_end-append :
    (val : CString) → Free (b'\r' ∷ b'\n' ∷ []) val → cut_line_end (val ++ b'\n' ∷ []) ≡ val
unfolding cut_line_end
cut_line_end-append [] h = refl
cut_line_end-append (c ∷ val) ((r, (n, u)), hs) = rw (r, n, cut_line_end-append val hs) refl

first-append :
    (key rest : CString)
    → (char_at key 0 == b'#' || char_at key 0 == b'[') ≡ false
    → (char_at (key ++ b'=' ∷ rest) 0 == b'#' || char_at (key ++ b'=' ∷ rest) 0 == b'[') ≡ false
first-append [] rest h = refl
first-append (c ∷ key) rest h = h

parsed :
    (k v : CString)
    → All (λ c. (c == b'=') ≡ false) k
    → (char_at k 0 == b'#' || char_at k 0 == b'[') ≡ false
    → Free (b'\r' ∷ b'\n' ∷ []) v
    → (length k ≤ 127) × (length v ≤ 511)
    → parse_line (k ++ b'=' ∷ (v ++ b'\n' ∷ [])) ≡ some (record { key = k; val = v })
unfolding parse_line
parsed k v free first ends (short_k, short_v) =
    rw
      (
        parse_line,
        split_line-append k (v ++ b'\n' ∷ []) free,
        first-append k (v ++ b'\n' ∷ []) first,
        cut_line_end-append v ends,
        take_all 127 k short_k,
        take_all 511 v short_v,
      )
      refl

-- What follows is about one entry.
module _ (e : Entry) (w : IsWritable e) where
  abbrev line : CString
  line = e.key ++ b'=' ∷ e.val

  line_free : All (λ c. (c == b'\n') ≡ false) line
  line_free =
      All-append _ e.key (b'=' ∷ e.val) (weaken e.key (w.key)) (refl, weaken_val e.val (w.val))
    where
      weaken : (s : CString) → Free (b'=' ∷ b'\n' ∷ []) s → All (λ c. (c == b'\n') ≡ false) s
      weaken [] h = tt
      weaken (c ∷ s) ((q, (n, u)), hs) = (n, weaken s hs)

      weaken_val : (s : CString) → Free (b'\r' ∷ b'\n' ∷ []) s → All (λ c. (c == b'\n') ≡ false) s
      weaken_val [] h = tt
      weaken_val (c ∷ s) ((q, (n, u)), hs) = (n, weaken_val s hs)

  key_free : All (λ c. (c == b'=') ≡ false) e.key
  key_free = weaken e.key w.key
    where
      weaken : (s : CString) → Free (b'=' ∷ b'\n' ∷ []) s → All (λ c. (c == b'=') ≡ false) s
      weaken [] h = tt
      weaken (c ∷ s) ((q, r), hs) = (q, weaken s hs)

  line_room : length line < 643
  line_room = let (k, v) = w.sizes in omega (arith, length-append e.key (b'=' ∷ e.val))

  -- The line of the entry is read as the entry.
  parse_line-line : parse_line (line ++ b'\n' ∷ []) ≡ some e
  parse_line-line =
      rw (append_assoc e.key (b'=' ∷ e.val) (b'\n' ∷ []))
        (parsed e.key e.val key_free w.first w.val w.sizes)

entry_lines-line :
    (e : Entry) (es : List Entry)
    → entry_lines (e ∷ es) ≡ (e.key ++ b'=' ∷ e.val) ++ b'\n' ∷ entry_lines es
unfolding entry_lines
entry_lines-line e es = sym (append_assoc e.key (b'=' ∷ e.val) (b'\n' ∷ entry_lines es))

-- The loop over the lines of the entries adds them in their order.
load_lines-entry_lines :
    (es old : List Entry)
    → All IsWritable es
    → length old + length es ≤ 256
    → load_lines (fgets_lines 643 (entry_lines es)) old ≡ old ++ es
unfolding load_lines entry_lines fgets_lines
load_lines-entry_lines [] old h room = sym (append-nil old)
load_lines-entry_lines (e ∷ es) old (w, ws) room =
    rw
      (
        entry_lines-line e es,
        fgets_lines-append (line e w) (entry_lines es) 643 (line_free e w) (line_room e w),
        more old room,
        parse_line-line e w,
      )
      (load_lines-entry_lines es (old ++ e ∷ []) ws (omega (arith, length-append old (e ∷ [])))
        ∙ append_assoc old (e ∷ []) es)
  where
    more : (old : List Entry) → length old + suc (length es) ≤ 256 → leb 256 (length old) ≡ false
    more old r = ground arith

skips_header :
    (es : List Entry)
    → load_lines (fgets_lines 643 (file_text es)) []
      ≡ load_lines (fgets_lines 643 (entry_lines es)) []
unfolding load_lines file_text parse_line split_line
skips_header es =
    rw (fgets_lines-append (codes "[Winafi]") (entry_lines es) 643 (ground arith) (omega arith))
      refl

-- Settings of at most 256 entries, all of which their lines say unambiguously, that were changed and
-- are flushed to a file that can be opened, are the settings that the next load of this file gives.
pub load-flush :
    (s : Settings) (path : CString)
    → All IsWritable s.entries
    → length s.entries ≤ 256
    → s.dirty ≡ true
    → (load ((flush true s).written) (record { path = path; entries = []; dirty = false })).entries
      ≡ s.entries
unfolding load flush
load-flush s path h room dirty =
    rw (dirty) (skips_header s.entries ∙ load_lines-entry_lines s.entries [] h (omega arith))
