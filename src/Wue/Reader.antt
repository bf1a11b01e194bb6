-- ===== src/Wue/Reader.antt =====
-- How an XML reader nests the elements of a text: an independent description of a well-nested
-- document. It reads names and ends of tags, and attributes in double quotes; it keeps the stack of
-- the open elements.
use winafi.Prelude.{
  ℕ, ◌||◌, ◌≡◌, refl, Option, none, some, List, [], ◌∷◌, ◌++◌, ◌==◌, if◌then◌else◌,
}
use winafi.Prelude.Text.{CString, str_eq}

pub data Mode : Type 0 where
  content tag_open declaration : Mode
  naming closing inside slashed quoted : CString → Mode

pub record Reading : Type 0 where
  pub mode : Mode
  pub stack : List CString

abbrev pub at : Mode → List CString → Option Reading
at m st = some (record { mode = m; stack = st })

-- `</name>` closes the element opened last.
unfoldable pub close : CString → List CString → Option Reading
close name [] = none
close name (top ∷ st) = if str_eq top name then at content st else none

-- One byte; `none` is a text that is not well-nested.
unfoldable pub read_byte : Mode → List CString → ℕ → Option Reading
read_byte content st c = if c == b'<' then at tag_open st else at content st
read_byte tag_open st c =
    if c == b'/'
    then at (closing []) st
    else if c == b'?'
    then at declaration st
    else at (naming (c ∷ [])) st
read_byte declaration st c = if c == b'>' then at content st else at declaration st
read_byte (naming name) st c =
    if c == b'>'
    then at content (name ∷ st)
    else if c == b'/'
    then at (slashed name) st
    else if c == b' ' || c == b'\n'
    then at (inside name) st
    else at (naming (name ++ c ∷ [])) st
read_byte (closing name) st c =
    if c == b'>' then close name st else at (closing (name ++ c ∷ [])) st
read_byte (inside name) st c =
    if c == b'>'
    then at content (name ∷ st)
    else if c == b'/'
    then at (slashed name) st
    else if c == b'"'
    then at (quoted name) st
    else at (inside name) st
read_byte (slashed name) st c = if c == b'>' then at content st else at (inside name) st
read_byte (quoted name) st c = if c == b'"' then at (inside name) st else at (quoted name) st

unfoldable pub read_from : Option Reading → CString → Option Reading
read_from r [] = r
read_from none (c ∷ s) = none
read_from (some r) (c ∷ s) = read_from (read_byte r.mode r.stack c) s

-- From content to content, with every element closed in its turn.
abbrev pub IsNested : CString → Type 0
IsNested text = read_from (at content []) text ≡ at content []

pub read_from-append :
    (r : Option Reading) (s t : CString) → read_from r (s ++ t) ≡ read_from (read_from r s) t
unfolding read_from
read_from-append r [] t = refl
read_from-append none (c ∷ s) [] = refl
read_from-append none (c ∷ s) (d ∷ t) = refl
read_from-append (some r) (c ∷ s) t = read_from-append (read_byte r.mode r.stack c) s t
