-- ===== src/Mkfs/Shell.antt =====
-- How a POSIX shell splits a command line into words, for lines with single quotes and no other
-- construct: what the code relies on when it quotes a label.
use winafi.Prelude.{
  ℕ, Bool, ◌||◌, not, Option, none, some, List, [], ◌∷◌, ◌++◌, any, ◌==◌, if◌then◌else◌,
}
use winafi.Prelude.Text.{CString, codes}

-- Bytes that mean something to the shell outside quotes, less the space and the single quote.
abbrev pub shell_special : CString
shell_special = codes "|&;<>()$`\\\"*?[]#~=%{}!\n\t"

unfoldable pub is_special : ℕ → Bool
is_special c = any (λ d. d == c) shell_special

unfoldable pub add_word : CString → Option (List CString) → Option (List CString)
add_word w none = none
add_word w (some ws) = some (w ∷ ws)

unfoldable mutual
  -- Outside of quotes, with the word begun so far. `none` is a line that is not of this form.
  pub unquoted : Option CString → CString → Option (List CString)
  unquoted none [] = some []
  unquoted (some w) [] = some (w ∷ [])
  unquoted none (c ∷ s) =
      if c == b' '
      then unquoted none s
      else if c == b'\''
      then quoted [] s
      else if is_special c
      then none
      else unquoted (some (c ∷ [])) s
  unquoted (some w) (c ∷ s) =
      if c == b' '
      then add_word w (unquoted none s)
      else if c == b'\''
      then quoted w s
      else if is_special c
      then none
      else unquoted (some (w ++ c ∷ [])) s

  pub quoted : CString → CString → Option (List CString)
  quoted w [] = none
  quoted w (c ∷ s) = if c == b'\'' then unquoted (some w) s else quoted (w ++ c ∷ []) s

unfoldable pub words : CString → Option (List CString)
words line = unquoted none line

-- A byte that stands for itself outside of quotes.
unfoldable pub is_plain : ℕ → Bool
is_plain c = not (c == b' ' || c == b'\'' || is_special c)
