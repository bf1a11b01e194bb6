-- ===== src/Wue/Moves.antt =====
-- Texts by what they do to the reader's state, and the pieces of the answer file with no literal.
use winafi.Prelude.{
  ℕ, zero, suc, ◌+◌, ◌/◌, ◌%◌, Bool, true, false, ◌≡◌, refl, ap, ◌∙◌, inl, inr, List, [], ◌∷◌, ◌++◌,
  All, any, ◌==◌, if◌then◌else◌, Bool-cases, arith,
}
use winafi.Prelude.Text.{CString, decimal, digits_from}
use winafi.Wue.Generate.{sanitize, sanitized, arch_name}
use winafi.Wue.Reader.{Mode, content, quoted, at, read_byte, read_from, read_from-append}

-- A text that takes the reader from one state to another, and two of them in a row.
pub record Moves (m : Mode) (st : List CString) (text : CString) (m' : Mode) (st' : List CString)
    : Type 0 where
  pub moves : read_from (at m st) text ≡ at m' st'

infixr 5 ◌>=>◌
pub ◌>=>◌ :
    {m m' m'' : Mode} {st st' st'' : List CString} {s t : CString}
    → Moves m st s m' st'
    → Moves m' st' t m'' st''
    → Moves m st (s ++ t) m'' st''
◌>=>◌ {s = s} {t = t} h k = record {
  moves = read_from-append _ s t ∙ (ap (λ r. read_from r t) (h.moves) ∙ k.moves);
}

-- A text that leaves the stack as it is.
abbrev pub Closed : CString → Type 0
Closed text = (st : List CString) → Moves content st text content st

pub Closed-if : (b : Bool) (s : CString) → Closed s → Closed (if b then s else [])
unfolding read_from
Closed-if true s h st = h st
Closed-if false s h st = record { moves = refl }

-- Text without `<` is content.
pub plain-Closed : (s : CString) → All (λ c. (c == b'<') ≡ false) s → Closed s
unfolding read_from read_byte
plain-Closed [] h st = record { moves = refl }
plain-Closed (c ∷ s) (h, hs) st = record { moves = rw h ((plain-Closed s hs st).moves) }

digits_plain :
    (f n : ℕ) (acc : CString)
    → All (λ c. (c == b'<') ≡ false) acc
    → All (λ c. (c == b'<') ≡ false) (digits_from f n acc)
unfolding digits_from
digits_plain zero n acc h = h
digits_plain (suc f) n acc h = elim (Bool-cases (n / 10 == 0)) [
  | inl last ↦ rw last (digit n, h)
  | inr more ↦ rw more (digits_plain f (n / 10) ((b'0' + n % 10) ∷ acc) (digit n, h))
]
  where
    digit : (n : ℕ) → (b'0' + n % 10 == b'<') ≡ false
    digit n = ground arith

pub decimal-Closed : (n : ℕ) → Closed (decimal n)
unfolding decimal
decimal-Closed n = plain-Closed (digits_from (n + 1) n []) (digits_plain (n + 1) n [] tt)

-- A sanitized name has no `<`.
sanitize_plain : (c : ℕ) → (sanitize c == b'<') ≡ false
unfolding sanitize any
sanitize_plain c = ground arith

pub sanitized-Closed : (s : CString) → Closed (sanitized s)
unfolding sanitized read_from read_byte
sanitized-Closed [] st = record { moves = refl }
sanitized-Closed (c ∷ s) st = record {
  moves = rw (sanitize_plain c) ((sanitized-Closed s st).moves);
}

-- The name of the architecture stands between quotes.
pub arch_quoted :
    (arch : ℕ) (name : CString) (st : List CString)
    → Moves (quoted name) st (arch_name arch) (quoted name) st
unfolding arch_name read_from read_byte
arch_quoted arch name st = record { moves = ground arith }
