-- ===== src/Mbr/Disk.antt =====
-- A device as the list of its bytes: read(2) and write(2) at an offset, and numbers stored with the
-- low byte first.
use winafi.Prelude.{
  ℕ, zero, suc, ◌+◌, ◌*◌, ◌≤◌, ◌<◌, ◌≡◌, refl, ap, ◌∙◌, List, [], ◌∷◌, arith, length, get_or, take,
  drop,
}
use native.Mathlib.Numerals.{unary_clauses}

-- What a read of `n` bytes at `o` gives; the device may end before.
abbrev pub read_at : ℕ → ℕ → List ℕ → List ℕ
read_at n o d = take n (drop o d)

-- The device after a write of `b` at `o`; it does not grow.
abbrev pub write_at : ℕ → List ℕ → List ℕ → List ℕ
write_at o b [] = []
write_at zero [] (y ∷ d) = y ∷ d
write_at zero (x ∷ b) (y ∷ d) = x ∷ write_at zero b d
write_at (suc o) b (y ∷ d) = y ∷ write_at o b d

-- The number that memcpy of `n` bytes gives on a little-endian machine.
abbrev pub little : ℕ → List ℕ → ℕ
little zero b = 0
little (suc n) [] = 0
little (suc n) (x ∷ b) = x + 256 * little n b

pub zero_left : (j : ℕ) → 0 + j ≡ j
zero_left j = omega arith

suc_left : (o j : ℕ) → suc o + j ≡ suc (o + j)
suc_left o j = omega arith

pub length-write_at : (o : ℕ) (b d : List ℕ) → length (write_at o b d) ≡ length d
length-write_at o b [] = refl
length-write_at zero [] (y ∷ d) = refl
length-write_at zero (x ∷ b) (y ∷ d) = ap suc (length-write_at zero b d)
length-write_at (suc o) b (y ∷ d) = ap suc (length-write_at o b d)

pub get_or-write_at_left :
    (o : ℕ) (b d : List ℕ) (j : ℕ) → j < o → get_or (write_at o b d) j 0 ≡ get_or d j 0
get_or-write_at_left o b [] j h = refl
get_or-write_at_left zero b (y ∷ d) j h = absurd (omega arith)
get_or-write_at_left (suc o) b (y ∷ d) zero h = refl
get_or-write_at_left (suc o) b (y ∷ d) (suc j) h = get_or-write_at_left o b d j (omega arith)

pub get_or-write_at_right :
    (o : ℕ) (b d : List ℕ) (j : ℕ) → o + length b ≤ j → get_or (write_at o b d) j 0 ≡ get_or d j 0
get_or-write_at_right o b [] j h = refl
get_or-write_at_right zero [] (y ∷ d) j h = refl
get_or-write_at_right zero (x ∷ b) (y ∷ d) zero h = absurd (omega arith)
get_or-write_at_right zero (x ∷ b) (y ∷ d) (suc j) h =
    get_or-write_at_right zero b d j (omega arith)
get_or-write_at_right (suc o) b (y ∷ d) zero h = refl
get_or-write_at_right (suc o) b (y ∷ d) (suc j) h = get_or-write_at_right o b d j (omega arith)

pub get_or-write_at :
    (o : ℕ) (b d : List ℕ) (j : ℕ)
    → j < length b
    → o + j < length d
    → get_or (write_at o b d) (o + j) 0 ≡ get_or b j 0
get_or-write_at o b [] j h k = absurd (omega arith)
get_or-write_at zero [] (y ∷ d) j h k = absurd (omega arith)
get_or-write_at zero (x ∷ b) (y ∷ d) zero h k = refl
get_or-write_at zero (x ∷ b) (y ∷ d) (suc j) h k =
    simp unary_clauses (get_or-write_at zero b d j (omega arith) (omega arith))
get_or-write_at (suc o) b (y ∷ d) j h k =
    rw (suc_left o j) (get_or-write_at o b d j h (omega arith))

pub get_or-write_at_start :
    (b d : List ℕ) (j : ℕ)
    → j < length b
    → j < length d
    → get_or (write_at 0 b d) j 0 ≡ get_or b j 0
get_or-write_at_start b d j h k = rw (zero_left j) at (get_or-write_at 0 b d j h (omega arith))

pub get_or-take : (n : ℕ) (d : List ℕ) (j : ℕ) → j < n → get_or (take n d) j 0 ≡ get_or d j 0
get_or-take zero d j h = absurd (omega arith)
get_or-take (suc n) [] j h = refl
get_or-take (suc n) (y ∷ d) zero h = refl
get_or-take (suc n) (y ∷ d) (suc j) h = get_or-take n d j (omega arith)

pub get_or-drop : (o : ℕ) (d : List ℕ) (j : ℕ) → get_or (drop o d) j 0 ≡ get_or d (o + j) 0
get_or-drop zero d j = ap (λ k. get_or d k 0) (omega arith)
get_or-drop (suc o) [] j = refl
get_or-drop (suc o) (y ∷ d) j = rw (suc_left o j) (get_or-drop o d j)

-- A byte of what was read is the byte of the device.
pub get_or-read_at :
    (n o : ℕ) (d : List ℕ) (j : ℕ) → j < n → get_or (read_at n o d) j 0 ≡ get_or d (o + j) 0
get_or-read_at n o d j h = get_or-take n (drop o d) j h ∙ get_or-drop o d j
