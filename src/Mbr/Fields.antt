-- ===== src/Mbr/Fields.antt =====
-- Where a GPT says that its entries are, read off the bytes of the device: an independent
-- description of the offset that `mark_efi_system_partition` computes from the header it read.
use winafi.Prelude.{
  ℕ, zero, suc, ◌+◌, ◌-◌, ◌*◌, ◌%◌, ◌^◌, ◌≤◌, ◌<◌, ◌≡◌, refl, ap, ◌∙◌, true, List, [], ◌∷◌, arith,
  get_or, take, drop,
}
use winafi.Prelude.Text.{codes, str_eq→eq}
use winafi.Mbr.Disk.{read_at, little, get_or-drop, get_or-read_at}
use winafi.Mbr.Gpt.{entry_size, entry_offset, has_gpt_signature}

-- The number in the `n` bytes of the device at `o`, the lowest first.
abbrev pub field : ℕ → ℕ → List ℕ → ℕ
field zero o d = 0
field (suc n) o d = get_or d o 0 + 256 * field n (o + 1) d

-- The header is the second sector: at byte 72 the first sector of the entries, at byte 84 the size
-- of each.
abbrev pub size_field : List ℕ → ℕ
size_field d = field 4 596 d

-- Entry `n`, counted from 1; a place behind the range of `uint64_t` wraps around.
abbrev pub place_of : ℕ → List ℕ → ℕ
place_of n d = (field 8 584 d * 512 + (n - 1) * size_field d) % 2 ^ 64

little-field : (n o : ℕ) (b : List ℕ) → little n (drop o b) ≡ field n o b
little-field zero o b = refl
little-field (suc n) o b =
    little_step n (drop o b)
    ∙ (ap (λ x. x + 256 * little n (drop 1 (drop o b))) (first o b)
        ∙ ap (λ x. get_or b o 0 + 256 * x)
            (ap (little n) (drop_next o b) ∙ little-field n (o + 1) b))
  where
    little_step : (n : ℕ) (b : List ℕ) → little (suc n) b ≡ get_or b 0 0 + 256 * little n (drop 1 b)
    little_step zero [] = omega arith
    little_step (suc n) [] = omega arith
    little_step n (x ∷ b) = refl

    first : (o : ℕ) (b : List ℕ) → get_or (drop o b) 0 0 ≡ get_or b o 0
    first o b = get_or-drop o b 0 ∙ ap (λ k. get_or b k 0) (omega arith)

    drop_suc : (o : ℕ) (b : List ℕ) → drop 1 (drop o b) ≡ drop (suc o) b
    drop_suc zero [] = refl
    drop_suc zero (x ∷ b) = refl
    drop_suc (suc o) [] = refl
    drop_suc (suc o) (x ∷ b) = drop_suc o b

    after : (o : ℕ) → suc o ≡ o + 1
    after o = omega arith

    drop_next : (o : ℕ) (b : List ℕ) → drop 1 (drop o b) ≡ drop (o + 1) b
    drop_next o b = drop_suc o b ∙ ap (λ k. drop k b) (after o)

-- The field of a header is the field of the device.
field-read_at :
    (n o : ℕ) (d : List ℕ) → o + n ≤ 512 → field n o (read_at 512 512 d) ≡ field n (512 + o) d
field-read_at zero o d h = refl
field-read_at (suc n) o d h =
    ap (λ x. x + 256 * field n (o + 1) (read_at 512 512 d))
      (get_or-read_at 512 512 d o (omega arith))
    ∙ ap (λ x. get_or d (512 + o) 0 + 256 * x)
        (field-read_at n (o + 1) d (omega arith) ∙ ap (λ k. field n k d) (omega arith))

pub entry_size-size_field : (d : List ℕ) → entry_size (read_at 512 512 d) ≡ size_field d
unfolding entry_size
entry_size-size_field d = little-field 4 84 (read_at 512 512 d) ∙ field-read_at 4 84 d (omega arith)

small_product : (a b : ℕ) → a ≤ 127 → b ≤ 512 → a * b < 2 ^ 32
small_product a b h k = grind arith

wrapped : (p q : ℕ) → q < 2 ^ 32 → (p % 2 ^ 64 + q % 2 ^ 32) % 2 ^ 64 ≡ (p + q) % 2 ^ 64
wrapped p q h = omega arith

take_less : (m n : ℕ) (b : List ℕ) → m ≤ n → take m (take n b) ≡ take m b
take_less zero n b h = refl
take_less (suc m) zero b h = absurd (omega arith)
take_less (suc m) (suc n) [] h = refl
take_less (suc m) (suc n) (x ∷ b) h = ap (λ l. x ∷ l) (take_less m n b (omega arith))

pub entry_offset-place_of :
    (n : ℕ) (d : List ℕ)
    → n ≤ 128
    → size_field d ≤ 512
    → entry_offset n (read_at 512 512 d) ≡ place_of n d
unfolding entry_offset
entry_offset-place_of n d few small =
    let first = little-field 8 72 (read_at 512 512 d) ∙ field-read_at 8 72 d (omega arith) in
    rw (first, entry_size-size_field d)
      (wrapped (field 8 584 d * 512) ((n - 1) * size_field d)
        (small_product (n - 1) (size_field d) (omega arith) small))

pub signature_bytes :
    (d : List ℕ) → has_gpt_signature (read_at 512 512 d) ≡ true → read_at 8 512 d ≡ codes "EFI PART"
unfolding has_gpt_signature
signature_bytes d h = str_eq→eq _ _ (rw (take_less 8 512 (drop 512 d) (omega arith)) at h)
