-- ===== src/Mbr/Entry.antt =====
-- What `mark_efi_system_partition` leaves on a device with a GPT.
use winafi.Prelude.{
  ℕ, ◌+◌, ◌-◌, ◌≤◌, ◌<◌, ◌≡◌, ◌⊎◌, inl, inr, refl, ap, ◌∙◌, subst, List, [], ◌∷◌, arith, length,
  get_or, drop, Option-cases, Bool-cases, ltb, ◌||◌, Option, none, some, IsTrue, length-take,
  length-drop,
}
use winafi.Prelude.Int.{ℤ, pos_part}
use winafi.Prelude.Text.{CString, codes}
use winafi.Mbr.Calls.{Host, mbr_ok, read_exactly}
use winafi.Mbr.Gpt.{
  efi_guid, has_gpt_signature, entry_size, entry_offset, in_use, write_guid, rewrite_entry,
  mark_entry, mark_efi_system_partition,
}
use winafi.Mbr.Fields.{
  size_field, place_of, entry_size-size_field, entry_offset-place_of, signature_bytes,
}
use winafi.Mbr.Sector.{read_exactly_lem}
use winafi.Mbr.Disk.{
  read_at, write_at, length-write_at, get_or-write_at, get_or-write_at_left, get_or-write_at_right,
  get_or-write_at_start, get_or-read_at,
}

abbrev header_of : List ℕ → List ℕ
header_of d = read_at 512 512 d

-- The bytes that the code means for the type of an EFI system partition, in the order in which it
-- stores them.
abbrev pub stored_guid : List ℕ
stored_guid =
    0xC1 ∷ 0x2A ∷ 0x73 ∷ 0x28 ∷ 0xF8 ∷ 0x1F ∷ 0x11 ∷ 0xD2 ∷ 0xBA ∷ 0x4B ∷ 0x00 ∷ 0xA0 ∷ 0xC9 ∷ 0x3E
    ∷ 0xC9 ∷ 0x3B ∷ []

-- `e` is `d` with the type of an EFI partition in the 16 bytes at `offset`.
pub record IsMarked (offset : ℕ) (d e : List ℕ) : Type 0 where
  pub guid : (i : ℕ) → i < 16 → get_or e (offset + i) 0 ≡ get_or stored_guid i 0
  pub before : (j : ℕ) → j < offset → get_or e j 0 ≡ get_or d j 0
  pub behind : (j : ℕ) → offset + 16 ≤ j → get_or e j 0 ≡ get_or d j 0

write_guid_ok :
    (host : Host) (offset : ℕ) (entry d : List ℕ)
    → (write_guid host offset entry d).code ≡ mbr_ok
    → IsTrue (in_use entry)
      × ((write_guid host offset entry d).disk ≡ write_at offset (write_at 0 efi_guid entry) d)
unfolding write_guid
write_guid_ok host offset entry d h = ground arith

rewrite_entry_ok :
    (host : Host) (size offset : ℕ) (d : List ℕ)
    → (rewrite_entry host size offset d).code ≡ mbr_ok
    → (read_exactly host size offset d ≡ some (read_at size offset d))
      × (length (read_at size offset d) ≡ size)
      × ((rewrite_entry host size offset d).disk
          ≡ write_at offset (write_at 0 efi_guid (read_at size offset d)) d)
unfolding rewrite_entry
rewrite_entry_ok host size offset d h = elim (Option-cases (read_exactly host size offset d)) [
  | inl e ↦ absurd (cc (rw e at h))
  | inr (entry, e) ↦
      let (same, whole) = read_exactly_lem host size offset d entry e in
      let (used, left) = write_guid_ok host offset entry d (rw e at h) in
      (
        rw same at e,
        rw same at whole,
        rw e (left ∙ ap (λ b. write_at offset (write_at 0 efi_guid b) d) same),
      )
]

mark_entry_ok :
    (host : Host) (n : ℕ) (header d : List ℕ)
    → (mark_entry host n header d).code ≡ mbr_ok
    → IsTrue (has_gpt_signature header)
      × (128 ≤ entry_size header)
      × (entry_size header ≤ 512)
      × ((rewrite_entry host (entry_size header) (entry_offset n header) d).code ≡ mbr_ok)
      × ((mark_entry host n header d).disk
          ≡ (rewrite_entry host (entry_size header) (entry_offset n header) d).disk)
unfolding mark_entry
mark_entry_ok host n header d h = elim (Bool-cases (has_gpt_signature header)) [
  | inr f ↦ absurd (cc (rw f at h))
  | inl t ↦ elim (Bool-cases (ltb (entry_size header) 128 || ltb 512 (entry_size header))) [
    | inl bad ↦ absurd (cc (rw (t, bad) at h))
    | inr good ↦ (t, ground arith, ground arith, rw (t, good) at h, rw (t, good) refl)
  ]
]

-- Behind the type, the entry is written back as it was read.
entry_kept :
    (size offset : ℕ) (d : List ℕ) (k : ℕ)
    → length (read_at size offset d) ≡ size
    → 16 ≤ k
    → k < size
    → get_or (write_at offset (write_at 0 efi_guid (read_at size offset d)) d) (offset + k) 0
      ≡ get_or d (offset + k) 0
entry_kept size offset d k whole low high =
    let room = length-drop offset d in
    let cut = length-take size (drop offset d) in
    let new = length-write_at 0 efi_guid (read_at size offset d) in
    get_or-write_at offset (write_at 0 efi_guid (read_at size offset d)) d k (omega arith)
      (omega arith)
    ∙ (get_or-write_at_right 0 efi_guid (read_at size offset d) k (omega arith)
        ∙ get_or-read_at size offset d k high)

rewritten_entry :
    (size offset : ℕ) (d : List ℕ)
    → 128 ≤ size
    → length (read_at size offset d) ≡ size
    → IsMarked offset d (write_at offset (write_at 0 efi_guid (read_at size offset d)) d)
rewritten_entry size offset d large whole =
    let room = length-drop offset d in
    let cut = length-take size (drop offset d) in
    let entry = read_at size offset d in
    let new = length-write_at 0 efi_guid entry in
    record {
      guid = λ i h.
          get_or-write_at offset (write_at 0 efi_guid entry) d i (omega arith) (omega arith)
          ∙ get_or-write_at_start efi_guid entry i h (omega arith);
      before = λ j h. get_or-write_at_left offset (write_at 0 efi_guid entry) d j h;
      behind = λ j h. elim (lt-cases j (offset + size)) [
        | inl lt ↦
            subst (λ m. get_or (write_at offset (write_at 0 efi_guid entry) d) m 0 ≡ get_or d m 0)
              (split j h) (entry_kept size offset d (j - offset) whole (omega arith) (omega arith))
        | inr ge ↦ get_or-write_at_right offset (write_at 0 efi_guid entry) d j (omega arith)
      ];
    }
  where
    lt-cases : (j n : ℕ) → (j < n) ⊎ (n ≤ j)
    lt-cases j n = omega arith

    split : (j : ℕ) → offset + 16 ≤ j → offset + (j - offset) ≡ j
    split j h = omega arith

mark_efi_ok :
    (host : Host) (device : Option CString) (n : ℤ) (d : List ℕ)
    → (mark_efi_system_partition host device n d).code ≡ mbr_ok
    → (1 ≤ pos_part n)
      × (pos_part n ≤ 128)
      × (header : List ℕ) × (read_exactly host 512 512 d ≡ some header)
      × ((mark_entry host (pos_part n) header d).code ≡ mbr_ok)
      × ((mark_efi_system_partition host device n d).disk
          ≡ (mark_entry host (pos_part n) header d).disk)
unfolding mark_efi_system_partition
mark_efi_ok host none n d h = absurd (ground arith)
mark_efi_ok host (some device) n d h = elim (Option-cases (read_exactly host 512 512 d)) [
  | inl e ↦ absurd (ground arith)
  | inr (header, e) ↦ (ground arith, ground arith, header, e, ground arith, ground arith)
]

-- A `mark_efi_system_partition` that returns MBR_OK was given a number from 1 to 128 and found the
-- signature of a GPT in the second sector, with entries of 128 to 512 bytes there. It leaves a device
-- with the 16 bytes of `stored_guid` at the start of the entry of that number, as far behind the
-- start of the entries as the number and the size in the sector say, and every other byte as it was.
pub mark_efi_system_partition-IsMarked :
    (host : Host) (device : Option CString) (n : ℤ) (d : List ℕ)
    → (mark_efi_system_partition host device n d).code ≡ mbr_ok
    → (1 ≤ pos_part n)
      × (pos_part n ≤ 128)
      × (read_at 8 512 d ≡ codes "EFI PART")
      × (128 ≤ size_field d)
      × (size_field d ≤ 512)
      × IsMarked (place_of (pos_part n) d) d ((mark_efi_system_partition host device n d).disk)
mark_efi_system_partition-IsMarked host device n d h =
    let (low, high, header, r, found, left) = mark_efi_ok host device n d h in
    let (same, whole) = read_exactly_lem host 512 512 d header r in
    let ok = rw same at found in
    let e = left ∙ ap (λ b. (mark_entry host (pos_part n) b d).disk) same in
    let (gpt, small, large, entry, f) = mark_entry_ok host (pos_part n) (header_of d) d ok in
    let start = entry_offset (pos_part n) (header_of d) in
    let (read, size, marked) = rewrite_entry_ok host (entry_size (header_of d)) start d entry in
    let size_is = entry_size-size_field d in
    let most = subst (λ s. s ≤ 512) size_is large in
    (
      low,
      high,
      signature_bytes d (ground arith),
      subst (λ s. 128 ≤ s) size_is small,
      most,
      subst (λ o. IsMarked o d ((mark_efi_system_partition host device n d).disk))
          (entry_offset-place_of (pos_part n) d high most)
          (rw (e, f, marked) (rewritten_entry (entry_size (header_of d)) start d small size)),
    )
