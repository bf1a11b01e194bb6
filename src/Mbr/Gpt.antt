-- ===== src/Mbr/Gpt.antt =====
-- platform/linux/mbr_bootloader.c: `mark_efi_system_partition`.
use winafi.Prelude.{
  ℕ, ◌+◌, ◌-◌, ◌*◌, ◌%◌, ◌^◌, Bool, not, ◌||◌, Option, none, some, List, [], ◌∷◌, length, take,
  drop, ltb, ◌==◌, if◌then◌else◌,
}
use winafi.Prelude.Int.{ℤ, pos, pos_part, ltb_ℤ}
use winafi.Prelude.Text.{CString, codes, str_eq}
use winafi.Mbr.Disk.{write_at, little}
use winafi.Mbr.Calls.{
  mbr_ok, device_not_found, invalid_partition, write_failed, gpt_partition_table, read_failed,
  partition_table_corrupt, Host, Outcome, stop, report, open_error, read_exactly,
}

-- EFI_SYSTEM_PARTITION_GUID.
abbrev pub efi_guid : List ℕ
efi_guid =
    0xC1 ∷ 0x2A ∷ 0x73 ∷ 0x28 ∷ 0xF8 ∷ 0x1F ∷ 0x11 ∷ 0xD2 ∷ 0xBA ∷ 0x4B ∷ 0x00 ∷ 0xA0 ∷ 0xC9 ∷ 0x3E
    ∷ 0xC9 ∷ 0x3B ∷ []

-- memcmp of the first 8 bytes.
unfoldable pub has_gpt_signature : List ℕ → Bool
has_gpt_signature header = str_eq (take 8 header) (codes "EFI PART")

-- Of the header: the size of an entry, and the offset of entry `n`, counted from 1. The product is
-- one of 32 bits, the rest one of 64.
unfoldable pub entry_size : List ℕ → ℕ
entry_size header = little 4 (drop 84 header)

unfoldable pub entry_offset : ℕ → List ℕ → ℕ
entry_offset n header =
    (little 8 (drop 72 header) * 512 % 2 ^ 64 + (n - 1) * entry_size header % 2 ^ 32) % 2 ^ 64

-- `attributes & 1` for the attributes at byte 48.
unfoldable pub in_use : List ℕ → Bool
in_use entry = little 8 (drop 48 entry) % 2 == 1

-- Everything behind the read of the entry.
unfoldable pub write_guid : Host → ℕ → List ℕ → List ℕ → Outcome
write_guid host offset entry d =
    if not (in_use entry)
    then stop invalid_partition d
    else report 60 (codes "Updating partition type GUID...") (
        report 70 (codes "Writing partition entry...") (
          if not (host.seeks offset)
          then stop write_failed d
          else if ltb (host.accepts offset (write_at 0 efi_guid entry)) (length entry)
          then stop write_failed (
              write_at offset
                (take (host.accepts offset (write_at 0 efi_guid entry)) (write_at 0 efi_guid entry))
                d)
          else report 90 (codes "Syncing to disk...") (
              if not host.syncs
              then stop write_failed (write_at offset (write_at 0 efi_guid entry) d)
              else report 100 (codes "EFI System Partition marked successfully")
                  (stop mbr_ok (write_at offset (write_at 0 efi_guid entry) d)))))

-- The entry of `size` bytes at `offset`.
unfoldable pub rewrite_entry : Host → ℕ → ℕ → List ℕ → Outcome
rewrite_entry host size offset d =
    report 50 (codes "Reading partition entry...") (elim (read_exactly host size offset d) [
      | none ↦ stop read_failed d
      | some entry ↦ write_guid host offset entry d
    ])

-- Everything behind the read of the header.
unfoldable pub mark_entry : Host → ℕ → List ℕ → List ℕ → Outcome
mark_entry host n header d =
    if not (has_gpt_signature header)
    then stop gpt_partition_table d
    else report 40 (codes "Locating partition entry...") (
        if ltb (entry_size header) 128 || ltb 512 (entry_size header)
        then stop partition_table_corrupt d
        else rewrite_entry host (entry_size header) (entry_offset n header) d)

unfoldable pub mark_efi_system_partition : Host → Option CString → ℤ → List ℕ → Outcome
mark_efi_system_partition host none n d = stop device_not_found d
mark_efi_system_partition host (some device) n d =
    if ltb_ℤ n (pos 1) || ltb_ℤ (pos 128) n
    then stop invalid_partition d
    else if not host.device_exists
    then stop device_not_found d
    else report 20 (codes "Reading GPT header...") (elim (open_error host.opening) [
      | some e ↦ stop e d
      | none ↦ elim (read_exactly host 512 512 d) [
        | none ↦ stop read_failed d
        | some header ↦ mark_entry host (pos_part n) header d
      ]
    ])
