-- ===== src/Badblocks/Ends.antt =====
-- The loops of badblocks_check.c end.
use winafi.Prelude.{
  ℕ, zero, suc, ◌+◌, ◌/◌, ◌≤◌, ◌≡◌, ◌⊎◌, inl, inr, refl, Option, none, some, List, arith, ltb, not,
  ◌||◌, Bool-cases, Option-cases,
}
use winafi.Prelude.Int.{ℤ, pos_part, ltb_ℤ, pos}
use winafi.Prelude.Text.{CString}
use winafi.Badblocks.{
  Request, Reply, failed, got, Drive, Scan, begin, sectors, next_request, next_reply, scan_chunk,
  scan_chunks, scan_passes, check_opened, check_sectors, badblocks_check_device, device_size,
  opened,
}

-- No read ends inside of its first sector.
unfoldable pub IsBlockwise : Drive → Type 0
IsBlockwise drive =
    (asked : List Request) (r : Request) (n : ℕ) → drive.reply asked r ≡ got n → (n ≡ 0) ⊎ (512 ≤ n)

sectors_positive : (r : Reply) → ((n : ℕ) → r ≡ got n → (n ≡ 0) ⊎ (512 ≤ n)) → 1 ≤ sectors r
unfolding sectors
sectors_positive failed h = omega arith
sectors_positive (got n) h = elim (h n refl) [ inl empty ↦ ground arith | inr large ↦ ground arith ]

scan_chunk_room :
    (drive : Drive) (total passes pass fuel : ℕ) (s : Scan)
    → IsBlockwise drive
    → total ≤ suc fuel + s.blocks_read
    → total ≤ fuel + (scan_chunk drive total passes pass s).blocks_read
unfolding scan_chunk next_reply IsBlockwise
scan_chunk_room drive total passes pass fuel s h enough =
    omega (arith, sectors_positive _ (h s.asked (next_request total pass s)))

pub scan_chunks_ends :
    (drive : Drive) (total passes pass fuel : ℕ) (s : Scan)
    → IsBlockwise drive
    → total ≤ fuel + s.blocks_read
    → ¬ (scan_chunks drive total passes pass fuel s ≡ none)
unfolding scan_chunks
scan_chunks_ends drive total passes pass zero s h enough e = ground arith
scan_chunks_ends drive total passes pass (suc fuel) s h enough e =
    elim (Bool-cases (ltb s.blocks_read total)) [
      | inr done ↦ absurd (ground arith)
      | inl more ↦
          scan_chunks_ends drive total passes pass fuel (scan_chunk drive total passes pass s) h
            (scan_chunk_room drive total passes pass fuel s h enough) (rw (more) at e)
    ]

scan_passes_ends :
    (drive : Drive) (total passes pass left : ℕ) (s : Scan)
    → IsBlockwise drive
    → ¬ (scan_passes drive total passes pass left s ≡ none)
unfolding scan_passes
scan_passes_ends drive total passes pass zero s h e = absurd (cc e)
scan_passes_ends drive total passes pass (suc left) s h e = elim (Bool-cases (drive.memory pass)) [
  | inr poor ↦ absurd (ground arith)
  | inl room ↦ elim (Option-cases (scan_chunks drive total passes pass total (begin drive s))) [
    | inl stuck ↦
        scan_chunks_ends drive total passes pass total (begin drive s) h (omega arith) stuck
    | inr (s', ended) ↦
        scan_passes_ends drive total passes (suc pass) left s' h (rw (room, ended) at e)
  ]
]

check_opened_ends :
    (drive : Drive) (passes : ℕ) → IsBlockwise drive → ¬ (check_opened drive passes ≡ none)
unfolding check_opened check_sectors
check_opened_ends drive passes h e =
    ground
      (arith, scan_passes_ends drive (device_size drive / 512) passes 0 passes (opened drive) h)

-- Where no read ends inside of its first sector, whatever else the device answers, the check ends: as
-- many rounds as the device has sectors are enough for each pass.
pub badblocks_check_device_ends :
    (drive : Drive) (devnode : Option CString) (passes : ℤ)
    → IsBlockwise drive
    → ¬ (badblocks_check_device drive devnode passes ≡ none)
unfolding badblocks_check_device
badblocks_check_device_ends drive none passes h e = absurd (cc e)
badblocks_check_device_ends drive (some devnode) passes h e =
    elim (Bool-cases (ltb_ℤ passes (pos 1) || ltb_ℤ (pos 4) passes || not drive.opens)) [
      | inl refused ↦ absurd (ground arith)
      | inr fine ↦ check_opened_ends drive (pos_part passes) h (rw (fine) at e)
    ]
