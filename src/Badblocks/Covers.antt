-- ===== src/Badblocks/Covers.antt =====
-- What badblocks_check.c reads.
use winafi.Prelude.{
  ℕ, zero, suc, ◌+◌, ◌-◌, ◌*◌, ◌/◌, ◌≤◌, ◌<◌, ◌≡◌, inl, inr, refl, ap, subst, ◌∙◌, true, false,
  Bool, some, List, ◌∷◌, arith, ltb, not, ◌||◌, ◌==◌, Bool-cases, Member, here, there,
}
use winafi.Prelude.Int.{ltb_ℤ, pos}
use winafi.Prelude.Text.{CString}
use winafi.Badblocks.{
  Request, got, Drive, Scan, Checked, bad_of, begin, seek, opened, sectors, to_read, position_after,
  next_request, next_reply, scan_chunk, scan_chunks, scan_passes, check_sectors, check_opened,
  badblocks_check_device, device_size, finish,
}

-- A device of `total` sectors on which every call succeeds and every read gives all that is asked
-- for.
pub record IsHealthy (drive : Drive) (total : ℕ) : Type 0 where
  pub opens : drive.opens ≡ true
  pub size : device_size drive ≡ total * 512
  pub seeks : (offset : ℕ) → drive.seeks offset ≡ true
  pub memory : (pass : ℕ) → drive.memory pass ≡ true
  pub reads :
      (asked : List Request) (r : Request)
      → r.offset + r.size ≤ total * 512
      → drive.reply asked r ≡ got r.size

-- One of the reads holds the whole sector `k`, in the pass `pass`.
pub record Reads (asked : List Request) (pass k : ℕ) : Type 0 where
  pub request : Request
  pub member : Member request asked
  pub its_pass : request.pass ≡ pass
  pub from : request.offset ≤ k * 512
  pub until : (k + 1) * 512 ≤ request.offset + request.size

-- A scan inside of the pass `pass`, at the sector that it counts; `bad` before.
record At (pass : ℕ) (total : ℕ) (bad : ℕ) (s : Scan) : Type 0 where
  place : s.position ≡ s.blocks_read * 512
  bound : s.blocks_read ≤ total
  bad_count : s.bad_count ≡ bad
  covered : (p k : ℕ) → (p < pass) → k < total → Reads s.asked p k
  current : (k : ℕ) → k < s.blocks_read → Reads s.asked pass k

Reads-cons :
    (r : Request) (asked : List Request) (p k : ℕ) → Reads asked p k → Reads (r ∷ asked) p k
Reads-cons r asked p k known = record {
  request = known.request;
  member = there known.member;
  its_pass = known.its_pass;
  from = known.from;
  until = known.until;
}

-- A round asks for `n` whole sectors.
to_read_sectors :
    (total b : ℕ) → b < total → (n : ℕ) × (to_read total b ≡ n * 512) × (1 ≤ n) × (b + n ≤ total)
unfolding to_read
to_read_sectors total b more = elim (Bool-cases (ltb (total - b) 32)) [
  | inl short ↦ (total - b, ground arith, omega arith, omega arith)
  | inr long ↦ (32, ground arith, omega arith, ground arith)
]

sectors_whole : (n : ℕ) → 1 ≤ n → sectors (got (n * 512)) ≡ n
unfolding sectors
sectors_whole n some_sectors = ground arith

-- A round on a healthy device, by the sectors that it reads.
scan_chunk_healthy :
    (drive : Drive) (total pass bad n : ℕ) (s : Scan)
    → IsHealthy drive total
    → At pass total bad s
    → to_read total s.blocks_read ≡ n * 512
    → s.blocks_read + n ≤ total
    → next_reply drive total pass s ≡ got (n * 512)
unfolding next_reply next_request
scan_chunk_healthy drive total pass bad n s h at_s size room =
    h.reads s.asked (next_request total pass s)
      (rw (next_request, size) (omega (arith, at_s.place)))
    ∙ rw (size) refl

scan_chunk-At :
    (drive : Drive) (total passes pass bad : ℕ) (s : Scan)
    → IsHealthy drive total
    → s.blocks_read < total
    → At pass total bad s
    → At pass total bad (scan_chunk drive total passes pass s)
      × (s.blocks_read < (scan_chunk drive total passes pass s).blocks_read)
unfolding scan_chunk next_request position_after
scan_chunk-At drive total passes pass bad s h more at_s =
    let (n, size, some_sectors, room) = to_read_sectors total s.blocks_read more in
    let reply = scan_chunk_healthy drive total pass bad n s h at_s size room in
    let counted = ap sectors reply ∙ sectors_whole n some_sectors in
    (
      record {
        place = rw (counted, reply) (omega (arith, at_s.place));
        bound = omega (arith, room, counted);
        bad_count = ap (λ r. s.bad_count + bad_of r) reply ∙ omega (arith, at_s.bad_count);
        covered = λ p k before inside. Reads-cons _ s.asked p k (at_s.covered p k before inside);
        current = λ k inside. elim (Bool-cases (ltb k s.blocks_read)) [
          | inr new ↦ record {
            request = next_request total pass s;
            member = here refl;
            its_pass = refl;
            from = ground (arith, at_s.place);
            until = rw (size) (omega (arith, at_s.place, inside, counted));
          }
          | inl old ↦ Reads-cons _ s.asked pass k (at_s.current k (ground arith))
        ];
      },
      omega (arith, counted, some_sectors),
    )

-- The loop from a place inside of a pass, with enough fuel, reaches the end of the device.
scan_chunks-At :
    (drive : Drive) (total passes pass bad fuel : ℕ) (s : Scan)
    → IsHealthy drive total
    → total ≤ fuel + s.blocks_read
    → At pass total bad s
    → (end : Scan) × (scan_chunks drive total passes pass fuel s ≡ some end)
      × At pass total bad end
      × (end.blocks_read ≡ total)
unfolding scan_chunks
scan_chunks-At drive total passes pass bad zero s h enough at_s =
    (s, ground (arith, at_s.bound), at_s, omega (arith, at_s.bound))
scan_chunks-At drive total passes pass bad (suc fuel) s h enough at_s =
    elim (Bool-cases (ltb s.blocks_read total)) [
      | inr done ↦ (s, rw (done) refl, at_s, ground (arith, at_s.bound))
      | inl more ↦
          let (next, further) = scan_chunk-At drive total passes pass bad s h (ground arith) at_s in
          let (end, ran, at_end, full) =
            scan_chunks-At drive total passes pass bad fuel (scan_chunk drive total passes pass s) h
              (omega (arith, further, enough)) next in
          (end, rw (more) ran, at_end, full)
    ]

-- The start of a pass is at the first sector; the passes before it are complete.
begin-At :
    (drive : Drive) (total pass bad : ℕ) (s : Scan)
    → IsHealthy drive total
    → s.bad_count ≡ bad
    → ((p k : ℕ) → p < pass → k < total → Reads s.asked p k)
    → At pass total bad (begin drive s)
unfolding begin seek
begin-At drive total pass bad s h none_bad before = record {
  place = rw (h.seeks 0) refl;
  bound = omega arith;
  bad_count = none_bad;
  covered = before;
  current = λ k inside. absurd (omega arith);
}

-- A pass that is at its end has read every sector.
ended_pass :
    (total pass bad : ℕ) (s : Scan)
    → At pass total bad s
    → s.blocks_read ≡ total
    → (p k : ℕ) → p < suc pass
    → k < total
    → Reads s.asked p k
ended_pass total pass bad s at_s full p k before inside = elim (Bool-cases (ltb p pass)) [
  | inl earlier ↦ at_s.covered p k (ground arith) inside
  | inr current ↦
      subst (λ p'. Reads s.asked p' k) (ground arith) (at_s.current k (omega (arith, full, inside)))
]

scan_passes_healthy :
    (drive : Drive) (total passes pass left : ℕ) (s : Scan)
    → IsHealthy drive total
    → s.bad_count ≡ 0
    → ((p k : ℕ) → p < pass → k < total → Reads s.asked p k)
    → (end : Scan) × (scan_passes drive total passes pass left s ≡ some (true, end))
      × (end.bad_count ≡ 0)
      × ((p k : ℕ) → p < pass + left → k < total → Reads end.asked p k)
unfolding scan_passes
scan_passes_healthy drive total passes pass zero s h none_bad before =
    (s, refl, none_bad, λ p k inside sector. before p k (omega arith) sector)
scan_passes_healthy drive total passes pass (suc left) s h none_bad before =
    let (middle, ran, at_end, full) =
      scan_chunks-At drive total passes pass 0 total (begin drive s) h (omega arith)
        (begin-At drive total pass 0 s h none_bad before) in
    let (end, done, clean, all) =
      scan_passes_healthy drive total passes (suc pass) left middle h at_end.bad_count
        (ended_pass total pass 0 middle at_end full) in
    (end, rw (h.memory pass, ran) done, clean, λ p k inside sector. all p k (omega arith) sector)

check_sectors_healthy :
    (drive : Drive) (passes total : ℕ)
    → IsHealthy drive total
    → (end : Scan) × (check_sectors drive passes total ≡ some (finish total passes (true, end)))
      × (end.bad_count ≡ 0)
      × ((p k : ℕ) → p < passes → k < total → Reads end.asked p k)
unfolding check_sectors opened
check_sectors_healthy drive passes total h =
    let (end, ran, clean, all) =
      scan_passes_healthy drive total passes 0 passes (opened drive) h refl
        (λ p k before inside. absurd (omega arith)) in
    (end, rw (check_sectors, ran) refl, clean, λ p k inside sector. all p k (omega arith) sector)

check_opened_healthy :
    (drive : Drive) (passes total : ℕ)
    → IsHealthy drive total
    → 1 ≤ total
    → check_opened drive passes ≡ check_sectors drive passes total
unfolding check_opened
check_opened_healthy drive passes total h some_sectors =
    let whole : device_size drive / 512 ≡ total = omega (arith, h.size) in
    let full : (device_size drive == 0) ≡ false = ground (arith, h.size) in rw (full, whole) refl

-- The check of a healthy device that is not empty.
pub record IsClean (passes total : ℕ) (c : Checked) : Type 0 where
  pub succeeded : c.succeeded ≡ true
  pub no_bad_blocks : c.scan.bad_count ≡ 0
  pub all_read : (p k : ℕ) → p < passes → k < total → Reads c.scan.asked p k

accepted_passes :
    (passes : ℕ) (opens : Bool)
    → opens ≡ true
    → 1 ≤ passes
    → passes ≤ 4
    → (ltb_ℤ (pos passes) (pos 1) || ltb_ℤ (pos 4) (pos passes) || not opens) ≡ false
accepted_passes passes opens h least most = ground arith

-- On a device of at least one sector, where every call succeeds and every read gives all that is
-- asked for, one to four passes end with success, find no bad block, and read every sector of the
-- device in each pass.
pub badblocks_check_device-IsClean :
    (drive : Drive) (devnode : CString) (passes total : ℕ)
    → IsHealthy drive total
    → 1 ≤ total
    → 1 ≤ passes
    → passes ≤ 4
    → (c : Checked) × (badblocks_check_device drive (some devnode) (pos passes) ≡ some c)
      × IsClean passes total c
unfolding badblocks_check_device finish
badblocks_check_device-IsClean drive devnode passes total h some_sectors least most =
    let (end, ran, clean, all) = check_sectors_healthy drive passes total h in
    let accepted = accepted_passes passes drive.opens h.opens least most in
    (
      finish total passes (true, end),
      rw (badblocks_check_device, accepted)
          (check_opened_healthy drive passes total h some_sectors ∙ ran),
      record { succeeded = refl; no_bad_blocks = clean; all_read = all },
    )
