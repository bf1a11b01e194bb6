-- ===== src/Badblocks.antt =====
-- platform/linux/badblocks_check.c: `badblocks_check_device`, which reads a whole device.
pub mod Ends
pub mod Covers
mod Examples
use winafi.Prelude.{
  ℕ, zero, suc, ◌+◌, ◌-◌, ◌*◌, ◌/◌, ◌^◌, Bool, true, false, not, ◌||◌, Option, none, some, List, [],
  ◌∷◌, ltb, ◌==◌, if◌then◌else◌,
}
use winafi.Prelude.Int.{ℤ, pos, negsuc, pos_part, ltb_ℤ}
use winafi.Prelude.Text.{CString}

-- A read of `size` bytes at `offset`, in the pass `pass`.
pub record Request : Type 0 where
  pub pass : ℕ
  pub offset : ℕ
  pub size : ℕ

-- What read(2) returns: -1, or the number of bytes.
pub data Reply : Type 0 where
  failed : Reply
  got : ℕ → Reply

-- The opened device. A reply may depend on the reads before it, the newest first. `seeks` is whether
-- lseek can move to an offset; a seek that fails moves nothing.
pub record Drive : Type 0 where
  pub opens : Bool
  -- `lseek(fd, 0, SEEK_END)`, `none` for -1
  pub end_offset : Option ℕ
  pub seeks : ℕ → Bool
  -- whether malloc gives the buffer of a pass
  pub memory : ℕ → Bool
  pub reply : List Request → Request → Reply

-- badblocks_progress_t.
pub record Progress : Type 0 where
  pub total_blocks : ℕ
  pub bad_blocks_count : ℕ
  pub current_block : ℕ
  pub test_passes_completed : ℕ
  pub test_passes_total : ℕ

-- The offset of the file and the variables of the loops; `asked` are the reads and `reports` the
-- calls of the callback, the newest first.
pub record Scan : Type 0 where
  pub position : ℕ
  pub blocks_read : ℕ
  pub bad_count : ℕ
  pub asked : List Request
  pub reports : List Progress

unfoldable pub seek : Drive → ℕ → ℕ → ℕ
seek drive target position = if drive.seeks target then target else position

-- 32 sectors, or what is left.
unfoldable pub to_read : ℕ → ℕ → ℕ
to_read total blocks_read =
    if ltb (total - blocks_read) 32 then (total - blocks_read) * 512 else 32 * 512

-- The sectors that a reply counts for.
unfoldable pub sectors : Reply → ℕ
sectors failed = 1
sectors (got n) = if n == 0 then 1 else n / 512

unfoldable pub position_after : Drive → ℕ → ℕ → Reply → ℕ
position_after drive position size failed = seek drive (position + size) position
position_after drive position size (got n) = position + n

abbrev pub bad_of : Reply → ℕ
bad_of failed = 1
bad_of (got n) = 0

-- `passes` of them, of which this is the one with the number `pass`.
unfoldable pub progress_at : ℕ → ℕ → ℕ → ℕ → Progress
progress_at total passes pass current = record {
  total_blocks = total;
  bad_blocks_count = 0;
  current_block = current;
  test_passes_completed = pass;
  test_passes_total = passes;
}

-- The read of a round.
unfoldable pub next_request : ℕ → ℕ → Scan → Request
next_request total pass s = record {
  pass = pass;
  offset = s.position;
  size = to_read total s.blocks_read;
}

unfoldable pub next_reply : Drive → ℕ → ℕ → Scan → Reply
next_reply drive total pass s = drive.reply s.asked (next_request total pass s)

-- One round of the loop over the chunks.
unfoldable pub scan_chunk : Drive → ℕ → ℕ → ℕ → Scan → Scan
scan_chunk drive total passes pass s =
    let reply = next_reply drive total pass s in
    record {
      position = position_after drive s.position (to_read total s.blocks_read) reply;
      blocks_read = s.blocks_read + sectors reply;
      bad_count = s.bad_count + bad_of reply;
      asked = next_request total pass s ∷ s.asked;
      reports = progress_at total passes pass (s.blocks_read + sectors reply) ∷ s.reports;
    }

-- The loop, on fuel; `none` where that runs out.
unfoldable pub scan_chunks : Drive → ℕ → ℕ → ℕ → ℕ → Scan → Option Scan
scan_chunks drive total passes pass zero s = if ltb s.blocks_read total then none else some s
scan_chunks drive total passes pass (suc fuel) s =
    let rest = scan_chunks drive total passes pass fuel (scan_chunk drive total passes pass s) in
    if ltb s.blocks_read total then rest else some s

-- The start of a pass.
unfoldable pub begin : Drive → Scan → Scan
begin drive s = record s { position = seek drive 0 s.position; blocks_read = 0 }

-- The passes that are left, from the one with the number `pass` on; `false` where there is no
-- memory. A pass has as much fuel as the device has sectors.
unfoldable pub scan_passes : Drive → ℕ → ℕ → ℕ → ℕ → Scan → Option (Bool × Scan)
scan_passes drive total passes pass zero s = some (true, s)
scan_passes drive total passes pass (suc left) s =
    if not (drive.memory pass)
    then some (false, record s { position = seek drive 0 s.position })
    else elim (scan_chunks drive total passes pass total (begin drive s)) [
      | none ↦ none
      | some s' ↦ scan_passes drive total passes (suc pass) left s'
    ]

-- The result of the check, 0 being `true`, and its scan.
pub record Checked : Type 0 where
  pub succeeded : Bool
  pub scan : Scan

abbrev pub new_scan : Scan
new_scan = record { position = 0; blocks_read = 0; bad_count = 0; asked = []; reports = [] }

-- The last call of the callback.
unfoldable pub finish : ℕ → ℕ → Bool × Scan → Checked
finish total passes (false, s) = record { succeeded = false; scan = s }
finish total passes (true, s) = record {
  succeeded = true;
  scan = record s {
    reports =
        record {
          total_blocks = total;
          bad_blocks_count = s.bad_count;
          current_block = s.blocks_read;
          test_passes_completed = passes;
          test_passes_total = passes;
        }
        ∷ s.reports;
  };
}

-- The size of the device; the -1 of lseek is stored in a `uint64_t`.
unfoldable pub device_size : Drive → ℕ
device_size drive = elim drive.end_offset [ none ↦ 2 ^ 64 - 1 | some n ↦ n ]

abbrev end_position : Option ℕ → ℕ
end_position none = 0
end_position (some n) = n

-- The scan before the passes.
unfoldable pub opened : Drive → Scan
opened drive = record new_scan { position = seek drive 0 (end_position drive.end_offset) }

unfoldable pub check_sectors : Drive → ℕ → ℕ → Option Checked
check_sectors drive passes total = elim (scan_passes drive total passes 0 passes (opened drive)) [
  | none ↦ none
  | some r ↦ some (finish total passes r)
]

unfoldable pub check_opened : Drive → ℕ → Option Checked
check_opened drive passes =
    if device_size drive == 0
    then some (record { succeeded = false; scan = new_scan })
    else check_sectors drive passes (device_size drive / 512)

-- The outer `none` is a loop that runs out of fuel; `devnode` is `none` for NULL.
unfoldable pub badblocks_check_device : Drive → Option CString → ℤ → Option Checked
badblocks_check_device drive none passes = some (record { succeeded = false; scan = new_scan })
badblocks_check_device drive (some devnode) passes =
    if ltb_ℤ passes (pos 1) || ltb_ℤ (pos 4) passes || not drive.opens
    then some (record { succeeded = false; scan = new_scan })
    else check_opened drive (pos_part passes)
