-- ===== src/Badblocks/Examples.antt =====
-- A device of 40 sectors that is healthy, and one whose first read fails.
use winafi.Prelude.{ℕ, ◌≡◌, ◌==◌, refl, true, Option, none, some, arith, if◌then◌else◌}
use winafi.Prelude.Int.{pos}
use winafi.Prelude.Text.{CString, codes}
use winafi.Badblocks.{
  Request, Reply, failed, got, Drive, Checked, badblocks_check_device, check_opened, check_sectors,
  scan_passes, scan_chunks, scan_chunk, next_request, next_reply, begin, seek, opened, sectors,
  to_read, position_after, device_size, finish, progress_at,
}
use winafi.Badblocks.Ends.{IsBlockwise, badblocks_check_device_ends}
use winafi.Badblocks.Covers.{IsHealthy, IsClean, badblocks_check_device-IsClean}

abbrev sdb : CString
sdb = codes "/dev/sdb"

abbrev healthy : Drive
healthy = record {
  opens = true;
  end_offset = some 20480;
  seeks = λ offset. true;
  memory = λ pass. true;
  reply = λ asked r. got r.size;
}

healthy-IsHealthy : IsHealthy healthy 40
unfolding device_size
healthy-IsHealthy = record {
  opens = refl;
  size = refl;
  seeks = λ offset. refl;
  memory = λ pass. refl;
  reads = λ asked r inside. refl;
}

badblocks_check_device-IsClean_example :
    (c : Checked) × (badblocks_check_device healthy (some sdb) (pos 2) ≡ some c) × IsClean 2 40 c
badblocks_check_device-IsClean_example =
    badblocks_check_device-IsClean healthy sdb 2 40 healthy-IsHealthy (omega arith) (omega arith)
      (omega arith)

-- Only the read at the start fails; behind it each read gives one sector up to the end.
abbrev faulty_reply : Request → Reply
faulty_reply r = if r.offset == 0 then failed else if r.offset == 16384 then got 4096 else got 0

abbrev faulty : Drive
faulty = record healthy { reply = λ asked r. faulty_reply r }

faulty-IsBlockwise : IsBlockwise faulty
unfolding IsBlockwise
faulty-IsBlockwise asked r n e = ground arith

badblocks_check_device_ends_example : ¬ (badblocks_check_device faulty (some sdb) (pos 1) ≡ none)
badblocks_check_device_ends_example =
    badblocks_check_device_ends faulty (some sdb) (pos 1) faulty-IsBlockwise

abbrev bad_blocks : Option Checked → ℕ
bad_blocks none = 0
bad_blocks (some c) = c.scan.bad_count

-- The read of 32 sectors that fails counts as one bad block.
faulty_count : bad_blocks (badblocks_check_device faulty (some sdb) (pos 1)) ≡ 1
unfolding badblocks_check_device check_opened check_sectors scan_passes scan_chunks scan_chunk
    next_request next_reply begin seek opened sectors to_read position_after device_size finish
    progress_at
faulty_count = refl
