-- ===== src/Mbr/Calls.antt =====
-- platform/linux/mbr_bootloader.c: the error codes, what the system answers, and the reads and
-- writes that the operations share.
use winafi.Prelude.{
  ℕ, Bool, false, not, ◌⊎◌, inl, inr, Option, none, some, List, [], ◌∷◌, length, take, ltb, ◌==◌,
  if◌then◌else◌,
}
use winafi.Prelude.Int.{ℤ, pos, negsuc}
use winafi.Prelude.Text.{CString, codes}
use winafi.Mbr.Disk.{read_at, write_at}

pub data Code : Type 0 where
  mbr_ok : Code
  device_not_found : Code
  permission_denied : Code
  invalid_partition : Code
  bootcode_not_found : Code
  write_failed : Code
  gpt_partition_table : Code
  device_busy : Code
  invalid_bootcode_size : Code
  read_failed : Code
  signature_mismatch : Code
  partition_table_corrupt : Code

abbrev pub code_value : Code → ℤ
code_value mbr_ok = pos 0
code_value device_not_found = negsuc 0
code_value permission_denied = negsuc 1
code_value invalid_partition = negsuc 2
code_value bootcode_not_found = negsuc 3
code_value write_failed = negsuc 4
code_value gpt_partition_table = negsuc 5
code_value device_busy = negsuc 6
code_value invalid_bootcode_size = negsuc 7
code_value read_failed = negsuc 8
code_value signature_mismatch = negsuc 9
code_value partition_table_corrupt = negsuc 10

unfoldable pub get_mbr_error_message : ℤ → CString
get_mbr_error_message (pos n) = if n == 0 then codes "Success" else codes "Unknown error"
get_mbr_error_message (negsuc n) =
    if n == 0
    then codes "Device not found or doesn't exist"
    else if n == 1
    then codes "Permission denied (requires root)"
    else if n == 2
    then codes "Invalid partition number (must be 1-4 for MBR)"
    else if n == 3
    then codes "Bootcode file not found"
    else if n == 4
    then codes "Failed to write to device (disk full or I/O error)"
    else if n == 5
    then codes "Device has GPT partition table (MBR bootcode not applicable)"
    else if n == 6
    then codes "Device is in use or mounted"
    else if n == 7
    then codes "Bootcode file must be exactly 446 bytes"
    else if n == 8
    then codes "Failed to read from device"
    else if n == 9
    then codes "MBR boot signature mismatch (expected 0xAA55)"
    else if n == 10
    then codes "Partition table appears corrupted"
    else codes "Unknown error"

-- How open(2) of the device ends; EACCES and EBUSY are told apart from the other errors.
pub data Opened : Type 0 where
  opened : Opened
  eacces : Opened
  ebusy : Opened
  other_error : Opened

-- What the system answers while one function runs: `device_exists` is stat(2), `memory` malloc,
-- `seeks o` an lseek to `o`, `reads o` a read there without error, `accepts o b` the number of
-- bytes of `b` that a write there takes, `syncs` fsync.
pub record Host : Type 0 where
  pub device_exists : Bool
  pub opening : Opened
  pub memory : Bool
  pub seeks : ℕ → Bool
  pub reads : ℕ → Bool
  pub accepts : ℕ → List ℕ → ℕ
  pub syncs : Bool

-- The file with the boot code: `size` is stat(2), `none` where it fails; `content` is what one read
-- of 446 bytes finds, `none` for an error.
pub record File : Type 0 where
  pub size : Option ℕ
  pub memory : Bool
  pub opens : Bool
  pub content : Option (List ℕ)

-- What a function leaves: its code, the device, and the reports to the callback in their order.
pub record Outcome : Type 0 where
  pub code : Code
  pub disk : List ℕ
  pub reports : List (ℕ × CString)

abbrev pub stop : Code → List ℕ → Outcome
stop c d = record { code = c; disk = d; reports = [] }

abbrev pub report : ℕ → CString → Outcome → Outcome
report percent message o = record o { reports = (percent, message) ∷ o.reports }

-- The errors of open(2); `none` means that the device is open.
abbrev pub open_error : Opened → Option Code
open_error opened = none
open_error eacces = some permission_denied
open_error ebusy = some device_busy
open_error other_error = some device_not_found

-- lseek and a read of exactly `n` bytes.
unfoldable pub read_exactly : Host → ℕ → ℕ → List ℕ → Option (List ℕ)
read_exactly host n o d =
    if not (host.seeks o)
    then none
    else if not (host.reads o)
    then none
    else if not (length (read_at n o d) == n)
    then none
    else some (read_at n o d)

unfoldable pub read_mbr : Host → List ℕ → Option (List ℕ)
read_mbr host d = read_exactly host 512 0 d

-- lseek, a write that takes all of `b`, and fsync: the success, and the device afterwards. A short
-- write leaves its first bytes on the device.
unfoldable pub write_exactly : Host → ℕ → List ℕ → List ℕ → Bool × List ℕ
write_exactly host o b d =
    if not (host.seeks o)
    then (false, d)
    else if ltb (host.accepts o b) (length b)
    then (false, write_at o (take (host.accepts o b) b) d)
    else (host.syncs, write_at o b d)

unfoldable pub write_mbr : Host → List ℕ → List ℕ → Bool × List ℕ
write_mbr host mbr d = write_exactly host 0 mbr d

-- A read of `n` bytes that has to give all of them.
unfoldable pub whole_read : ℕ → List ℕ → Code ⊎ List ℕ
whole_read n b = if length (take n b) == n then inr (take n b) else inl invalid_bootcode_size

-- The 446 bytes of the file, or the code of the error.
unfoldable pub read_bootcode_file : File → Code ⊎ List ℕ
read_bootcode_file file = elim (file.size) [
  | none ↦ inl bootcode_not_found
  | some n ↦
      if not (n == 446)
      then inl invalid_bootcode_size
      else if not file.memory
      then inl write_failed
      else if not file.opens
      then inl bootcode_not_found
      else elim (file.content) [ none ↦ inl read_failed | some b ↦ whole_read 446 b ]
]
