-- ===== src/Mbr/Bootcode.antt =====
-- platform/linux/mbr_bootloader.c: the boot code and the boot flag of the first sector.
use winafi.Prelude.{
  ℕ, zero, suc, ◌+◌, ◌-◌, ◌*◌, ◌/◌, ◌%◌, ◌^◌, not, ◌||◌, inl, inr, Option, none, some, List, get_or,
  set, ◌==◌, if◌then◌else◌,
}
use winafi.Prelude.Int.{ℤ, pos, pos_part, ltb_ℤ}
use winafi.Prelude.Text.{CString, codes}
use winafi.Mbr.Disk.{write_at}
use winafi.Mbr.Calls.{
  mbr_ok, device_not_found, invalid_partition, write_failed, read_failed, signature_mismatch, Host,
  File, Outcome, stop, report, open_error, read_mbr, write_mbr, read_bootcode_file,
}

-- The two bytes do not overlap, so their `|` is a sum.
unfoldable pub get_boot_signature : List ℕ → ℕ
get_boot_signature mbr = (get_or mbr 510 0 + 256 * get_or mbr 511 0) % 2 ^ 16

unfoldable pub set_boot_signature : List ℕ → ℕ → List ℕ
set_boot_signature mbr signature = set (set mbr 510 (signature % 256)) 511 (signature / 256 % 256)

-- The sector that is written back: the boot code before the rest, with the signature.
unfoldable pub with_bootcode : List ℕ → List ℕ → List ℕ
with_bootcode bootcode mbr =
    let patched = write_at 0 bootcode mbr in
    if get_boot_signature patched == 0xaa55 then patched else set_boot_signature patched 0xaa55

-- Everything behind the read of the file.
unfoldable pub patch_device : Host → List ℕ → List ℕ → Outcome
patch_device host bootcode d =
    report 10 (codes "Reading MBR from device...") (elim (open_error host.opening) [
      | some e ↦ stop e d
      | none ↦ if not host.memory then stop read_failed d else elim (read_mbr host d) [
        | none ↦ stop read_failed d
        | some mbr ↦ report 30 (codes "Installing bootloader code...") (
            report 60 (codes "Writing MBR to device...") (
              let (written, left) = write_mbr host (with_bootcode bootcode mbr) d in
              if written
              then report 100 (codes "Bootloader installation complete") (stop mbr_ok left)
              else stop write_failed left))
      ]
    ])

-- `device` and `path` are `none` for NULL; the file is what `path` names.
unfoldable pub install_mbr_bootcode :
    Host → Option CString → Option CString → File → List ℕ → Outcome
install_mbr_bootcode host none path file d = stop device_not_found d
install_mbr_bootcode host (some device) none file d = stop device_not_found d
install_mbr_bootcode host (some device) (some path) file d =
    if not host.device_exists then stop device_not_found d else elim (read_bootcode_file file) [
      | inl e ↦ stop e d
      | inr bootcode ↦ patch_device host bootcode d
    ]

-- The loop over the four entries, from entry `i` on.
unfoldable pub flag_partitions : ℕ → ℕ → ℕ → List ℕ → List ℕ
flag_partitions n zero i mbr = mbr
flag_partitions n (suc left) i mbr =
    flag_partitions n left (suc i) (set mbr (446 + i * 16) (if i == n - 1 then 0x80 else 0x00))

-- `n` is an `int`.
unfoldable pub set_boot_flag : Host → Option CString → ℤ → List ℕ → Outcome
set_boot_flag host none n d = stop device_not_found d
set_boot_flag host (some device) n d =
    if ltb_ℤ n (pos 1) || ltb_ℤ (pos 4) n
    then stop invalid_partition d
    else if not host.device_exists
    then stop device_not_found d
    else report 20 (codes "Reading partition table...") (elim (open_error host.opening) [
      | some e ↦ stop e d
      | none ↦ if not host.memory then stop read_failed d else elim (read_mbr host d) [
        | none ↦ stop read_failed d
        | some mbr ↦ report 50 (codes "Setting boot partition flags...") (
            let flagged = flag_partitions (pos_part n) 4 0 mbr in
            if not (get_boot_signature flagged == 0xaa55)
            then stop signature_mismatch d
            else report 75 (codes "Writing partition table...") (
                let (written, left) = write_mbr host flagged d in
                if written
                then report 100 (codes "Boot flag set successfully") (stop mbr_ok left)
                else stop write_failed left))
      ]
    ])
