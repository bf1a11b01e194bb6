-- ===== src/Mbr/Install.antt =====
-- platform/linux/mbr_bootloader.c: `install_mbr_bootloader`.
use winafi.Prelude.{ℕ, Bool, not, Option, none, some, List, ◌++◌, if◌then◌else◌}
use winafi.Prelude.Int.{ℤ}
use winafi.Prelude.Text.{CString, codes}
use winafi.Mbr.Calls.{mbr_ok, device_not_found, Host, File, Outcome, stop, report}
use winafi.Mbr.Bootcode.{install_mbr_bootcode, set_boot_flag}
use winafi.Mbr.Gpt.{mark_efi_system_partition}

-- `mbr_install_info_t`, less the fields that the code does not read.
pub record InstallInfo : Type 0 where
  pub is_gpt : Bool
  pub active_partition : ℤ
  pub bootcode_path : CString

-- The reports of a step that ran stand behind those before it.
abbrev pub after : Outcome → Outcome → Outcome
after o p = record p { reports = o.reports ++ p.reports }

abbrev pub report_if_ok : Outcome → Outcome
report_if_ok o = elim (o.code) [
  | mbr_ok ↦ after o (report 100 (codes "Bootloader installation complete") (stop mbr_ok o.disk))
  | e ↦ o
]

-- Boot code, then the flag on what the first step left; the two steps have a host each.
unfoldable pub install_bootcode_and_flag :
    Host → Host → CString → InstallInfo → File → List ℕ → Outcome
install_bootcode_and_flag host later device info file d =
    let first = install_mbr_bootcode host (some device) (some info.bootcode_path) file d in
    elim (first.code) [
      | mbr_ok ↦ report_if_ok (
          after first (
            report 60 (codes "Setting active boot partition...")
              (set_boot_flag later (some device) info.active_partition first.disk)))
      | e ↦ first
    ]

unfoldable pub install_mbr_bootloader :
    Host → Host → Option CString → Option InstallInfo → File → List ℕ → Outcome
install_mbr_bootloader host later none info file d = stop device_not_found d
install_mbr_bootloader host later (some device) none file d = stop device_not_found d
install_mbr_bootloader host later (some device) (some info) file d =
    report 0 (codes "Starting bootloader installation...") (
      if not host.device_exists
      then stop device_not_found d
      else if info.is_gpt
      then report 20 (codes "Processing GPT partition table...")
          (report_if_ok (mark_efi_system_partition host (some device) info.active_partition d))
      else report 20 (codes "Installing MBR bootcode...")
          (install_bootcode_and_flag host later device info file d))
