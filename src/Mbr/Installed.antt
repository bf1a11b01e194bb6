-- ===== src/Mbr/Installed.antt =====
-- `install_mbr_bootloader` on a device with an MBR: the two steps together.
use winafi.Prelude.{
  ℕ, ◌+◌, ◌-◌, ◌*◌, ◌≤◌, ◌<◌, ◌≡◌, ◌≢◌, ◌⊎◌, inl, inr, refl, ◌∙◌, List, arith, length, get_or, take,
  ◌==◌, if◌then◌else◌, Option, some, false,
}
use winafi.Prelude.Int.{ℤ, pos_part}
use winafi.Prelude.Text.{CString}
use winafi.Mbr.Calls.{
  Host, File, Outcome, mbr_ok, signature_mismatch, read_exactly, read_mbr, write_exactly, write_mbr,
  whole_read, read_bootcode_file,
}
use winafi.Mbr.Bootcode.{
  get_boot_signature, flag_partitions, patch_device, install_mbr_bootcode, set_boot_flag,
}
use winafi.Mbr.Install.{
  InstallInfo, report_if_ok, install_bootcode_and_flag, install_mbr_bootloader,
}
use winafi.Mbr.Table.{table_other}
use winafi.Mbr.Disk.{get_or-take}
use winafi.Mbr.Sector.{FlagsOnly, set_boot_flag-FlagsOnly}
use winafi.Mbr.Patch.{IsPatched, install_mbr_bootcode-IsPatched}

-- The device `e` is `d` with the boot code, entry `n` alone active, and the signature.
pub record IsInstalled (n : ℕ) (bootcode d e : List ℕ) : Type 0 where
  pub code : (j : ℕ) → j < 446 → get_or e j 0 ≡ get_or bootcode j 0
  pub flags : (i : ℕ) → i < 4 → get_or e (446 + i * 16) 0 ≡ (if i == n - 1 then 0x80 else 0)
  pub entries :
      (j : ℕ)
      → 446 ≤ j
      → j < 510
      → ((i : ℕ) → i < 4 → j ≢ 446 + i * 16)
      → get_or e j 0 ≡ get_or d j 0
  pub signature : get_boot_signature e ≡ 0xaa55
  pub beyond : (j : ℕ) → 512 ≤ j → get_or e j 0 ≡ get_or d j 0

both-IsInstalled :
    (n : ℕ) (bootcode d m e : List ℕ)
    → IsPatched bootcode d m
    → FlagsOnly n m e
    → IsInstalled n bootcode d e
unfolding get_boot_signature
both-IsInstalled n bootcode d m e p (flags, others) = record {
  code = λ j h. others j (λ i lt c. absurd (omega arith)) ∙ p.code j h;
  flags = flags;
  entries = λ j l h other. others j other ∙ p.table j l h;
  signature =
      rw (others 510 (λ i lt c. absurd (omega arith)), others 511 (λ i lt c. absurd (omega arith)))
        (p.signature);
  beyond = λ j h. others j (λ i lt c. absurd (omega arith)) ∙ p.beyond j h;
}

report_if_ok-code : (o : Outcome) → (report_if_ok o).code ≡ o.code
report_if_ok-code o = ground arith

report_if_ok-disk : (o : Outcome) → (report_if_ok o).disk ≡ o.disk
report_if_ok-disk o = ground arith

module _ (host later : Host) (device : CString) (info : InstallInfo) (file : File)
    (d : List ℕ) where
  abbrev first : Outcome
  first = install_mbr_bootcode host (some device) (some info.bootcode_path) file d

  abbrev second : Outcome
  second = set_boot_flag later (some device) info.active_partition first.disk

  -- The whole succeeds only if both steps do, and leaves what the second leaves.
  steps_ok :
      (install_bootcode_and_flag host later device info file d).code ≡ mbr_ok
      → (first.code ≡ mbr_ok)
        × (second.code ≡ mbr_ok)
        × ((install_bootcode_and_flag host later device info file d).disk ≡ second.disk)
  unfolding install_bootcode_and_flag
  steps_ok h = ground arith

  -- An end with a mismatch is one of the steps'.
  steps_mismatch :
      (install_bootcode_and_flag host later device info file d).code ≡ signature_mismatch
      → (first.code ≡ signature_mismatch)
        ⊎ ((first.code ≡ mbr_ok) × (second.code ≡ signature_mismatch))
  unfolding install_bootcode_and_flag
  steps_mismatch h = ground arith

-- An installation on an MBR device that returns MBR_OK was given a file of 446 bytes and an entry
-- number from 1 to 4. The device then starts with those bytes, has the flag 0x80 in that entry alone
-- and the signature 0xAA55, and is otherwise as it was.
pub install_mbr_bootloader-IsInstalled :
    (host later : Host) (device : CString) (info : InstallInfo) (file : File) (d : List ℕ)
    → info.is_gpt ≡ false
    → (install_mbr_bootloader host later (some device) (some info) file d).code ≡ mbr_ok
    → (bootcode : List ℕ) × (read_bootcode_file file ≡ inr bootcode)
      × (length bootcode ≡ 446)
      × (1 ≤ pos_part info.active_partition)
      × (pos_part info.active_partition ≤ 4)
      × IsInstalled
          (pos_part info.active_partition)
          bootcode
          d
          ((install_mbr_bootloader host later (some device) (some info) file d).disk)
unfolding install_mbr_bootloader
install_mbr_bootloader-IsInstalled host later device info file d mbr h =
    let (one, two, e) = steps_ok host later device info file d (ground arith) in
    let (b, r, whole, p) =
      install_mbr_bootcode-IsPatched host (some device) (some info.bootcode_path) file d one in
    let (low, high, f) =
      set_boot_flag-FlagsOnly later (some device) (info.active_partition)
        ((install_mbr_bootcode host (some device) (some info.bootcode_path) file d).disk) two in
    let same = both-IsInstalled (pos_part info.active_partition) b d _ _ p f in
    (b, r, whole, low, high, rw (ends, e) same)
  where
    ends :
        (install_mbr_bootloader host later (some device) (some info) file d).disk
        ≡ (install_bootcode_and_flag host later device info file d).disk
    ends = ground arith

-- The loop keeps the signature.
signature_kept :
    (n : ℕ) (d : List ℕ)
    → get_boot_signature (flag_partitions n 4 0 (take 512 d)) ≡ get_boot_signature d
unfolding get_boot_signature
signature_kept n d =
    rw
      (
        table_other n (take 512 d) 510 (λ i lt c. absurd (omega arith)),
        table_other n (take 512 d) 511 (λ i lt c. absurd (omega arith)),
        get_or-take 512 d 510 (omega arith),
        get_or-take 512 d 511 (omega arith),
      )
      refl

mismatch :
    (host : Host) (device : Option CString) (n : ℤ) (d : List ℕ)
    → (set_boot_flag host device n d).code ≡ signature_mismatch
    → (get_boot_signature (flag_partitions (pos_part n) 4 0 (take 512 d)) == 0xaa55) ≡ false
unfolding set_boot_flag read_mbr read_exactly write_mbr write_exactly
mismatch host device n d h = ground arith

unsigned :
    (host : Host) (device : Option CString) (n : ℤ) (d : List ℕ)
    → (set_boot_flag host device n d).code ≡ signature_mismatch
    → get_boot_signature d ≢ 0xaa55
unsigned host device n d h s =
    let m = mismatch host device n d h in absurd (cc (rw (signature_kept (pos_part n) d, s) at m))

-- The first step does not test the signature.
first_untested :
    (host : Host) (device path : Option CString) (file : File) (d : List ℕ)
    → (install_mbr_bootcode host device path file d).code ≢ signature_mismatch
unfolding install_mbr_bootcode patch_device write_mbr write_exactly read_bootcode_file whole_read
first_untested host device path file d h = ground arith

-- The first step signs the sector, so the second never finds it unsigned: an installation on an MBR
-- device never ends with MBR_ERR_SIGNATURE_MISMATCH.
pub install_mbr_bootloader_signed :
    (host later : Host) (device : CString) (info : InstallInfo) (file : File) (d : List ℕ)
    → info.is_gpt ≡ false
    → (install_mbr_bootloader host later (some device) (some info) file d).code ≢ signature_mismatch
unfolding install_mbr_bootloader
install_mbr_bootloader_signed host later device info file d mbr h =
    elim (steps_mismatch host later device info file d (ground arith)) [
      | inl one ↦ first_untested host (some device) (some info.bootcode_path) file d one
      | inr (one, two) ↦
          let (b, r, whole, p) =
            install_mbr_bootcode-IsPatched host (some device) (some info.bootcode_path) file d
              one in
          unsigned later (some device) (info.active_partition) _ two p.signature
    ]
