-- ===== src/Mbr/Untouched.antt =====
-- What a boot record installation never writes, however it ends.
use winafi.Prelude.{
  ℕ, ◌≤◌, ◌≡◌, inl, inr, refl, ◌∙◌, List, arith, length, get_or, take, set, length-set, ltb, ◌==◌,
  Bool-cases, Option-cases, Option, none, some, false, length-take,
}
use winafi.Prelude.Int.{ℤ, pos_part}
use winafi.Prelude.Text.{CString}
use winafi.Mbr.Calls.{Host, File, read_mbr, write_exactly, write_mbr, read_bootcode_file}
use winafi.Mbr.Bootcode.{
  get_boot_signature, set_boot_signature, with_bootcode, patch_device, flag_partitions,
  install_mbr_bootcode, set_boot_flag,
}
use winafi.Mbr.Install.{InstallInfo, install_bootcode_and_flag, install_mbr_bootloader}
use winafi.Mbr.Disk.{write_at, length-write_at, get_or-write_at_right}
use winafi.Mbr.Patch.{file_cases}
use winafi.Mbr.Sector.{read_exactly_lem}
use winafi.Mbr.Table.{length-flag_partitions}

-- `e` has the bytes of `d` behind the first sector.
abbrev pub SameBeyond : List ℕ → List ℕ → Type 0
SameBeyond d e = (j : ℕ) → 512 ≤ j → get_or e j 0 ≡ get_or d j 0

-- A write of a sector, whole or short.
write_mbr-SameBeyond :
    (host : Host) (mbr d : List ℕ) → length mbr ≤ 512 → SameBeyond d ((write_mbr host mbr d).1)
unfolding write_mbr write_exactly
write_mbr-SameBeyond host mbr d short j h = elim (Bool-cases (host.seeks 0)) [
  | inr n ↦ rw n refl
  | inl y ↦ elim (Bool-cases (ltb (host.accepts 0 mbr) (length mbr))) [
    | inl cut ↦
        rw (y, cut)
          (get_or-write_at_right 0 (take (host.accepts 0 mbr) mbr) d j
            (omega (arith, length-take (host.accepts 0 mbr) mbr)))
    | inr all ↦ rw (y, all) (get_or-write_at_right 0 mbr d j (omega arith))
  ]
]

length-with_bootcode : (bootcode mbr : List ℕ) → length (with_bootcode bootcode mbr) ≡ length mbr
unfolding with_bootcode set_boot_signature
length-with_bootcode bootcode mbr =
    let e = length-write_at 0 bootcode mbr in
    elim (Bool-cases (get_boot_signature (write_at 0 bootcode mbr) == 0xaa55)) [
      | inl t ↦ rw t e
      | inr f ↦ rw f (
          length-set (set (write_at 0 bootcode mbr) 510 85) 511 170
          ∙ (length-set (write_at 0 bootcode mbr) 510 85 ∙ e))
    ]

sector_size : (host : Host) (d mbr : List ℕ) → read_mbr host d ≡ some mbr → length mbr ≡ 512
unfolding read_mbr
sector_size host d mbr h = let (same, size) = read_exactly_lem host 512 0 d mbr h in size

patch_device-SameBeyond :
    (host : Host) (bootcode d : List ℕ) → SameBeyond d ((patch_device host bootcode d).disk)
unfolding patch_device
patch_device-SameBeyond host bootcode d j h = elim (Option-cases (read_mbr host d)) [
  | inl e ↦ ground arith
  | inr (mbr, e) ↦
      let same =
        write_mbr-SameBeyond host (with_bootcode bootcode mbr) d
          (omega (arith, length-with_bootcode bootcode mbr, sector_size host d mbr e)) j h in
      ground arith
]

set_boot_flag-SameBeyond :
    (host : Host) (device : Option CString) (n : ℤ) (d : List ℕ)
    → SameBeyond d ((set_boot_flag host device n d).disk)
unfolding set_boot_flag
set_boot_flag-SameBeyond host none n d j h = refl
set_boot_flag-SameBeyond host (some device) n d j h = elim (Option-cases (read_mbr host d)) [
  | inl e ↦ ground arith
  | inr (mbr, e) ↦
      let same =
        write_mbr-SameBeyond host (flag_partitions (pos_part n) 4 0 mbr) d
          (omega (arith, length-flag_partitions (pos_part n) 4 0 mbr, sector_size host d mbr e)) j
          h in
      ground arith
]

install_mbr_bootcode-SameBeyond :
    (host : Host) (device path : Option CString) (file : File) (d : List ℕ)
    → SameBeyond d ((install_mbr_bootcode host device path file d).disk)
unfolding install_mbr_bootcode
install_mbr_bootcode-SameBeyond host none path file d j h = refl
install_mbr_bootcode-SameBeyond host (some device) none file d j h = refl
install_mbr_bootcode-SameBeyond host (some device) (some path) file d j h =
    elim (Bool-cases (host.device_exists)) [
      | inr n ↦ rw n refl
      | inl y ↦ elim (file_cases (read_bootcode_file file)) [
        | inl (e, r) ↦ rw (y, r) refl
        | inr (b, r) ↦ rw (y, r) (patch_device-SameBeyond host b d j h)
      ]
    ]

-- However an installation on an MBR device ends, also after a short write, the bytes behind the
-- first sector are as they were.
pub install_mbr_bootloader-SameBeyond :
    (host later : Host) (device : CString) (info : InstallInfo) (file : File) (d : List ℕ)
    → info.is_gpt ≡ false
    → SameBeyond d ((install_mbr_bootloader host later (some device) (some info) file d).disk)
unfolding install_mbr_bootloader install_bootcode_and_flag
install_mbr_bootloader-SameBeyond host later device info file d mbr j h =
    let first = install_mbr_bootcode host (some device) (some info.bootcode_path) file d in
    let one =
      install_mbr_bootcode-SameBeyond host (some device) (some info.bootcode_path) file d j h in
    let two = set_boot_flag-SameBeyond later (some device) (info.active_partition) first.disk j h in
    ground arith
