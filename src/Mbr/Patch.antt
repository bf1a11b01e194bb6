-- ===== src/Mbr/Patch.antt =====
-- The boot code in the first sector, and the boot signature.
use winafi.Prelude.{
  ℕ, ◌/◌, ◌%◌, ◌^◌, ◌≤◌, ◌<◌, ◌≡◌, ◌≢◌, ◌⊎◌, inl, inr, refl, ◌∙◌, List, arith, length, get_or, set,
  take, get_or-set_self, get_or-set_ne, length-set, length-take, ◌==◌, ==_iff, Bool-cases,
  Option-cases, Option, none, some,
}
use winafi.Prelude.Text.{CString}
use winafi.Mbr.Disk.{
  write_at, get_or-write_at_start, get_or-write_at_right, length-write_at, get_or-take,
}
use winafi.Mbr.Calls.{
  Host, File, Code, mbr_ok, read_exactly, read_mbr, write_exactly, write_mbr, whole_read,
  read_bootcode_file,
}
use winafi.Mbr.Bootcode.{
  get_boot_signature, set_boot_signature, with_bootcode, patch_device, install_mbr_bootcode,
}

whole_read_lem : (n : ℕ) (c b : List ℕ) → whole_read n c ≡ inr b → length b ≡ n
unfolding whole_read
whole_read_lem n c b h = ground arith

read_bootcode_file_lem :
    (file : File) (b : List ℕ) → read_bootcode_file file ≡ inr b → length b ≡ 446
unfolding read_bootcode_file
read_bootcode_file_lem file b h = elim (Option-cases (file.content)) [
  | inl e ↦ absurd (ground arith)
  | inr (c, e) ↦ whole_read_lem 446 c b (ground arith)
]

-- An error is not MBR_OK.
read_error : (file : File) (e : Code) → read_bootcode_file file ≡ inl e → e ≢ mbr_ok
unfolding read_bootcode_file whole_read
read_error file e h k = elim (Option-cases (file.content)) [
  | inl n ↦ ground arith
  | inr (c, n) ↦ ground arith
]

-- What is stored as the signature of a sector is read back, in 16 bits.
pub get_boot_signature-set_boot_signature :
    (mbr : List ℕ) (signature : ℕ)
    → 512 ≤ length mbr
    → get_boot_signature (set_boot_signature mbr signature) ≡ signature % 2 ^ 16
unfolding get_boot_signature set_boot_signature
get_boot_signature-set_boot_signature mbr s h =
    let high =
      get_or-set_self (set mbr 510 (s % 256)) 511 (s / 256 % 256) 0
        (omega (arith, length-set mbr 510 (s % 256))) in
    let low =
      get_or-set_ne (set mbr 510 (s % 256)) 511 510 (s / 256 % 256) 0 (omega arith)
      ∙ get_or-set_self mbr 510 (s % 256) 0 (omega arith) in
    omega arith

-- Bytes before the signature.
set_boot_signature_other :
    (mbr : List ℕ) (s j : ℕ) → j < 510 → get_or (set_boot_signature mbr s) j 0 ≡ get_or mbr j 0
unfolding set_boot_signature
set_boot_signature_other mbr s j h =
    get_or-set_ne (set mbr 510 (s % 256)) 511 j (s / 256 % 256) 0 (omega arith)
    ∙ get_or-set_ne mbr 510 j (s % 256) 0 (omega arith)

module _ (bootcode mbr : List ℕ) (whole : length bootcode ≡ 446) (sector : length mbr ≡ 512) where
  length-with_bootcode : length (with_bootcode bootcode mbr) ≡ 512
  unfolding with_bootcode set_boot_signature
  length-with_bootcode =
      let e = length-write_at 0 bootcode mbr in
      elim (Bool-cases (get_boot_signature (write_at 0 bootcode mbr) == 0xaa55)) [
        | inl t ↦ rw t (omega arith)
        | inr f ↦ rw f (
            length-set (set (write_at 0 bootcode mbr) 510 85) 511 170
            ∙ (length-set (write_at 0 bootcode mbr) 510 85 ∙ omega arith))
      ]

  -- The sector is signed.
  signed : get_boot_signature (with_bootcode bootcode mbr) ≡ 0xaa55
  unfolding with_bootcode
  signed = elim (Bool-cases (get_boot_signature (write_at 0 bootcode mbr) == 0xaa55)) [
    | inl t ↦
        let (to, from) = ==_iff (get_boot_signature (write_at 0 bootcode mbr)) 0xaa55 in rw t (to t)
    | inr f ↦ rw f (
        get_boot_signature-set_boot_signature (write_at 0 bootcode mbr) 0xaa55
          (omega (arith, length-write_at 0 bootcode mbr)))
  ]

  patched_other :
      (j : ℕ)
      → j < 510
      → get_or (with_bootcode bootcode mbr) j 0 ≡ get_or (write_at 0 bootcode mbr) j 0
  unfolding with_bootcode
  patched_other j h = elim (Bool-cases (get_boot_signature (write_at 0 bootcode mbr) == 0xaa55)) [
    | inl t ↦ rw t refl
    | inr f ↦ rw f (set_boot_signature_other (write_at 0 bootcode mbr) 0xaa55 j h)
  ]

  -- The bytes of the code, and behind it those of the sector up to the signature.
  patched_code : (j : ℕ) → j < 446 → get_or (with_bootcode bootcode mbr) j 0 ≡ get_or bootcode j 0
  patched_code j h =
      patched_other j (omega arith)
      ∙ get_or-write_at_start bootcode mbr j (omega arith) (omega arith)

  patched_table :
      (j : ℕ) → 446 ≤ j → j < 510 → get_or (with_bootcode bootcode mbr) j 0 ≡ get_or mbr j 0
  patched_table j l h = patched_other j h ∙ get_or-write_at_right 0 bootcode mbr j (omega arith)

-- The device `e` has the boot code, the signature, and otherwise the bytes of `d`.
pub record IsPatched (bootcode d e : List ℕ) : Type 0 where
  pub size : length e ≡ length d
  pub code : (j : ℕ) → j < 446 → get_or e j 0 ≡ get_or bootcode j 0
  pub table : (j : ℕ) → 446 ≤ j → j < 510 → get_or e j 0 ≡ get_or d j 0
  pub signature : get_boot_signature e ≡ 0xaa55
  pub beyond : (j : ℕ) → 512 ≤ j → get_or e j 0 ≡ get_or d j 0

sector_IsPatched :
    (bootcode d : List ℕ)
    → length bootcode ≡ 446
    → 512 ≤ length d
    → IsPatched bootcode d (write_at 0 (with_bootcode bootcode (take 512 d)) d)
unfolding get_boot_signature
sector_IsPatched bootcode d whole long =
    let sector = length-take 512 d in
    let size = length-with_bootcode bootcode (take 512 d) whole (omega arith) in
    let same = get_or-write_at_start (with_bootcode bootcode (take 512 d)) d in
    record {
      size = length-write_at 0 (with_bootcode bootcode (take 512 d)) d;
      code = λ j h.
          same j (omega arith) (omega arith)
          ∙ patched_code bootcode (take 512 d) whole (omega arith) j h;
      table = λ j l h.
          same j (omega arith) (omega arith)
          ∙ (patched_table bootcode (take 512 d) whole (omega arith) j l h
              ∙ get_or-take 512 d j (omega arith));
      signature =
          rw (same 510 (omega arith) (omega arith), same 511 (omega arith) (omega arith))
            (signed bootcode (take 512 d) whole (omega arith));
      beyond =
          λ j h. get_or-write_at_right 0 (with_bootcode bootcode (take 512 d)) d j (omega arith);
    }

patch_ok :
    (host : Host) (bootcode d : List ℕ)
    → (patch_device host bootcode d).code ≡ mbr_ok
    → (512 ≤ length d)
      × ((patch_device host bootcode d).disk ≡ write_at 0 (with_bootcode bootcode (take 512 d)) d)
unfolding patch_device read_mbr read_exactly write_mbr write_exactly
patch_ok host bootcode d h = ground (arith, length-take 512 d)

pub file_cases : (r : Code ⊎ List ℕ) → ((e : Code) × (r ≡ inl e)) ⊎ ((b : List ℕ) × (r ≡ inr b))
file_cases (inl e) = inl (e, refl)
file_cases (inr b) = inr (b, refl)

device_ok :
    (host : Host) (device path : Option CString) (file : File) (d : List ℕ)
    → (install_mbr_bootcode host device path file d).code ≡ mbr_ok
    → (bootcode : List ℕ) × (read_bootcode_file file ≡ inr bootcode)
      × ((patch_device host bootcode d).code ≡ mbr_ok)
      × (install_mbr_bootcode host device path file d ≡ patch_device host bootcode d)
unfolding install_mbr_bootcode
device_ok host none path file d h = absurd (ground arith)
device_ok host (some device) none file d h = absurd (ground arith)
device_ok host (some device) (some path) file d h = elim (file_cases (read_bootcode_file file)) [
  | inl (e, r) ↦ absurd ((read_error file e r) (ground arith))
  | inr (b, r) ↦ (b, r, ground arith, ground arith)
]

-- An `install_mbr_bootcode` that returns MBR_OK was given a file of 446 bytes, and leaves a device
-- that starts with them, whose signature is 0xAA55, and whose partition table and other sectors are
-- as they were.
pub install_mbr_bootcode-IsPatched :
    (host : Host) (device path : Option CString) (file : File) (d : List ℕ)
    → (install_mbr_bootcode host device path file d).code ≡ mbr_ok
    → (bootcode : List ℕ) × (read_bootcode_file file ≡ inr bootcode)
      × (length bootcode ≡ 446)
      × IsPatched bootcode d ((install_mbr_bootcode host device path file d).disk)
install_mbr_bootcode-IsPatched host device path file d h =
    let (b, r, ok, e) = device_ok host device path file d h in
    let whole = read_bootcode_file_lem file b r in
    let (long, left) = patch_ok host b d ok in
    (b, r, whole, rw (e, left) (sector_IsPatched b d whole long))
