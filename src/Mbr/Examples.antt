-- ===== src/Mbr/Examples.antt =====
-- A blank stick, a GPT stick and a machine where every call succeeds.
use winafi.Prelude.{
  ℕ, zero, suc, ◌≤◌, ◌≡◌, ◌≢◌, refl, List, [], ◌∷◌, ◌++◌, length, true, false, some, inr,
}
use winafi.Prelude.Int.{pos}
use winafi.Prelude.Text.{CString, codes, str_eq}
use winafi.Mbr.Calls.{
  Host, File, Outcome, opened, mbr_ok, signature_mismatch, read_exactly, read_mbr, write_exactly,
  write_mbr, whole_read, read_bootcode_file,
}
use winafi.Mbr.Bootcode.{
  get_boot_signature, set_boot_signature, with_bootcode, patch_device, flag_partitions,
  install_mbr_bootcode, set_boot_flag,
}
use winafi.Mbr.Gpt.{
  has_gpt_signature, entry_size, entry_offset, in_use, write_guid, rewrite_entry, mark_entry,
  mark_efi_system_partition,
}
use winafi.Mbr.Install.{InstallInfo, install_bootcode_and_flag, install_mbr_bootloader}
use winafi.Mbr.Installed.{
  IsInstalled, install_mbr_bootloader-IsInstalled, install_mbr_bootloader_signed,
}
use winafi.Mbr.Entry.{IsMarked, mark_efi_system_partition-IsMarked}
use winafi.Mbr.Fields.{size_field, place_of}
use winafi.Mbr.Disk.{read_at}
use winafi.Mbr.Untouched.{SameBeyond, install_mbr_bootloader-SameBeyond}

abbrev row : ℕ → ℕ → List ℕ
row zero b = []
row (suc n) b = b ∷ row n b

abbrev sdc : CString
sdc = codes "/dev/sdc"

abbrev willing : Host
willing = record {
  device_exists = true;
  opening = opened;
  memory = true;
  seeks = λ o. true;
  reads = λ o. true;
  accepts = λ o b. length b;
  syncs = true;
}

abbrev syslinux : File
syslinux = record { size = some 446; memory = true; opens = true; content = some (row 446 0x90) }

abbrev second_active : InstallInfo
second_active = record {
  is_gpt = false;
  active_partition = pos 2;
  bootcode_path = codes "/usr/lib/syslinux/mbr.bin";
}

-- A stick of 514 bytes is enough for the first sector.
abbrev blank_stick : List ℕ
blank_stick = row 514 0

abbrev installed : Outcome
installed =
    install_mbr_bootloader willing willing (some sdc) (some second_active) syslinux blank_stick

installed_ok : installed.code ≡ mbr_ok
unfolding install_mbr_bootloader install_bootcode_and_flag install_mbr_bootcode patch_device
    set_boot_flag read_bootcode_file whole_read read_mbr read_exactly with_bootcode
    get_boot_signature set_boot_signature write_mbr write_exactly flag_partitions
installed_ok = refl

install_mbr_bootloader-IsInstalled_example :
    (bootcode : List ℕ) × (read_bootcode_file syslinux ≡ inr bootcode)
    × (length bootcode ≡ 446)
    × (1 ≤ 2)
    × (2 ≤ 4)
    × IsInstalled 2 bootcode blank_stick installed.disk
install_mbr_bootloader-IsInstalled_example =
    install_mbr_bootloader-IsInstalled willing willing sdc second_active syslinux blank_stick refl
      installed_ok

install_mbr_bootloader_signed_example : installed.code ≢ signature_mismatch
install_mbr_bootloader_signed_example =
    install_mbr_bootloader_signed willing willing sdc second_active syslinux blank_stick refl

install_mbr_bootloader-SameBeyond_example : SameBeyond blank_stick installed.disk
install_mbr_bootloader-SameBeyond_example =
    install_mbr_bootloader-SameBeyond willing willing sdc second_active syslinux blank_stick refl

-- A table of two entries of 128 bytes from sector 2 on; the second is in use by the test of the
-- code.
abbrev gpt : List ℕ
gpt =
    row 512 0
    ++ (codes "EFI PART" ++ row 64 0 ++ (2 ∷ row 7 0) ++ row 4 0 ++ (128 ∷ row 427 0))
    ++ row 128 5
    ++ (row 48 7 ++ (1 ∷ row 79 0))

abbrev marked : Outcome
marked = mark_efi_system_partition willing (some sdc) (pos 2) gpt

marked_ok : marked.code ≡ mbr_ok
unfolding mark_efi_system_partition mark_entry rewrite_entry write_guid has_gpt_signature entry_size
    entry_offset in_use read_exactly str_eq
marked_ok = refl

mark_efi_system_partition-IsMarked_example :
    (1 ≤ 2)
    × (2 ≤ 128)
    × (read_at 8 512 gpt ≡ codes "EFI PART")
    × (128 ≤ size_field gpt)
    × (size_field gpt ≤ 512)
    × IsMarked (place_of 2 gpt) gpt marked.disk
mark_efi_system_partition-IsMarked_example =
    mark_efi_system_partition-IsMarked willing (some sdc) (pos 2) gpt marked_ok

second_place : place_of 2 gpt ≡ 1152
second_place = refl
