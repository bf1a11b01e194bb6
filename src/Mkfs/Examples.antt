-- ===== src/Mkfs/Examples.antt =====
-- A labelled partition of each kind, and labels that are refused.
use winafi.Prelude.{◌≡◌, ◌<◌, refl, true, none, some, inl, inr, [], ◌∷◌, length, arith, any}
use winafi.Prelude.Text.{CString, codes}
use winafi.Os.{exited}
use winafi.Mkfs.Commands.{
  is_invalid_char, invalid_chars, label_too_long, invalid_size, validate_label,
  validate_label_for_fat32, validate_label_for_ntfs, validate_label_for_exfat, fits, gen_command,
  gen_mkfs_fat32_command, gen_mkfs_ntfs_command, gen_mkfs_exfat_command, ntfs, fat32, gen_for,
  create_for, Shell,
}
use winafi.Mkfs.Shell.{words, is_plain, is_special}
use winafi.Mkfs.Quoting.{IsPlainPath}
use winafi.Mkfs.Argv.{IsMade, words-gen_for, create_for-IsMade}

abbrev sdb1 : CString
sdb1 = codes "/dev/sdb1"

abbrev win_11 : CString
win_11 = codes "WIN 11"

sdb1_plain : IsPlainPath sdb1
unfolding is_plain is_special any
sdb1_plain = record { some_byte = omega arith; plain = ground arith }

-- A label that would end the quotes is refused; a long one too, at each file system's own limit.
refused :
    (gen_mkfs_ntfs_command (some sdb1) (some (codes "a'; reboot #")) 512 ≡ inl invalid_chars)
    × (gen_mkfs_fat32_command (some sdb1) (some (codes "TWELVE CHARS")) 512 ≡ inl label_too_long)
    × (gen_mkfs_exfat_command (some sdb1) (some (codes "SIXTEEN CHARS 16")) 512
        ≡ inl label_too_long)
    × (gen_mkfs_exfat_command (some sdb1) none 20 ≡ inl invalid_size)
unfolding gen_mkfs_fat32_command gen_mkfs_ntfs_command gen_mkfs_exfat_command gen_command
    validate_label validate_label_for_fat32 validate_label_for_ntfs validate_label_for_exfat fits
    is_invalid_char any
refused = (refl, refl, refl, refl)

win_generated :
    gen_for ntfs (some sdb1) (some win_11) 512 ≡ inr (codes "mkfs.ntfs -L 'WIN 11' /dev/sdb1")
unfolding gen_mkfs_ntfs_command gen_command validate_label_for_ntfs validate_label is_invalid_char
    any fits
win_generated = refl

words-gen_for_example :
    (words (codes "mkfs.ntfs -L 'WIN 11' /dev/sdb1")
      ≡ some (codes "mkfs.ntfs" ∷ codes "-L" ∷ codes "WIN 11" ∷ codes "/dev/sdb1" ∷ []))
    × (length (codes "mkfs.ntfs -L 'WIN 11' /dev/sdb1") < 512)
words-gen_for_example = words-gen_for ntfs sdb1 (some win_11) 512 _ sdb1_plain win_generated

abbrev root_shell : Shell
root_shell = record { executable = λ path. true; status = λ cmd. exited 0 }

create_for-IsMade_example :
    IsMade root_shell fat32 sdb1
      (some win_11)
      (create_for fat32 root_shell (some sdb1) (some win_11))
create_for-IsMade_example = create_for-IsMade root_shell fat32 sdb1 (some win_11) sdb1_plain
