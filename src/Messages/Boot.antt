-- ===== src/Messages/Boot.antt =====
-- platform/linux/error_messages.c: the Boot part of `error_database`.
use winafi.Prelude.{some, List, [], ◌∷◌}
use winafi.Prelude.Int.{negsuc}
use winafi.Prelude.Text.{codes}
use winafi.Messages.Entry.{ErrorEntry, entry}

unfoldable pub boot_errors : List ErrorEntry
boot_errors =
    entry (negsuc 299) (codes "No bootloader found for this ISO")
      (codes "ISO may not be bootable or is missing required boot files.")
      (some (codes "https://winafi.local/faq#no-bootloader"))
    ∷ entry (negsuc 300) (codes "Boot type is not supported")
        (codes "Select a supported boot mode: BIOS, UEFI, or Hybrid.")
        (some (codes "https://winafi.local/faq#unsupported-boot"))
    ∷ entry (negsuc 301) (codes "GRUB2 bootloader not found on system")
        (codes "Install GRUB2: sudo apt-get install grub2 (or equivalent for your distribution)")
        (some (codes "https://winafi.local/faq#grub2-missing"))
    ∷ entry (negsuc 302) (codes "Syslinux bootloader not found on system")
        (codes
          "Install Syslinux: sudo apt-get install syslinux (or equivalent for your distribution)")
        (some (codes "https://winafi.local/faq#syslinux-missing"))
    ∷ entry (negsuc 303) (codes "Bootcode file is missing")
        (codes "ISO may be incomplete. Re-download and try again.")
        (some (codes "https://winafi.local/faq#bootcode-missing"))
    ∷ entry (negsuc 304) (codes "Bootloader installation failed")
        (codes "Device may be read-only or permissions issue. Verify write access and try again.")
        (some (codes "https://winafi.local/faq#boot-install-failed"))
    ∷ entry (negsuc 305) (codes "UEFI boot requires FAT32 filesystem")
        (codes "Change filesystem to FAT32 for UEFI booting, or use BIOS boot mode instead.")
        (some (codes "https://winafi.local/faq#uefi-fat32-required"))
    ∷ entry (negsuc 306) (codes "Secure Boot is enabled - USB may not boot")
        (codes "Disable Secure Boot in BIOS/UEFI firmware settings if boot fails.")
        (some (codes "https://winafi.local/faq#secure-boot-enabled"))
    ∷ entry (negsuc 307) (codes "EFI System Partition creation failed")
        (codes "Verify partition table is GPT and device has sufficient space.")
        (some (codes "https://winafi.local/faq#esp-creation-failed"))
    ∷ entry (negsuc 308) (codes "Bootcode file is too large (must be <= 446 bytes)")
        (codes "Bootcode file is invalid. Use official bootcode from the OS.")
        (some (codes "https://winafi.local/faq#bootcode-too-large"))
    ∷ entry (negsuc 309) (codes "Failed to write MBR signature (0xAA55)")
        (codes "Device access issue. Verify device is writable and permissions are correct.")
        (some (codes "https://winafi.local/faq#signature-write-failed"))
    ∷ entry (negsuc 310) (codes "Boot configuration is invalid")
        (codes "Configuration data may be corrupted. Try again or re-download ISO.")
        (some (codes "https://winafi.local/faq#boot-config-invalid"))
    ∷ entry (negsuc 311) (codes "Filesystem is incompatible with boot setup")
        (codes "Some filesystems don't support required boot files. Try different filesystem.")
        (some (codes "https://winafi.local/faq#boot-fs-incompatible"))
    ∷ entry (negsuc 312) (codes "Failed to copy boot files to device")
        (codes "Device write error. Verify device is writable and not disconnecting.")
        (some (codes "https://winafi.local/faq#boot-file-copy-failed"))
    ∷ []
