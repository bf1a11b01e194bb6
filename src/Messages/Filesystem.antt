-- ===== src/Messages/Filesystem.antt =====
-- platform/linux/error_messages.c: the Filesystem part of `error_database`.
use winafi.Prelude.{none, some, List, [], ◌∷◌}
use winafi.Prelude.Int.{negsuc}
use winafi.Prelude.Text.{codes}
use winafi.Messages.Entry.{ErrorEntry, entry}

unfoldable pub filesystem_errors : List ErrorEntry
filesystem_errors =
    entry (negsuc 199) (codes "Volume label is too long")
      (codes
        "Volume labels must be shorter: FAT32 max 11 chars, NTFS max 32 chars, exFAT max 15 chars")
      (some (codes "https://winafi.local/faq#label-too-long"))
    ∷ entry (negsuc 200) (codes "Volume label contains invalid characters")
        (codes
          "Remove special characters from label. Avoid: * ? / \\ | < > : \" and control characters")
        (some (codes "https://winafi.local/faq#invalid-label-chars"))
    ∷ entry (negsuc 201) (codes "Filesystem size is invalid")
        (codes "Filesystem size must be between minimum and device capacity.")
        (some (codes "https://winafi.local/faq#invalid-fs-size"))
    ∷ entry (negsuc 202) (codes "Filesystem creation failed")
        (codes "Verify device is writable, has space, and correct permissions. Check system logs.")
        (some (codes "https://winafi.local/faq#mkfs-failed"))
    ∷ entry (negsuc 203) (codes "Required filesystem creation tool is not installed")
        (codes
          "Install missing tool: FAT32 needs mkfs.vfat, NTFS needs mkfs.ntfs, exFAT needs mkfs.exfat")
        (some (codes "https://winafi.local/faq#mkfs-tool-missing"))
    ∷ entry (negsuc 204) (codes "Unsupported filesystem type")
        (codes "Supported filesystems: FAT32, NTFS, exFAT. Use one of these.")
        (some (codes "https://winafi.local/faq#unsupported-fs"))
    ∷ entry (negsuc 205) (codes "Filesystem formatting timed out")
        (codes "Operation took too long. Device may be slow. Try again or use a different device.")
        (some (codes "https://winafi.local/faq#format-timeout"))
    ∷ entry (negsuc 206) (codes "Target partition not found")
        (codes "Partition may have been deleted or device changed. Verify partition still exists.")
        (some (codes "https://winafi.local/faq#partition-not-found"))
    ∷ entry (negsuc 207) (codes "Filesystem is incompatible with selected boot type")
        (codes "UEFI boot requires FAT32. BIOS boot works with FAT32, NTFS, or exFAT.")
        (some (codes "https://winafi.local/faq#fs-boot-incompatible"))
    ∷ entry (negsuc 208) (codes "No space left on device during formatting")
        (codes "Device full. Verify device capacity is sufficient for operation.")
        (some (codes "https://winafi.local/faq#no-space-left"))
    ∷ entry (negsuc 209) (codes "Unicode label could not be properly encoded")
        (codes "Try using ASCII characters only in volume label.") none
    ∷ entry (negsuc 210) (codes "Permission denied to format filesystem")
        (codes "Run with administrator privileges (sudo) or ensure you have write access.") none
    ∷ entry (negsuc 211) (codes "Unknown filesystem type encountered")
        (codes "Ensure correct filesystem type is selected.") none
    ∷ entry (negsuc 212) (codes "Cluster size is invalid for selected filesystem")
        (codes "Use default cluster size. Custom sizes must match filesystem requirements.") none
    ∷ []
