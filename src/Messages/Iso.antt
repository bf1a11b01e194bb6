-- ===== src/Messages/Iso.antt =====
-- platform/linux/error_messages.c: the Iso part of `error_database`.
use winafi.Prelude.{none, some, List, [], ◌∷◌}
use winafi.Prelude.Int.{negsuc}
use winafi.Prelude.Text.{codes}
use winafi.Messages.Entry.{ErrorEntry, entry}

unfoldable pub iso_errors : List ErrorEntry
iso_errors =
    entry (negsuc 249) (codes "ISO file not found")
      (codes "Verify the ISO file path is correct and the file exists.")
      (some (codes "https://winafi.local/faq#iso-not-found"))
    ∷ entry (negsuc 250) (codes "File is not a valid ISO 9660 image")
        (codes "Select a valid ISO file. The file may be corrupted or not an ISO image.")
        (some (codes "https://winafi.local/faq#not-iso"))
    ∷ entry (negsuc 251) (codes "Error reading ISO archive")
        (codes "ISO file may be corrupted. Download the file again or verify the checksum.")
        (some (codes "https://winafi.local/faq#archive-error"))
    ∷ entry (negsuc 252) (codes "Failed to extract ISO contents to device")
        (codes
          "Verify device has sufficient free space and write permissions. Check device connection.")
        (some (codes "https://winafi.local/faq#extract-failed"))
    ∷ entry (negsuc 253) (codes "ISO file has no boot information")
        (codes
          "This ISO may not be bootable. Verify you have the correct ISO for your operating system.")
        (some (codes "https://winafi.local/faq#no-boot-info"))
    ∷ entry (negsuc 254) (codes "ISO file appears to be corrupted")
        (codes "Download the ISO file again and verify its checksum matches the official source.")
        (some (codes "https://winafi.local/faq#iso-corrupted"))
    ∷ entry (negsuc 255) (codes "ISO extraction completed but may be incomplete")
        (codes "Some files may not have been extracted. Verify the operation succeeded.")
        (some (codes "https://winafi.local/faq#incomplete-extract"))
    ∷ entry (negsuc 256) (codes "Insufficient space on device to extract ISO")
        (codes "Use a larger USB device. Device must have space for ISO plus additional overhead.")
        (some (codes "https://winafi.local/faq#insufficient-space"))
    ∷ entry (negsuc 257) (codes "ISO extraction timed out")
        (codes "Operation took too long. Device may be slow. Try again with a faster device.")
        (some (codes "https://winafi.local/faq#extract-timeout"))
    ∷ entry (negsuc 258) (codes "Required file not found in ISO")
        (codes "ISO file is incomplete or corrupt. Re-download the file.")
        (some (codes "https://winafi.local/faq#file-in-iso-not-found"))
    ∷ entry (negsuc 259) (codes "Write permission denied for ISO extraction")
        (codes "Run with administrator privileges (sudo) or ensure write access to device.")
        (some (codes "https://winafi.local/faq#iso-write-permission"))
    ∷ entry (negsuc 260) (codes "Failed to create directory during extraction")
        (codes "Device may be read-only or permissions issue. Verify device is writable.")
        (some (codes "https://winafi.local/faq#dir-create-failed"))
    ∷ entry (negsuc 261) (codes "Failed to create symbolic link during extraction")
        (codes "Some filesystems don't support symbolic links. May affect Linux installations.")
        (some (codes "https://winafi.local/faq#symlink-create-failed"))
    ∷ entry (negsuc 262) (codes "ISO extraction was cancelled by user")
        (codes "Operation was stopped. Partial files may remain on device.") none
    ∷ []
