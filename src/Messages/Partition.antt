-- ===== src/Messages/Partition.antt =====
-- platform/linux/error_messages.c: the Partition part of `error_database`.
use winafi.Prelude.{none, some, List, [], ◌∷◌}
use winafi.Prelude.Int.{negsuc}
use winafi.Prelude.Text.{codes}
use winafi.Messages.Entry.{ErrorEntry, entry}

unfoldable pub partition_errors : List ErrorEntry
partition_errors =
    entry (negsuc 149) (codes "Invalid or corrupted partition table")
      (codes "Device partition table may be corrupted. Try writing a new partition table.")
      (some (codes "https://winafi.local/faq#invalid-partition-table"))
    ∷ entry (negsuc 150) (codes "MBR partition table is full (max 4 primary partitions)")
        (codes "MBR supports maximum 4 primary partitions. Use GPT for more partitions.")
        (some (codes "https://winafi.local/faq#mbr-full"))
    ∷ entry (negsuc 151) (codes "Failed to create partition on device")
        (codes "Verify device is not write-protected and has sufficient space. Check permissions.")
        (some (codes "https://winafi.local/faq#partition-create-failed"))
    ∷ entry (negsuc 152) (codes "Failed to align partition properly")
        (codes
          "Use a larger device or try different partition settings. Modern drives require proper alignment.")
        (some (codes "https://winafi.local/faq#partition-alignment"))
    ∷ entry (negsuc 153) (codes "Invalid partition size specified")
        (codes "Partition size must be greater than 0 and fit within device capacity.")
        (some (codes "https://winafi.local/faq#invalid-partition-size"))
    ∷ entry (negsuc 154) (codes "Failed to convert partition table to GPT")
        (codes
          "Ensure device is empty or has valid MBR. Some devices may have issues with conversion.")
        (some (codes "https://winafi.local/faq#gpt-conversion-failed"))
    ∷ entry (negsuc 155) (codes "libparted library error occurred")
        (codes
          "Partition operation failed at system level. Verify device connectivity and try again.")
        (some (codes "https://winafi.local/faq#libparted-error"))
    ∷ entry (negsuc 156) (codes "Invalid partition number or specification")
        (codes "Partition numbers must be 1-4 for MBR or 1-128 for GPT.") none
    ∷ entry (negsuc 157) (codes "Failed to set boot flag on partition")
        (codes
          "Boot flag setting failed. Partition may still be usable but may not boot on some systems.")
        none
    ∷ entry (negsuc 158) (codes "Failed to delete partition")
        (codes "Ensure partition is unmounted and device is not in use.") none
    ∷ entry (negsuc 159) (codes "Partition type is incorrect for operation")
        (codes "Ensure partition type is appropriate for the ISO type (e.g., EFI for UEFI).") none
    ∷ entry (negsuc 160) (codes "Insufficient space to create partition")
        (codes "Verify device has free space and required capacity for ISO.") none
    ∷ entry (negsuc 161) (codes "Failed to read partition table from device")
        (codes "Check device connection. Device may have hardware issues.") none
    ∷ entry (negsuc 162) (codes "Failed to write partition table to device")
        (codes
          "Device may be read-only or have hardware issues. Check permissions and connections.")
        none
    ∷ entry (negsuc 163) (codes "Device sector size is too large for operation")
        (codes "Some older systems may not support this device's native sector size.") none
    ∷ []
