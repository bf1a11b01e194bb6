-- ===== src/Messages/Device.antt =====
-- platform/linux/error_messages.c: the Device part of `error_database`.
use winafi.Prelude.{none, some, List, [], ◌∷◌}
use winafi.Prelude.Int.{negsuc}
use winafi.Prelude.Text.{codes}
use winafi.Messages.Entry.{ErrorEntry, entry}

unfoldable pub device_errors : List ErrorEntry
device_errors =
    entry (negsuc 99) (codes "Device /dev/XXX not found")
      (codes "Check that the USB device is connected. Try unplugging and replugging the device.")
      (some (codes "https://winafi.local/faq#device-not-found"))
    ∷ entry (negsuc 100) (codes "Permission denied - cannot access device")
        (codes "Run with administrator privileges (sudo) or add user to disk group")
        (some (codes "https://winafi.local/faq#permission-denied"))
    ∷ entry (negsuc 101) (codes "Device is busy or in use")
        (codes
          "Close any open files on the device and ensure it's not mounted. Use 'lsof /dev/sdX' to check.")
        (some (codes "https://winafi.local/faq#device-busy"))
    ∷ entry (negsuc 102) (codes "Device capacity is insufficient for the ISO image")
        (codes
          "Use a larger USB device or a smaller ISO image. Device needs to be at least 1GB larger than ISO.")
        (some (codes "https://winafi.local/faq#device-too-small"))
    ∷ entry (negsuc 103)
        (codes "Device appears to be a system drive - operation cancelled for safety")
        (codes
          "Verify you selected the correct USB device. Do not attempt to format system drives.")
        (some (codes "https://winafi.local/faq#system-drive-protection"))
    ∷ entry (negsuc 104) (codes "Device is locked by another process")
        (codes
          "Close all applications accessing the device. Check for running disk utilities or mounting services.")
        (some (codes "https://winafi.local/faq#device-locked"))
    ∷ entry (negsuc 105) (codes "Failed to read device information")
        (codes "Check device connection and try again. Device may have hardware issues.")
        (some (codes "https://winafi.local/faq#read-failed"))
    ∷ entry (negsuc 106) (codes "Failed to write to device")
        (codes
          "Check device connection, ensure you have write permissions, and verify sufficient space.")
        (some (codes "https://winafi.local/faq#write-failed"))
    ∷ entry (negsuc 107) (codes "Device capacity validation failed")
        (codes "Verify device is properly connected and detected by the system.")
        (some (codes "https://winafi.local/faq#capacity-check"))
    ∷ entry (negsuc 108) (codes "One or more partitions are mounted")
        (codes
          "Unmount all partitions: sudo umount /dev/sdXN (replace X and N with device/partition numbers)")
        (some (codes "https://winafi.local/faq#mounted-partition"))
    ∷ entry (negsuc 109) (codes "Device size validation failed")
        (codes "Retry the operation. If persistent, the device may have read/write issues.") none
    ∷ entry (negsuc 110) (codes "Filesystem check failed on device")
        (codes "Run fsck to check filesystem: sudo fsck /dev/sdX (use with caution)") none
    ∷ entry (negsuc 111) (codes "Device node not found in system")
        (codes "Ensure USB device is properly connected. Device may have been disconnected.") none
    ∷ entry (negsuc 112) (codes "Selected path is not a block device")
        (codes "Select a device path like /dev/sdX, not a partition (/dev/sdX1) or regular file.")
        none
    ∷ entry (negsuc 113) (codes "One or more partitions are still mounted")
        (codes "Unmount all partitions before proceeding: sudo umount /mnt/usb") none
    ∷ []
