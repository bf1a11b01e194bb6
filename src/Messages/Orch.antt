-- ===== src/Messages/Orch.antt =====
-- platform/linux/error_messages.c: the Orch part of `error_database`.
use winafi.Prelude.{some, List, [], ◌∷◌}
use winafi.Prelude.Int.{negsuc}
use winafi.Prelude.Text.{codes}
use winafi.Messages.Entry.{ErrorEntry, entry}

unfoldable pub orch_errors : List ErrorEntry
orch_errors =
    entry (negsuc 349) (codes "Session handle is invalid or expired")
      (codes "Create a new session or verify the session is still valid.")
      (some (codes "https://winafi.local/faq#session-invalid"))
    ∷ entry (negsuc 350) (codes "Operation is already in progress")
        (codes "Wait for the current operation to complete before starting a new one.")
        (some (codes "https://winafi.local/faq#operation-in-progress"))
    ∷ entry (negsuc 351) (codes "Operation was cancelled")
        (codes "Retry the operation from the beginning.")
        (some (codes "https://winafi.local/faq#operation-cancelled"))
    ∷ entry (negsuc 352) (codes "Device was disconnected during operation")
        (codes "Reconnect the USB device and restart the operation.")
        (some (codes "https://winafi.local/faq#device-disconnected"))
    ∷ entry (negsuc 353) (codes "Final sync operation failed")
        (codes "Operation may still have succeeded. Safely eject device and verify.")
        (some (codes "https://winafi.local/faq#sync-failed"))
    ∷ entry (negsuc 354) (codes "Invalid parameter passed to function")
        (codes "Verify all parameters are valid and required fields are provided.")
        (some (codes "https://winafi.local/faq#invalid-parameter"))
    ∷ entry (negsuc 355) (codes "Device changed during operation")
        (codes "Device was modified or replaced. Restart the operation.")
        (some (codes "https://winafi.local/faq#device-changed"))
    ∷ entry (negsuc 398) (codes "Unknown orchestration error occurred")
        (codes "Check system logs for more information. Try the operation again.")
        (some (codes "https://winafi.local/faq#unknown-error"))
    ∷ []
