-- ===== src/Messages/Examples.antt =====
-- Two codes of the table, and codes that it does not have.
use winafi.Prelude.{◌≡◌, ◌≢◌, refl, none, here}
use winafi.Prelude.Int.{pos, negsuc}
use winafi.Prelude.Text.{codes}
use winafi.Messages.Entry.{ErrorEntry, entry}
use winafi.Messages.Device.{device_errors}
use winafi.Messages.Partition.{partition_errors}
use winafi.Messages.Filesystem.{filesystem_errors}
use winafi.Messages.Iso.{iso_errors}
use winafi.Messages.Boot.{boot_errors}
use winafi.Messages.Orch.{orch_errors}
use winafi.Messages.Lookup.{
  error_database, find_in, find_error_entry, in_range, generic_message, error_get_message,
  error_get_recovery, error_get_faq_link, is_unknown, error_get_category,
}
use winafi.Messages.Table.{error_database-Member}

abbrev ok_entry : ErrorEntry
ok_entry = entry (pos 0) (codes "Operation completed successfully") (codes "No action needed") none

error_database-Member_example :
    (error_get_message (pos 0) ≡ codes "Operation completed successfully")
    × (error_get_recovery (pos 0) ≡ codes "No action needed")
    × (error_get_faq_link (pos 0) ≡ none)
    × (error_get_category (pos 0) ≢ is_unknown)
unfolding error_database
error_database-Member_example = error_database-Member ok_entry (here refl)

fallbacks :
    (error_get_message (negsuc 148) ≡ codes "Device operation error (see logs for details)")
    × (error_get_message (negsuc 399) ≡ codes "Unknown error (invalid error code)")
    × (error_get_message (negsuc 400) ≡ codes "Unknown error (code out of range)")
unfolding error_get_message generic_message in_range find_error_entry find_in error_database
    device_errors partition_errors filesystem_errors iso_errors boot_errors orch_errors
fallbacks = (refl, refl, refl)
