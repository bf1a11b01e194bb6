-- ===== src/Messages/Lookup.antt =====
-- platform/linux/error_messages.c: the search, the texts and the categories.
use winafi.Prelude.{
  ℕ, Bool, false, not, ◌&&◌, Option, none, some, List, [], ◌∷◌, ◌++◌, ◌==◌, if◌then◌else◌,
}
use winafi.Prelude.Int.{ℤ, pos, negsuc, ltb_ℤ}
use winafi.Prelude.Text.{CString, codes}
use winafi.Messages.Entry.{ErrorEntry, entry}
use winafi.Messages.Device.{device_errors}
use winafi.Messages.Partition.{partition_errors}
use winafi.Messages.Filesystem.{filesystem_errors}
use winafi.Messages.Iso.{iso_errors}
use winafi.Messages.Boot.{boot_errors}
use winafi.Messages.Orch.{orch_errors}

unfoldable pub error_database : List ErrorEntry
error_database =
    entry (pos 0) (codes "Operation completed successfully") (codes "No action needed") none
    ∷ (device_errors
        ++ (partition_errors
            ++ (filesystem_errors ++ (iso_errors ++ (boot_errors ++ orch_errors)))))

abbrev pub eq_code : ℤ → ℤ → Bool
eq_code (pos a) (pos b) = a == b
eq_code (negsuc a) (negsuc b) = a == b
eq_code (pos a) (negsuc b) = false
eq_code (negsuc a) (pos b) = false

-- The loop of `find_error_entry` over a table.
unfoldable pub find_in : List ErrorEntry → ℤ → Option ErrorEntry
find_in [] code = none
find_in (e ∷ es) code =
    let rest = find_in es code in if eq_code e.error_code code then some e else rest

unfoldable pub find_error_entry : ℤ → Option ErrorEntry
find_error_entry code = find_in error_database code

-- `code >= -low && code <= -high`.
unfoldable pub in_range : ℕ → ℕ → ℤ → Bool
in_range low high (pos n) = false
in_range low high (negsuc n) =
    not (ltb_ℤ (negsuc n) (negsuc low)) && not (ltb_ℤ (negsuc high) (negsuc n))

-- The comparisons of the source with -149 and -100, and so on; `negsuc 148` is -149.
unfoldable pub error_is_device_error : ℤ → Bool
error_is_device_error = in_range 148 99

unfoldable pub error_is_partition_error : ℤ → Bool
error_is_partition_error = in_range 198 149

unfoldable pub error_is_filesystem_error : ℤ → Bool
error_is_filesystem_error = in_range 248 199

unfoldable pub error_is_iso_error : ℤ → Bool
error_is_iso_error = in_range 298 249

unfoldable pub error_is_boot_error : ℤ → Bool
error_is_boot_error = in_range 348 299

unfoldable pub error_is_orch_error : ℤ → Bool
error_is_orch_error = in_range 398 349

unfoldable pub error_is_ok : ℤ → Bool
error_is_ok code = eq_code code (pos 0)

-- The texts for a code that is not in the table.
unfoldable pub generic_message : ℤ → CString
generic_message (pos n) = if n == 0 then codes "No error" else codes "Unknown success code"
generic_message (negsuc n) =
    if ltb_ℤ (negsuc n) (negsuc 399)
    then codes "Unknown error (code out of range)"
    else if in_range 148 99 (negsuc n)
    then codes "Device operation error (see logs for details)"
    else if in_range 198 149 (negsuc n)
    then codes "Partition operation error (see logs for details)"
    else if in_range 248 199 (negsuc n)
    then codes "Filesystem operation error (see logs for details)"
    else if in_range 298 249 (negsuc n)
    then codes "ISO operation error (see logs for details)"
    else if in_range 348 299 (negsuc n)
    then codes "Boot operation error (see logs for details)"
    else if in_range 398 349 (negsuc n)
    then codes "Orchestration error (see logs for details)"
    else codes "Unknown error (invalid error code)"

unfoldable pub error_get_message : ℤ → CString
error_get_message code = elim (find_error_entry code) [
  | some e ↦ e.message
  | none ↦ generic_message code
]

unfoldable pub generic_recovery : ℤ → CString
generic_recovery (pos n) =
    if n == 0
    then codes "No action needed"
    else codes "Unexpected success code - no recovery needed"
generic_recovery (negsuc n) =
    codes "Try again or check system logs for details. Contact support if problem persists."

unfoldable pub error_get_recovery : ℤ → CString
error_get_recovery code = elim (find_error_entry code) [
  | some e ↦ e.recovery
  | none ↦ generic_recovery code
]

unfoldable pub error_get_faq_link : ℤ → Option CString
error_get_faq_link code = elim (find_error_entry code) [ some e ↦ e.faq_link | none ↦ none ]

pub data Category : Type 0 where
  is_ok is_device is_partition is_filesystem is_iso is_boot is_orch is_unknown : Category

unfoldable pub error_get_category : ℤ → Category
error_get_category code =
    if eq_code code (pos 0)
    then is_ok
    else if in_range 148 99 code
    then is_device
    else if in_range 198 149 code
    then is_partition
    else if in_range 248 199 code
    then is_filesystem
    else if in_range 298 249 code
    then is_iso
    else if in_range 348 299 code
    then is_boot
    else if in_range 398 349 code
    then is_orch
    else is_unknown

unfoldable pub error_get_category_name : Category → CString
error_get_category_name is_ok = codes "Success"
error_get_category_name is_device = codes "Device"
error_get_category_name is_partition = codes "Partition"
error_get_category_name is_filesystem = codes "Filesystem"
error_get_category_name is_iso = codes "ISO"
error_get_category_name is_boot = codes "Boot"
error_get_category_name is_orch = codes "Operation"
error_get_category_name is_unknown = codes "Unknown"
