-- ===== src/Messages/Table.antt =====
-- The table of the error codes has each code once.
use winafi.Prelude.{
  Bool, true, false, not, ◌&&◌, ◌≡◌, ◌≢◌, refl, sym, some, List, [], ◌∷◌, any, any-false-Member,
  here, there, Member, arith,
}
use winafi.Prelude.Int.{ℤ, pos, negsuc}
use winafi.Messages.Entry.{ErrorEntry}
use winafi.Messages.Device.{device_errors}
use winafi.Messages.Partition.{partition_errors}
use winafi.Messages.Filesystem.{filesystem_errors}
use winafi.Messages.Iso.{iso_errors}
use winafi.Messages.Boot.{boot_errors}
use winafi.Messages.Orch.{orch_errors}
use winafi.Messages.Lookup.{
  error_database, eq_code, find_in, find_error_entry, in_range, error_get_message,
  error_get_recovery, error_get_faq_link, is_unknown, error_get_category,
}

-- No code stands twice.
distinct : List ErrorEntry → Bool
distinct [] = true
distinct (e ∷ es) =
    let rest = distinct es in not (any (λ x. eq_code e.error_code x.error_code) es) && rest

eq_code_refl : (c : ℤ) → eq_code c c ≡ true
eq_code_refl (pos n) = ground arith
eq_code_refl (negsuc n) = ground arith

find_in-Member :
    (es : List ErrorEntry) (e : ErrorEntry)
    → distinct es ≡ true
    → Member e es
    → find_in es e.error_code ≡ some e
unfolding find_in distinct
find_in-Member [] e d m = elim m [ ]
find_in-Member (x ∷ es) e d (here same) = rw (sym same, find_in, eq_code_refl x.error_code) refl
find_in-Member (x ∷ es) e d (there m) =
    let other = any-false-Member (λ y. eq_code x.error_code y.error_code) m (ground arith) in
    rw (find_in, other) (find_in-Member es e (ground arith) m)

distinct-error_database : distinct error_database ≡ true
unfolding distinct error_database device_errors partition_errors filesystem_errors iso_errors
    boot_errors orch_errors any
distinct-error_database = refl

-- Whether a code has no category.
uncategorized : ErrorEntry → Bool
uncategorized e = elim (error_get_category e.error_code) [ is_unknown ↦ true | _ ↦ false ]

categorized-error_database : any uncategorized error_database ≡ false
unfolding uncategorized error_get_category in_range error_database device_errors partition_errors
    filesystem_errors iso_errors boot_errors orch_errors any
categorized-error_database = refl

-- Every entry of the table is found by its code, with its own message, advice and link, and its code
-- has a category.
pub error_database-Member :
    (e : ErrorEntry)
    → Member e error_database
    → (error_get_message e.error_code ≡ e.message)
      × (error_get_recovery e.error_code ≡ e.recovery)
      × (error_get_faq_link e.error_code ≡ e.faq_link)
      × (error_get_category e.error_code ≢ is_unknown)
unfolding error_get_message error_get_recovery error_get_faq_link find_error_entry uncategorized
error_database-Member e m =
    let found = find_in-Member error_database e distinct-error_database m in
    let apart = any-false-Member uncategorized m categorized-error_database in
    (
      rw (error_get_message, find_error_entry, found) refl,
      rw (error_get_recovery, find_error_entry, found) refl,
      rw (error_get_faq_link, find_error_entry, found) refl,
      λ unknown. cc (rw (uncategorized, unknown) at apart),
    )
