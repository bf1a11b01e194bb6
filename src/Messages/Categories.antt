-- ===== src/Messages/Categories.antt =====
-- The categories of the error codes and the tests on them.
use winafi.Prelude.{◌≡◌, ◌↔◌, true, arith}
use winafi.Prelude.Int.{ℤ, pos, negsuc}
use winafi.Messages.Lookup.{
  in_range, is_ok, is_device, is_partition, is_filesystem, is_iso, is_boot, is_orch,
  error_get_category, error_is_ok, error_is_device_error, error_is_partition_error,
  error_is_filesystem_error, error_is_iso_error, error_is_boot_error, error_is_orch_error,
}

-- Each of the seven tests holds of a code exactly if the code has the category of that name.
pub error_get_category_iff :
    (code : ℤ)
    → ((error_is_ok code ≡ true) ↔ (error_get_category code ≡ is_ok))
      × ((error_is_device_error code ≡ true) ↔ (error_get_category code ≡ is_device))
      × ((error_is_partition_error code ≡ true) ↔ (error_get_category code ≡ is_partition))
      × ((error_is_filesystem_error code ≡ true) ↔ (error_get_category code ≡ is_filesystem))
      × ((error_is_iso_error code ≡ true) ↔ (error_get_category code ≡ is_iso))
      × ((error_is_boot_error code ≡ true) ↔ (error_get_category code ≡ is_boot))
      × ((error_is_orch_error code ≡ true) ↔ (error_get_category code ≡ is_orch))
unfolding error_get_category error_is_ok error_is_device_error error_is_partition_error
    error_is_filesystem_error error_is_iso_error error_is_boot_error error_is_orch_error in_range
error_get_category_iff (pos n) = (
  ground arith,
  ground arith,
  ground arith,
  ground arith,
  ground arith,
  ground arith,
  ground arith,
)
error_get_category_iff (negsuc n) = (
  ground arith,
  ground arith,
  ground arith,
  ground arith,
  ground arith,
  ground arith,
  ground arith,
)
