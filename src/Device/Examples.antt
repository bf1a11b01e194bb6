-- ===== src/Device/Examples.antt =====
-- The list of devices and the checks on the machine of the samples.
use winafi.Prelude.{
  ℕ, Option, none, false, ◌==◌, if◌then◌else◌, ◌≡◌, ◌≤◌, refl, true, false, some, [], ◌∷◌, length,
  Member, here, any,
}
use winafi.Prelude.Text.{str_eq, starts_with}
use winafi.Validate.{partition_node}
use winafi.Validate.Examples.{desk_not_system, desk_unlocked}
use winafi.System.{Stat}
use winafi.Device.{
  UdevDevice, is_mount_line, device_is_mounted, partition_mounted, device_is_whole_disk_mounted,
  device_should_skip, skipped_prefixes, device_get_capacity, device_is_usb_device, mounted_at,
  device_entry, candidate, count_devices, device_enumerate, device_validate,
}
use winafi.Device.Info.{device_get_info, device_get_info-candidate}
use winafi.Device.Enumerate.{enumerate_in_bounds, enumerate_complete}
use winafi.Samples.{sdb, desk, stick, stick_udev}

pub desk_accepts : device_validate desk (some sdb) ≡ true
unfolding device_validate str_eq
desk_accepts = rw (desk_not_system, desk_unlocked) refl

pub desk_unmounted : device_is_mounted desk (some sdb) ≡ false
unfolding device_is_mounted is_mount_line any str_eq starts_with
desk_unmounted = refl

stick_kept : candidate desk stick_udev ≡ some stick
unfolding candidate device_should_skip skipped_prefixes device_get_capacity device_entry
    device_is_usb_device mounted_at device_is_whole_disk_mounted partition_mounted device_is_mounted
    is_mount_line partition_node any str_eq starts_with
stick_kept = refl

enumerate_in_bounds_example :
    length (device_enumerate desk (stick_udev ∷ []) (stick_udev ∷ stick_udev ∷ []))
    ≤ count_devices desk (stick_udev ∷ [])
enumerate_in_bounds_example =
    enumerate_in_bounds desk (stick_udev ∷ []) (stick_udev ∷ stick_udev ∷ [])

enumerate_complete_example :
    Member stick (device_enumerate desk (stick_udev ∷ []) (stick_udev ∷ []))
enumerate_complete_example =
    enumerate_complete desk {dev = stick_udev} stick (stick_udev ∷ []) (here refl) stick_kept

abbrev by_number : ℕ → Option UdevDevice
by_number n = if n == 2064 then some stick_udev else none

abbrev sdb_stat : Stat
sdb_stat = record { is_blk = true; is_reg = false; rdev = 2064; size = 0 }

device_get_info-candidate_example : device_get_info desk by_number (some sdb) ≡ some stick
unfolding str_eq
device_get_info-candidate_example =
    device_get_info-candidate desk by_number stick_udev sdb sdb_stat stick stick_kept refl refl refl
      refl
