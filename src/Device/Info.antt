-- ===== src/Device/Info.antt =====
-- platform/linux/device.c: `device_get_info`, and how it agrees with the list.
use winafi.Prelude.{
  [], ap, false, Bool, ◌||◌, refl, arith, ◌∙◌, ℕ, ◌≡◌, Option, none, some, true, not, if◌then◌else◌,
  ◌==◌, Bool-cases, inl, inr,
}
use winafi.Prelude.Text.{CString, codes, fit}
use winafi.System.{System, Stat}
use winafi.Validate.{is_valid, validate_device_is_removable}
use winafi.Device.{
  device_is_whole_disk_mounted, device_find_first_mount_point, device_is_usb_device, mounted_at,
  or_else, Device, UdevDevice, device_entry, device_get_capacity, device_should_skip, candidate,
}

-- The lookup of the mounts, which a device without a name does not get.
info_mount : System → Option CString → Bool × Option CString
info_mount sys none = (false, none)
info_mount sys (some sysname) =
    if device_is_whole_disk_mounted sys sysname
    then (true, device_find_first_mount_point sys sysname 256)
    else (false, none)

-- The copies of `device_get_info` into the entry, which starts as zeros.
info_entry : System → UdevDevice → CString → Device
unfolding device_get_capacity device_is_usb_device info_mount
info_entry sys dev devnode = record {
  devnode = fit 64 devnode;
  sysname = elim dev.sysname [ some name ↦ fit 32 name | none ↦ [] ];
  capacity_bytes = device_get_capacity dev;
  vendor = fit 256 (elim dev.id_vendor [ some v ↦ v | none ↦ codes "Unknown" ]);
  model = fit 256 (elim dev.id_model [ some v ↦ v | none ↦ codes "Unknown" ]);
  serial = fit 256 (elim dev.id_serial [ some v ↦ v | none ↦ codes "Unknown" ]);
  is_removable =
      if device_is_usb_device dev
      then true
      else is_valid (validate_device_is_removable sys (some devnode));
  is_mounted = (info_mount sys dev.sysname).0;
  mount_point = elim (info_mount sys dev.sysname).1 [ some point ↦ point | none ↦ [] ];
}

-- `by_number` is `udev_device_new_from_devnum`.
pub device_get_info : System → (ℕ → Option UdevDevice) → Option CString → Option Device
unfolding info_entry
device_get_info sys by_number none = none
device_get_info sys by_number (some devnode) = elim (sys.stat devnode) [
  | none ↦ none
  | some st ↦
      if not st.is_blk
      then none
      else elim (by_number st.rdev) [ none ↦ none | some dev ↦ some (info_entry sys dev devnode) ]
]

property_or : (o : Option CString) (d : CString) → elim o [ some v ↦ v | none ↦ d ] ≡ or_else o d
property_or none d = refl
property_or (some v) d = refl

name_or :
    (o : Option CString) → elim o [ some name ↦ fit 32 name | none ↦ [] ] ≡ fit 32 (or_else o [])
name_or none = refl
name_or (some name) = refl

removable_or : (a b : Bool) → (if a then true else b) ≡ a || b
removable_or a b = ground arith

mounts_at :
    (sys : System) (o : Option CString)
    → ((info_mount sys o).0 ≡ (mounted_at sys o).0)
      × (elim (info_mount sys o).1 [ some point ↦ point | none ↦ [] ] ≡ (mounted_at sys o).1)
unfolding info_mount mounted_at
mounts_at sys none = (refl, refl)
mounts_at sys (some name) = elim (Bool-cases (device_is_whole_disk_mounted sys name)) [
  | inl yes_mounted ↦ (
    rw (info_mount, mounted_at, yes_mounted) refl,
    rw (info_mount, mounted_at, yes_mounted)
        (property_or (device_find_first_mount_point sys name 256) []),
  )
  | inr free ↦ (rw (info_mount, mounted_at, free) refl, rw (info_mount, mounted_at, free) refl)
]

-- Both blocks of copies fill the same entry.
info_entry-device_entry :
    (sys : System) (dev : UdevDevice) (devnode : CString)
    → info_entry sys dev devnode ≡ device_entry sys dev devnode (device_get_capacity dev)
unfolding info_entry device_entry
info_entry-device_entry sys dev devnode =
    let unknown = codes "Unknown" in
    let (mounted, point) = mounts_at sys dev.sysname in
    λ i. record {
      devnode = fit 64 devnode;
      sysname = name_or dev.sysname i;
      capacity_bytes = device_get_capacity dev;
      vendor = fit 256 (property_or dev.id_vendor unknown i);
      model = fit 256 (property_or dev.id_model unknown i);
      serial = fit 256 (property_or dev.id_serial unknown i);
      is_removable =
          removable_or (device_is_usb_device dev)
            (is_valid (validate_device_is_removable sys (some devnode))) i;
      is_mounted = mounted i;
      mount_point = point i;
    }

candidate_entry :
    (sys : System) (dev : UdevDevice) (devnode : CString) (d : Device)
    → candidate sys dev ≡ some d
    → dev.devnode ≡ some devnode
    → some (device_entry sys dev devnode (device_get_capacity dev)) ≡ some d
unfolding candidate
candidate_entry sys dev devnode d kept named = elim (Bool-cases (device_should_skip dev)) [
  | inl skip ↦ absurd (cc (rw (candidate, skip) at kept))
  | inr heeded ↦ elim (Bool-cases (device_get_capacity dev == 0)) [
    | inl empty ↦ absurd (cc (rw (candidate, heeded, empty) at kept))
    | inr sized ↦ rw (candidate, heeded, sized, named) at kept
  ]
]

-- Where udev knows a disk by the number of its node, `device_get_info` gives the entry that the list
-- has for the disk.
pub device_get_info-candidate :
    (sys : System) (by_number : ℕ → Option UdevDevice) (dev : UdevDevice) (devnode : CString)
    (st : Stat) (d : Device)
    → candidate sys dev ≡ some d
    → dev.devnode ≡ some devnode
    → sys.stat devnode ≡ some st
    → st.is_blk ≡ true
    → by_number st.rdev ≡ some dev
    → device_get_info sys by_number (some devnode) ≡ some d
unfolding device_get_info
device_get_info-candidate sys by_number dev devnode st d kept named found block known =
    rw (device_get_info, found, block, known)
      (ap some (info_entry-device_entry sys dev devnode)
        ∙ candidate_entry sys dev devnode d kept named)
