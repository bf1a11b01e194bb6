-- ===== src/Device/Enumerate.antt =====
-- The list that `device_enumerate` hands out.
use winafi.Prelude.{
  ℕ, zero, suc, ◌≤◌, ◌<◌, ◌≡◌, refl, sym, subst, none, some, List, [], ◌∷◌, arith, length, All,
  Option-cases, inl, inr, Member, here, there,
}
use winafi.System.{System}
use winafi.Device.{
  Device, UdevDevice, candidate, count_devices, fill_devices, device_enumerate, device_entry,
}

fill_bound :
    (sys : System) (room : ℕ) (devs : List UdevDevice) → length (fill_devices sys room devs) ≤ room
unfolding fill_devices
fill_bound sys room [] = omega arith
fill_bound sys zero (dev ∷ devs) = omega arith
fill_bound sys (suc room) (dev ∷ devs) =
    ground (arith, fill_bound sys (suc room) devs, fill_bound sys room devs)

-- The second pass never writes past the array that the first one sized, whatever udev answers the
-- second time.
pub enumerate_in_bounds :
    (sys : System) (first second : List UdevDevice)
    → length (device_enumerate sys first second) ≤ count_devices sys first
unfolding device_enumerate
enumerate_in_bounds sys first second = fill_bound sys (count_devices sys first) second

count-cons_none :
    (sys : System) (dev : UdevDevice) (devs : List UdevDevice)
    → candidate sys dev ≡ none
    → count_devices sys (dev ∷ devs) ≡ count_devices sys devs
unfolding count_devices
count-cons_none sys dev devs e = ground arith

fill-cons_none :
    (sys : System) (room : ℕ) (dev : UdevDevice) (devs : List UdevDevice)
    → candidate sys dev ≡ none
    → fill_devices sys room (dev ∷ devs) ≡ fill_devices sys room devs
unfolding fill_devices
fill-cons_none sys zero dev [] e = refl
fill-cons_none sys zero dev (x ∷ devs) e = refl
fill-cons_none sys (suc room) dev devs e = ground arith

enumerate-cons_none :
    (sys : System) (dev : UdevDevice) (devs : List UdevDevice)
    → candidate sys dev ≡ none
    → device_enumerate sys (dev ∷ devs) (dev ∷ devs) ≡ device_enumerate sys devs devs
unfolding device_enumerate
enumerate-cons_none sys dev devs e =
    rw (count-cons_none sys dev devs e) (fill-cons_none sys (count_devices sys devs) dev devs e)

enumerate-cons_some :
    (sys : System) (dev : UdevDevice) (d : Device) (devs : List UdevDevice)
    → candidate sys dev ≡ some d
    → device_enumerate sys (dev ∷ devs) (dev ∷ devs) ≡ d ∷ device_enumerate sys devs devs
unfolding device_enumerate count_devices fill_devices
enumerate-cons_some sys dev d devs e = rw (e, count_devices) (rw (e, fill_devices) refl)

-- Where both passes see the same disks, every disk that passes the filter is in the list.
pub enumerate_complete :
    (sys : System) {dev : UdevDevice} (d : Device) (devs : List UdevDevice)
    → Member dev devs
    → candidate sys dev ≡ some d
    → Member d (device_enumerate sys devs devs)
enumerate_complete sys d [] m e = elim m [ ]
enumerate_complete sys d (x ∷ devs) (here q) e =
    subst (Member d) (sym (enumerate-cons_some sys x d devs (rw q e))) (here refl)
enumerate_complete sys d (x ∷ devs) (there m) e = elim (Option-cases (candidate sys x)) [
  | inl skip ↦
      subst (Member d) (sym (enumerate-cons_none sys x devs skip))
        (enumerate_complete sys d devs m e)
  | inr (d', keep) ↦
      subst (Member d) (sym (enumerate-cons_some sys x d' devs keep))
        (there (enumerate_complete sys d devs m e))
]

candidate_capacity :
    (sys : System) (dev : UdevDevice) (d : Device)
    → candidate sys dev ≡ some d
    → 0 < d.capacity_bytes
unfolding candidate device_entry
candidate_capacity sys dev d e = ground arith

fill_capacity :
    (sys : System) (room : ℕ) (devs : List UdevDevice)
    → All (λ (d : Device). 0 < d.capacity_bytes) (fill_devices sys room devs)
unfolding fill_devices
fill_capacity sys room [] = tt
fill_capacity sys zero (dev ∷ devs) = tt
fill_capacity sys (suc room) (dev ∷ devs) = elim (Option-cases (candidate sys dev)) [
  | inl e ↦ rw (e, fill_devices) (fill_capacity sys (suc room) devs)
  | inr (d, e) ↦ rw (e, fill_devices) (candidate_capacity sys dev d e, fill_capacity sys room devs)
]

-- Every listed device has a capacity.
pub enumerate_capacity :
    (sys : System) (first second : List UdevDevice)
    → All (λ (d : Device). 0 < d.capacity_bytes) (device_enumerate sys first second)
unfolding device_enumerate
enumerate_capacity sys first second = fill_capacity sys (count_devices sys first) second
