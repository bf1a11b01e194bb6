-- ===== src/Session/Execute.antt =====
-- `winafi_session_execute`, one function for each of its steps. `machine` is the system that it
-- runs on; `parts` is the code of the program behind it that is modelled elsewhere or not at all.
pub mod Causes
pub mod Rules
pub mod Effects
pub mod Boots
pub mod Stages
pub mod Contents
pub mod Written
pub mod Order
pub mod Examples
use Prim.Native.Nat.{bit_or}
use winafi.Prelude.{
  ℕ, zero, suc, ◌+◌, ◌*◌, ◌/◌, Bool, true, false, not, ◌&&◌, ◌||◌, Option, none, some, List, [],
  ◌∷◌, ◌==◌, if◌then◌else◌,
}
use winafi.Prelude.Text.{CString, codes}
use winafi.Device.{device_validate, device_is_mounted}
use winafi.Partition.{WipeResult, not_written, commit_failed, committed, partition_wipe_and_create}
use winafi.Os.{Machine, Log, Action, commit, boot, sleep, sync_path, extract_iso}
use winafi.Os.Io as Io
use winafi.Os.Io.{Io, event, emit, act, run}
use winafi.Mount.{
  MountContext, mount_create_temp_dirs, mount_fat32, mount_ntfs, unmount_and_cleanup,
}
use winafi.Format.{fs_format_fat32, fs_format_ntfs}
use winafi.Session.State.{
  prepared, executing, completed, error, State, Os, unknown, windows, linux, Session, set_error,
  build_partition_devnode,
}
use winafi.Session.Lifecycle.{capacity_of}
use winafi.Session.Nodes.{await_nodes}
use winafi.Session.Boot.{Parts, setup_boot}
use winafi.Session.Exec.{
  Run, Outcome, done, jump, Exec, pure, ◌>>=◌, ◌>>◌, lift, gets, modify, fail, require,
  progress_fire,
}

pub record Target : Type 0 where
  pub device : CString
  pub total_sectors : ℕ
  pub fat_device : CString
  pub ntfs_device : CString

abbrev pub boot_partition_bytes : ℕ
boot_partition_bytes = 100 * 1024 * 1024

is_prepared : State → Bool
is_prepared prepared = true
is_prepared _ = false

module _ (machine : Machine) where
  -- The two checks, each against the machine as it is at that point.
  pub check_device : Exec (Unit {0})
  check_device = do
    device ← gets (λ r. r.session.selected_device)
    usable ← gets (λ r. device_validate (machine.system r.log) (some device))
    require usable (codes "E-00-G") (codes "Device failed final safety validation")
    mounted ← gets (λ r. device_is_mounted (machine.system r.log) (some device))
    require (not mounted) (codes "E-01-D") (codes "Device is mounted — unmount first")

  node_pair : CString → Option CString → Option CString → Option (CString × CString)
  node_pair device (some fat) (some ntfs) = some (fat, ntfs)
  node_pair device _ _ = none

  or_fail : {A : Type 0} → Option A → CString → CString → Exec A
  or_fail none code message = fail code message
  or_fail (some a) code message = pure a

  -- The capacity and the names of the two partitions to come.
  pub find_target : Exec Target
  find_target = do
    progress_fire machine 0 (codes "Wiping device")
    device ← gets (λ r. r.session.selected_device)
    total ← gets (λ r. capacity_of device r.session.devices / 512)
    require (not (total == 0)) (codes "E-00-D") (codes "Cannot read device properties")
    fat ←
        or_fail (build_partition_devnode device 1 128) (codes "E-00-A")
          (codes "Cannot determine partition device paths")
    ntfs ←
        or_fail (build_partition_devnode device 2 128) (codes "E-00-A")
          (codes "Cannot determine partition device paths")
    pure (record { device = device; total_sectors = total; fat_device = fat; ntfs_device = ntfs })

  logged_wipe : CString → WipeResult → Io Bool
  logged_wipe device not_written l = (false, l)
  logged_wipe device (commit_failed t) l = (false, event (commit device t) false ∷ l)
  logged_wipe device (committed t) l = (true, event (commit device t) true ∷ l)

  wipe : CString → ℕ → Io Bool
  unfolding logged_wipe
  wipe device total l =
      logged_wipe device
        (partition_wipe_and_create (machine.system l) (machine.ped l) (some device) total
          boot_partition_bytes)
        l

  pub create_partitions : Target → Exec (Unit {0})
  create_partitions t = do
    written ← lift (wipe t.device t.total_sectors)
    require written (codes "E-20-A") (codes "Cannot create partition table")
    lift (await_nodes machine 5 t.fat_device t.ntfs_device)
    progress_fire machine 100 (codes "Wiping device")

  pub format_partitions : Target → Exec (Unit {0})
  format_partitions t = do
    progress_fire machine 0 (codes "Formatting partitions")
    fat ← lift (fs_format_fat32 machine (some t.fat_device) (some (codes "BOOT")))
    require fat (codes "E-21-A") (codes "Cannot format FAT32 partition")
    progress_fire machine 50 (codes "Formatting partitions")
    data_done ← lift (fs_format_ntfs machine (some t.ntfs_device) (some (codes "WINDOWS")))
    require data_done (codes "E-21-B") (codes "Cannot format NTFS partition")
    progress_fire machine 100 (codes "Formatting partitions")

  -- The context is stored also where making the directories fails.
  pub make_mount_dirs : Exec MountContext
  make_mount_dirs = do
    old ← gets (λ r. r.session.mount_ctx)
    made ← lift (mount_create_temp_dirs machine old)
    modify (λ s. record s { mount_ctx = made.1 })
    require made.0 (codes "E-50-B") (codes "Cannot create temporary directory")
    pure made.1

  pub mount_partitions : Target → MountContext → Exec (Unit {0})
  mount_partitions t ctx = do
    progress_fire machine 0 (codes "Mounting partitions")
    fat ← lift (mount_fat32 machine t.fat_device ctx.fat_mount)
    require fat (codes "E-22-A") (codes "Cannot mount partition")
    data_done ← lift (mount_ntfs machine t.ntfs_device ctx.ntfs_mount)
    require data_done (codes "E-22-A") (codes "Cannot mount partition")
    progress_fire machine 100 (codes "Mounting partitions")

  -- The code depends on whether the user cancelled meanwhile.
  extract_failed : Exec (Unit {0})
  extract_failed = do
    cancelled ← gets (λ r. r.session.cancelled || machine.cancelled r.log)
    if cancelled
        then fail (codes "E-30-C") (codes "Operation cancelled by user")
        else fail (codes "E-30-A") (codes "Cannot copy ISO files to USB")

  pub extract_image : MountContext → Exec (Unit {0})
  extract_image ctx = do
    progress_fire machine 0 (codes "Extracting ISO")
    iso_path ← gets (λ r. r.session.iso_path)
    extracted ← lift (emit machine (boot (extract_iso iso_path ctx.ntfs_mount)))
    if extracted then pure tt else extract_failed
    progress_fire machine 100 (codes "Extracting ISO")

  pub finish : MountContext → Exec (Unit {0})
  finish ctx = do
    progress_fire machine 100 (codes "Installing bootloaders")
    progress_fire machine 0 (codes "Syncing filesystem")
    lift (act machine (sync_path ctx.fat_mount))
    lift (act machine (sync_path ctx.ntfs_mount))
    unmounted ← lift (unmount_and_cleanup machine ctx)
    require unmounted (codes "E-22-B") (codes "Cannot unmount safely")
    progress_fire machine 100 (codes "Complete")

  -- From the mounts on.
  fill_partitions : Parts → Target → Exec (Unit {0})
  fill_partitions parts t = do
    ctx ← make_mount_dirs
    mount_partitions t ctx
    extract_image ctx
    progress_fire machine 0 (codes "Installing bootloaders")
    setup_boot machine parts ctx
    finish ctx

  -- Everything between the check of the state and the end of the function.
  pub write_usb : Parts → Exec (Unit {0})
  write_usb parts = do
    check_device
    t ← find_target
    create_partitions t
    format_partitions t
    fill_partitions parts t

  -- Both ends of the function; the error label cleans up whatever the context names.
  end_of : Outcome (Unit {0}) × Run → Bool × Run
  end_of (done u, r) = (true, record r { session = record r.session { current_state = completed } })
  end_of (jump, r) =
      let (ok, l) = unmount_and_cleanup machine r.session.mount_ctx r.log in
      (false, record { session = record r.session { current_state = error }; log = l })

  -- `true` is the result 0.
  pub execute : Parts → Run → Bool × Run
  unfolding write_usb end_of is_prepared
  execute parts r =
      let started = record r { session = record r.session { current_state = executing } } in
      let refused = set_error (codes "E-51-B") (codes "Invalid operation sequence") r.session in
      if is_prepared r.session.current_state
      then end_of (write_usb parts started)
      else (false, record r { session = refused })
