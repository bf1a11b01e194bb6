-- ===== src/Session/Boot.antt =====
-- The boot setup of `winafi_session_execute`, for the operating system that the image holds.
use Prim.Native.Nat.{bit_or}
use winafi.Prelude.{ℕ, Option, none, some, [], ◌∷◌, ◌==◌, if◌then◌else◌}
use winafi.Prelude.Text.{CString, codes}
use winafi.Os.{
  Machine, boot, BootAction, inject_autounattend, inject_wue, detect_windows, windows_boot,
  linux_boot, uefi_ntfs, grub_install, exit_ok,
}
use winafi.Os.Io.{emit, run}
use winafi.Mount.{MountContext}
use winafi.Session.State.{Os, unknown, windows, linux, set_error}
use winafi.Session.Exec.{Exec, pure, ◌>>=◌, ◌>>◌, lift, gets, modify, require}

-- `wue_generate_xml` for a flag set and a user name; `none` is NULL.
pub record Parts : Type 0 where
  pub wue_generate_xml : ℕ → Option CString → Option CString

abbrev pub hide_install_media : ℕ
hide_install_media = 0x2000

abbrev pub offline_drives : ℕ
offline_drives = 0x10

abbrev pub wintogo : ℕ
wintogo = 3

module _ (machine : Machine) where
  unfoldable pub boot_step : BootAction → CString → CString → Exec (Unit {0})
  boot_step a code message = do
    succeeded ← lift (emit machine (boot a))
    require succeeded code message

  -- A NULL text is passed over.
  unfoldable pub inject :
      Option CString → (CString → BootAction) → CString → CString → Exec (Unit {0})
  unfolding boot_step
  inject none a code message = pure tt
  inject (some xml) a code message = boot_step (a xml) code message

  unfoldable pub windows_loader : MountContext → Exec (Unit {0})
  unfolding boot_step
  windows_loader ctx = do
    fs ← gets (λ r. r.session.options.filesystem)
    boot_step (windows_boot ctx.ntfs_mount fs) (codes "E-40-A")
        (codes "Cannot setup Windows boot environment")

  unfoldable pub linux_setup : MountContext → Exec (Unit {0})
  unfolding boot_step
  linux_setup ctx = do
    fs ← gets (λ r. r.session.options.filesystem)
    boot_step (linux_boot ctx.ntfs_mount fs) (codes "E-40-B")
        (codes "Cannot setup Linux boot environment")

  -- A failure of the UEFI part is recorded, and the write goes on.
  unfoldable pub generic_setup : MountContext → Exec (Unit {0})
  generic_setup ctx = do
    device ← gets (λ r. r.session.selected_device)
    grub ← lift (run machine (grub_install device))
    require (exit_ok grub) (codes "E-40-A") (codes "Cannot install GRUB bootloader")
    uefi ← lift (emit machine (boot (uefi_ntfs ctx.fat_mount)))
    if uefi
        then pure tt
        else modify (set_error (codes "E-41-B") (codes "Cannot configure UEFI boot partition"))

-- The text of the customization for the flags that hold after the installer's own is added.
unfoldable pub customization : Parts → ℕ → ℕ → CString → Option CString
customization parts image_option flags username =
    let effective = if image_option == wintogo then flags else bit_or flags hide_install_media in
    if effective == 0
    then none
    else parts.wue_generate_xml effective (elim username [ [] ↦ none | c ∷ r ↦ some (c ∷ r) ])

unfoldable pub wintogo_config : Parts → ℕ → Option CString
wintogo_config parts image_option =
    if image_option == wintogo then parts.wue_generate_xml offline_drives none else none

module _ (machine : Machine) where
  -- A detection that fails only skips the setup of the loader.
  unfoldable pub windows_detection : MountContext → Exec (Unit {0})
  windows_detection ctx = do
    iso_path ← gets (λ r. r.session.iso_path)
    detected ← lift (emit machine (boot (detect_windows iso_path)))
    if detected then windows_loader machine ctx else pure tt

module _ (machine : Machine) (parts : Parts) where
  unfoldable pub windows_setup : MountContext → Exec (Unit {0})
  windows_setup ctx = do
    option ← gets (λ r. r.session.options.image_option)
    flags ← gets (λ r. r.session.unattend_flags)
    username ← gets (λ r. r.session.unattend_username)
    inject machine (customization parts option flags username)
        (λ xml. inject_autounattend xml ctx.ntfs_mount) (codes "E-40-D")
        (codes "Cannot inject Windows customization")
    inject machine (wintogo_config parts option) (λ xml. inject_wue xml ctx.ntfs_mount)
        (codes "E-40-C") (codes "Cannot inject Windows To Go configuration")
    windows_detection machine ctx
    boot_step machine (uefi_ntfs ctx.fat_mount) (codes "E-41-A")
        (codes "Cannot install UEFI boot loader to ESP")

  unfoldable pub setup_for : Os → MountContext → Exec (Unit {0})
  setup_for windows ctx = windows_setup ctx
  setup_for linux ctx = linux_setup machine ctx
  setup_for unknown ctx = generic_setup machine ctx

  unfoldable pub setup_boot : MountContext → Exec (Unit {0})
  setup_boot ctx = do os ← gets (λ r. r.session.iso_info.os_type); setup_for os ctx
