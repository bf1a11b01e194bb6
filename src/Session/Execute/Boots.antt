-- ===== src/Session/Execute/Boots.antt =====
-- The boot setup, against what has to be done before it.
use mathlib.Core.Option.{some-injective}
use winafi.Prelude.{
  Member, ◌⊎◌, inl, inr, false, subst, ◌∙◌, ap, ◌≡◌, ◌≢◌, refl, true, [], Option, none, some, here,
  there,
}
use winafi.Prelude.Text.{CString, fit}
use winafi.Os.{
  Action, Event, inject_autounattend, inject_wue, detect_windows, windows_boot, Machine, Log,
  BootAction, linux_boot, uefi_ntfs, exit_ok, spawn, boot, grub_install,
}
use winafi.Os.Io.{event}
use winafi.Mount.{MountContext}
use winafi.Session.State.{Session, Os, windows, linux, unknown}
use winafi.Session.Exec.{Run}
use winafi.Session.Boot.{
  Parts, customization, wintogo_config, windows_detection, boot_step, inject, windows_loader,
  linux_setup, generic_setup, windows_setup, setup_for, setup_boot,
}
use winafi.Session.Execute.Causes.{
  held, Needs, Causal, Causal-trans, later, Mounted, Extracted, Did,
}
use winafi.Session.Execute.Rules.{
  coded, Safe-weaken, Safe-after, Due-emit, Due-run, Safe, Safe-pure, Safe-bind, Safe-lift,
  Safe-require, Safe-read, Safe-modify, Safe-if,
}

-- What the setup for Windows has done: the customization and the Windows To Go configuration, where
-- the session asks for one, the loader, unless the image shows no Windows, and the UEFI part.
pub record WindowsReady (parts : Parts) (s : Session) (ctx : MountContext) (l : Log) : Type 0 where
  pub customized :
      (xml : CString)
      → customization parts s.options.image_option s.unattend_flags s.unattend_username ≡ some xml
      → Did (boot (inject_autounattend xml ctx.ntfs_mount)) l
  pub to_go :
      (xml : CString)
      → wintogo_config parts s.options.image_option ≡ some xml
      → Did (boot (inject_wue xml ctx.ntfs_mount)) l
  pub loader :
      Member (event (boot (detect_windows s.iso_path)) false) l
      ⊎ Did (boot (windows_boot ctx.ntfs_mount s.options.filesystem)) l
  pub uefi : Did (boot (uefi_ntfs ctx.fat_mount)) l

-- What the setup for each operating system has done, with success.
abbrev pub Bootable : Parts → Session → MountContext → Os → Log → Type 0
Bootable parts s ctx windows l = WindowsReady parts s ctx l
Bootable parts s ctx linux l = Did (boot (linux_boot ctx.ntfs_mount s.options.filesystem)) l
Bootable parts s ctx unknown l = Did (spawn (grub_install s.selected_device)) l

module _ {machine : Machine} {dev : CString} where
  pub Extracted-later : {l l' : Log} → Causal machine dev l l' → Extracted l → Extracted l'
  Extracted-later c (image, dir, m) = (image, dir, later machine dev c m)

  pub Mounted-later :
      {l l' : Log} (dir : CString) → Causal machine dev l l' → Mounted dir l → Mounted dir l'
  Mounted-later dir c (type, node, m) = (type, node, later machine dev c m)

  loader-later :
      {l l' : Log} {e : Event} {a : Action}
      → Causal machine dev l l'
      → Member e l ⊎ Did a l
      → Member e l' ⊎ Did a l'
  loader-later c (inl m) = inl (held machine dev c m)
  loader-later c (inr m) = inr (later machine dev c m)

  pub Bootable-later :
      {l l' : Log} (parts : Parts) (s : Session) (ctx : MountContext) (os : Os)
      → Causal machine dev l l'
      → Bootable parts s ctx os l
      → Bootable parts s ctx os l'
  Bootable-later parts s ctx windows c w = record {
    customized = λ xml e. later machine dev c (w.customized xml e);
    to_go = λ xml e. later machine dev c (w.to_go xml e);
    loader = loader-later c w.loader;
    uefi = later machine dev c w.uefi;
  }
  Bootable-later parts s ctx linux c m = later machine dev c m
  Bootable-later parts s ctx unknown c m = later machine dev c m

  boot_step-Safe :
      (a : BootAction) (code message : CString) {r : Run}
      → fit 16 code ≢ []
      → Needs machine dev (boot a) r.log
      → Safe machine dev
          (boot_step machine a code message)
          r
          (λ u r'. (r'.session ≡ r.session) × Did (boot a) r'.log)
  unfolding boot_step
  boot_step-Safe a code message {r = r} h n =
      Safe-bind
        (Safe-lift {Q = λ b r'. (r'.session ≡ r.session) × (b ≡ true → Did (boot a) r'.log)}
          (Due-emit (boot a) n (λ b. (refl, λ e. here (ap (event (boot a)) e)))))
        (λ b r' c (e, q). Safe-require b code message h (λ t. (e, q t)))

  inject-Safe :
      (xml : Option CString) (a : CString → BootAction) (code message : CString) {r : Run}
      → fit 16 code ≢ []
      → ((x : CString) → Needs machine dev (boot (a x)) r.log)
      → Safe machine dev (inject machine xml a code message) r (λ u r'.
        (r'.session ≡ r.session) × ((x : CString) → xml ≡ some x → Did (boot (a x)) r'.log))
  unfolding inject
  inject-Safe none a code message h n = Safe-pure tt (refl, λ x e. absurd (cc e))
  inject-Safe (some x) a code message h n =
      Safe-weaken (boot_step-Safe (a x) code message h (n x))
        (λ u r' q. (q.0, λ y e. subst (λ z. Did (boot (a z)) r'.log) (some-injective _ _ e) q.1))

  windows_loader-Safe :
      (ctx : MountContext) {r : Run}
      → Extracted r.log
      → Safe machine dev
          (windows_loader machine ctx)
          r
          (λ u r'. Did (boot (windows_boot ctx.ntfs_mount r.session.options.filesystem)) r'.log)
  unfolding windows_loader
  windows_loader-Safe ctx x =
      Safe-read _ _ (Safe-weaken (boot_step-Safe _ _ _ coded x) (λ u r' q. q.1))

  -- The detection, and the loader behind it.
  detected-Safe :
      (ctx : MountContext) (s : Session) {r : Run}
      → r.session ≡ s
      → Extracted r.log
      → Safe machine dev (windows_detection machine ctx) r (λ u r'.
        Member (event (boot (detect_windows s.iso_path)) false) r'.log
        ⊎ Did (boot (windows_boot ctx.ntfs_mount s.options.filesystem)) r'.log)
  unfolding windows_detection
  detected-Safe ctx s {r = r} same x = Safe-read _ _ (
      Safe-bind
        (Safe-lift
          {Q = λ b r'.
            (r'.session ≡ s)
            × (b ≡ false → Member (event (boot (detect_windows s.iso_path)) false) r'.log)}
          (Due-emit (boot (detect_windows r.session.iso_path)) x (λ b. (
            same,
            λ h. here (
                ap (event (boot (detect_windows r.session.iso_path))) h
                ∙ ap (λ q. event (boot (detect_windows q.iso_path)) false) same),
          ))))
        (λ b r1 c1 (e1, missed).
          Safe-if b
            (λ t. Safe-weaken (windows_loader-Safe ctx (Extracted-later c1 x)) (λ u r' q. inr (
              subst (λ q. Did (boot (windows_boot ctx.ntfs_mount q.options.filesystem)) r'.log) e1
                q)))
            (λ f. Safe-pure tt (inl (missed f)))))

  windows_setup-Safe :
      (parts : Parts) (ctx : MountContext) {r : Run}
      → Extracted r.log
      → Mounted ctx.fat_mount r.log
      → Safe machine dev
          (windows_setup machine parts ctx)
          r
          (λ u r'. WindowsReady parts r.session ctx r'.log)
  unfolding windows_setup
  windows_setup-Safe parts ctx {r = r} x m = Safe-read _ _ (
      Safe-read _ _ (
        Safe-read _ _ (
          Safe-bind (inject-Safe _ _ _ _ coded (λ xml. x)) (λ u r1 c1 (e1, i1).
            Safe-bind (inject-Safe _ _ _ _ coded (λ xml. Extracted-later c1 x)) (λ u r2 c2 (e2, i2).
              let x2 = Extracted-later c2 (Extracted-later c1 x) in
              let m2 = Mounted-later _ c2 (Mounted-later _ c1 m) in
              Safe-bind (detected-Safe ctx r.session (e2 ∙ e1) x2) (λ u r3 c3 d3.
                Safe-after
                  (boot_step-Safe _ _ _ coded (Extracted-later c3 x2, Mounted-later _ c3 m2))
                  (λ u r4 c4 q.
                    let c = Causal-trans machine dev c3 c4 in
                    record {
                      customized =
                          λ xml e. later machine dev (Causal-trans machine dev c2 c) (i1 xml e);
                      to_go = λ xml e. later machine dev c (i2 xml e);
                      loader = loader-later c4 d3;
                      uefi = q.1;
                    })))))))

  linux_setup-Safe :
      (ctx : MountContext) {r : Run}
      → Extracted r.log
      → Safe machine dev
          (linux_setup machine ctx)
          r
          (λ u r'. Did (boot (linux_boot ctx.ntfs_mount r.session.options.filesystem)) r'.log)
  unfolding linux_setup
  linux_setup-Safe ctx x =
      Safe-read _ _ (Safe-weaken (boot_step-Safe _ _ _ coded x) (λ u r' q. q.1))

  generic_setup-Safe :
      (ctx : MountContext) {r : Run}
      → r.session.selected_device ≡ dev
      → Extracted r.log
      → Mounted ctx.fat_mount r.log
      → Safe machine dev
          (generic_setup machine ctx)
          r
          (λ u r'. Did (spawn (grub_install r.session.selected_device)) r'.log)
  unfolding generic_setup
  generic_setup-Safe ctx {r = r} e x m =
      let sel = r.session.selected_device in
      Safe-read _ _ (
        Safe-bind
          (Safe-lift {Q = λ w s. exit_ok w ≡ true → Did (spawn (grub_install sel)) s.log} (
            Due-run (grub_install sel) (e, x)
              (λ w h. here (ap (event (spawn (grub_install sel))) h))))
          (λ w r1 c1 q1.
            Safe-bind
              (Safe-require {Q = λ u s. Did (spawn (grub_install sel)) s.log} (exit_ok w) _ _ coded
                q1)
              (λ u r2 c2 d2.
                let c = Causal-trans machine dev c1 c2 in
                Safe-bind
                  (Safe-lift {Q = λ b s. Did (spawn (grub_install sel)) s.log}
                    (Due-emit _ (Extracted-later c x, Mounted-later _ c m) (λ b. there d2)))
                  (λ b r3 c3 d3. Safe-if b (λ t. Safe-pure tt d3) (λ t. Safe-modify _ d3)))))

  setup_for-Safe :
      (parts : Parts) (os : Os) (ctx : MountContext) {r : Run}
      → r.session.selected_device ≡ dev
      → Extracted r.log
      → Mounted ctx.fat_mount r.log
      → Safe machine dev
          (setup_for machine parts os ctx)
          r
          (λ u r'. Bootable parts r.session ctx os r'.log)
  unfolding setup_for
  setup_for-Safe parts windows ctx e x m = windows_setup-Safe parts ctx x m
  setup_for-Safe parts linux ctx e x m = linux_setup-Safe ctx x
  setup_for-Safe parts unknown ctx e x m = generic_setup-Safe ctx e x m

  pub setup_boot-Safe :
      (parts : Parts) (ctx : MountContext) {r : Run}
      → r.session.selected_device ≡ dev
      → Extracted r.log
      → Mounted ctx.fat_mount r.log
      → Safe machine dev
          (setup_boot machine parts ctx)
          r
          (λ u r'. Bootable parts r.session ctx r.session.iso_info.os_type r'.log)
  unfolding setup_boot
  setup_boot-Safe parts ctx {r = r} e x m =
      Safe-read _ _ (setup_for-Safe parts r.session.iso_info.os_type ctx e x m)
