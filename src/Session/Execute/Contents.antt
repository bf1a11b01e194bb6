-- ===== src/Session/Execute/Contents.antt =====
-- The write from the file systems on, against what has to be done before each of its steps.
use winafi.Prelude.{◌∙◌, ap, here, refl, true, ◌||◌, ◌≡◌}
use winafi.Prelude.Text.{CString, codes}
use winafi.Os.{Machine, commit, boot, extract_iso}
use winafi.Os.Io.{event}
use winafi.Mount.{MountContext}
use winafi.Session.State.{Session}
use winafi.Session.Exec.{Run}
use winafi.Session.Execute.{
  Target, extract_failed, extract_image, finish, format_partitions, make_mount_dirs,
  mount_partitions,
}
use winafi.Session.Execute.Causes.{
  Committed, Did, Extracted, FatMade, Released, HasDirs, Mounted, NtfsMade, later,
}
use winafi.Session.Execute.Rules.{
  Due-act, Due-after, Due-emit, Safe, Safe-bind, Safe-fail, Safe-fire, Safe-if, Safe-lift,
  Safe-pure, Safe-read, Safe-require, Safe-store, Whatever, coded,
}
use winafi.Session.Execute.Effects.{
  fat32-Due, mount_fat32-Due, mount_ntfs-Due, ntfs-Due, temp_dirs-Due, unmount-Due, Released-later,
}
use winafi.Session.Execute.Stages.{Names}
use winafi.Session.Execute.Boots.{Extracted-later, Mounted-later}

-- The session with the directories of the write.
abbrev pub with_ctx : MountContext → Session → Session
with_ctx ctx s = record s { mount_ctx = ctx }

module _ {machine : Machine} {dev : CString} where
  pub format-Safe :
      {r : Run} (t : Target)
      → Names dev t
      → Committed dev r.log
      → Safe machine dev (format_partitions machine t) r (λ u r'.
        FatMade t.fat_device r'.log × NtfsMade t.ntfs_device r'.log × (r'.session ≡ r.session))
  unfolding format_partitions
  format-Safe {r = r} t n (w, m) =
      Safe-bind
        (Safe-fire 0 _ {Q = λ u s. Did (commit dev w) s.log × (s.session ≡ r.session)}
          (λ l c. (later machine dev c m, refl)))
        (λ u r1 c1 (m1, e1).
          Safe-bind
            (Safe-lift
              {Q = λ b s.
                (b ≡ true → FatMade t.fat_device s.log)
                × Did (commit dev w) s.log
                × (s.session ≡ r.session)}
              (Due-after (fat32-Due t.fat_device (w, m1) n.fat_node)
                (λ b l c q. (q, later machine dev c m1, e1))))
            (λ b r2 c2 (f2, m2, e2).
              Safe-bind
                (Safe-require
                  {Q = λ u s.
                    FatMade t.fat_device s.log × Did (commit dev w) s.log × (s.session ≡ r.session)}
                  b _ _ coded (λ h. (f2 h, m2, e2)))
                (λ u r3 c3 (f3, m3, e3).
                  Safe-bind
                    (Safe-fire 50 _
                      {Q = λ u s.
                        FatMade t.fat_device s.log
                        × Did (commit dev w) s.log
                        × (s.session ≡ r.session)}
                      (λ l c. (later machine dev c f3, later machine dev c m3, e3)))
                    (λ u r4 c4 (f4, m4, e4).
                      Safe-bind
                        (Safe-lift
                          {Q = λ b s.
                            (b ≡ true → NtfsMade t.ntfs_device s.log)
                            × FatMade t.fat_device s.log
                            × (s.session ≡ r.session)}
                          (Due-after (ntfs-Due t.ntfs_device (w, m4) n.ntfs_node)
                            (λ b l c q. (q, later machine dev c f4, e4))))
                        (λ d r5 c5 (g5, f5, e5).
                          Safe-bind
                            (Safe-require
                              {Q = λ u s.
                                NtfsMade t.ntfs_device s.log
                                × FatMade t.fat_device s.log
                                × (s.session ≡ r.session)}
                              d _ _ coded (λ h. (g5 h, f5, e5)))
                            (λ u r6 c6 (g6, f6, e6).
                              Safe-fire 100 _
                                (λ l c. (later machine dev c f6, later machine dev c g6, e6))))))))

  pub make_dirs-Safe :
      {r : Run}
      → Safe machine dev
          (make_mount_dirs machine)
          r
          (λ ctx r'. (r'.session ≡ with_ctx ctx r.session) × HasDirs ctx)
  unfolding make_mount_dirs
  make_dirs-Safe {r = r} = Safe-read _ _ (
      Safe-bind
        (Safe-lift {Q = λ x s. (s.session ≡ r.session) × (x.0 ≡ true → HasDirs x.1)}
          (Due-after (temp_dirs-Due _) (λ x l c q. (refl, q))))
        (λ made r1 c1 (e1, d1). Safe-store _ _ (
          Safe-bind
            (Safe-require {Q = λ u s. (s.session ≡ with_ctx made.1 r.session) × HasDirs made.1} _ _
              _ coded (λ h. (ap (with_ctx made.1) e1, d1 h)))
            (λ u r2 c2 q2. Safe-pure _ q2))))

  pub mount-Safe :
      {r : Run} (t : Target) (ctx : MountContext)
      → FatMade t.fat_device r.log
      → NtfsMade t.ntfs_device r.log
      → Safe machine dev (mount_partitions machine t ctx) r (λ u r'.
        Mounted ctx.fat_mount r'.log × Mounted ctx.ntfs_mount r'.log × (r'.session ≡ r.session))
  unfolding mount_partitions
  mount-Safe {r = r} t ctx f n =
      Safe-bind
        (Safe-fire 0 _
          {Q = λ u s.
            FatMade t.fat_device s.log × NtfsMade t.ntfs_device s.log × (s.session ≡ r.session)}
          (λ l c. (later machine dev c f, later machine dev c n, refl)))
        (λ u r1 c1 (f1, n1, e1).
          Safe-bind
            (Safe-lift
              {Q = λ b s.
                (b ≡ true → Mounted ctx.fat_mount s.log)
                × NtfsMade t.ntfs_device s.log
                × (s.session ≡ r.session)}
              (Due-after (mount_fat32-Due t.fat_device _ f1)
                (λ b l c q. (q, later machine dev c n1, e1))))
            (λ b r2 c2 (m2, n2, e2).
              Safe-bind
                (Safe-require
                  {Q = λ u s.
                    Mounted ctx.fat_mount s.log
                    × NtfsMade t.ntfs_device s.log
                    × (s.session ≡ r.session)}
                  b _ _ coded (λ h. (m2 h, n2, e2)))
                (λ u r3 c3 (m3, n3, e3).
                  Safe-bind
                    (Safe-lift
                      {Q = λ b s.
                        (b ≡ true → Mounted ctx.ntfs_mount s.log)
                        × Mounted ctx.fat_mount s.log
                        × (s.session ≡ r.session)}
                      (Due-after (mount_ntfs-Due t.ntfs_device _ n3)
                        (λ b l c q. (q, Mounted-later _ c m3, e3))))
                    (λ d r4 c4 (k4, m4, e4).
                      Safe-bind
                        (Safe-require
                          {Q = λ u s.
                            Mounted ctx.ntfs_mount s.log
                            × Mounted ctx.fat_mount s.log
                            × (s.session ≡ r.session)}
                          d _ _ coded (λ h. (k4 h, m4, e4)))
                        (λ u r5 c5 (k5, m5, e5).
                          Safe-fire 100 _
                            (λ l c. (Mounted-later _ c m5, Mounted-later _ c k5, e5)))))))

  extract_failed-Safe :
      {r : Run} {Q : Unit {0} → Run → Type 0} → Safe machine dev (extract_failed machine) r Q
  unfolding extract_failed
  extract_failed-Safe {r = r} = Safe-read _ _ (
      Safe-if (r.session.cancelled || machine.cancelled r.log)
        (λ h. Safe-fail (codes "E-30-C") (codes "Operation cancelled by user") coded)
        (λ h. Safe-fail (codes "E-30-A") (codes "Cannot copy ISO files to USB") coded))

  pub extract-Safe :
      {r : Run} (ctx : MountContext)
      → Mounted ctx.ntfs_mount r.log
      → Safe machine dev (extract_image machine ctx) r (λ u r'.
        Did (boot (extract_iso r.session.iso_path ctx.ntfs_mount)) r'.log
        × (r'.session ≡ r.session))
  unfolding extract_image
  extract-Safe {r = r} ctx m =
      Safe-bind
        (Safe-fire 0 _ {Q = λ u s. Mounted ctx.ntfs_mount s.log × (s.session ≡ r.session)}
          (λ l c. (Mounted-later _ c m, refl)))
        (λ u r1 c1 (m1, e1). Safe-read _ _ (
          Safe-bind
            (Safe-lift
              {Q = λ b s.
                (b ≡ true → Did (boot (extract_iso r.session.iso_path ctx.ntfs_mount)) s.log)
                × (s.session ≡ r.session)}
              (Due-emit (boot (extract_iso r1.session.iso_path ctx.ntfs_mount)) m1 (λ b. (
                λ h. here (
                    ap (event (boot (extract_iso r1.session.iso_path ctx.ntfs_mount))) h
                    ∙ ap (λ q. event (boot (extract_iso q.iso_path ctx.ntfs_mount)) true) e1),
                e1,
              ))))
            (λ b r2 c2 (x2, e2).
              Safe-bind
                (Safe-if
                  {Q = λ u s.
                    Did (boot (extract_iso r.session.iso_path ctx.ntfs_mount)) s.log
                    × (s.session ≡ r.session)}
                  b (λ h. Safe-pure tt (x2 h, e2)) (λ h. extract_failed-Safe))
                (λ u r3 c3 (x3, e3). Safe-fire 100 _ (λ l c. (later machine dev c x3, e3))))))

  pub finish-Safe :
      {r : Run} (ctx : MountContext)
      → Extracted r.log
      → Safe machine dev (finish machine ctx) r (λ u r'. Released ctx r'.log)
  unfolding finish
  finish-Safe {r = r} ctx x = Safe-bind (Safe-fire 100 _ {Q = Whatever} (λ l c. tt)) (λ u r1 c1 q1.
      Safe-bind (Safe-fire 0 _ {Q = Whatever} (λ l c. tt)) (λ u r2 c2 q2.
        let x2 = Extracted-later c2 (Extracted-later c1 x) in
        Safe-bind (Safe-lift {Q = Whatever} (Due-act _ x2 (λ d. tt))) (λ u r3 c3 q3.
          Safe-bind (Safe-lift {Q = Whatever} (Due-act _ (Extracted-later c3 x2) (λ d. tt)))
            (λ u r4 c4 q4.
              Safe-bind (Safe-lift {Q = λ b s. b ≡ true → Released ctx s.log} (unmount-Due ctx))
                (λ b r5 c5 q5.
                  Safe-bind (Safe-require {Q = λ u s. Released ctx s.log} b _ _ coded q5)
                    (λ u r6 c6 q6. Safe-fire 100 _ (λ l c. Released-later ctx c q6)))))))
