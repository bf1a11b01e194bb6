-- ===== src/Session/Execute/Order.antt =====
-- The order of the write: what each step waits for, and what holds at the end.
use winafi.Prelude.{
  ◌∙◌, ap, subst, ◌≡◌, ◌≢◌, refl, Bool, true, false, [], arith, Bool-cases, inl, inr,
}
use winafi.Prelude.Text.{CString, codes, fit}
use winafi.Os.{Machine, boot, extract_iso}
use winafi.Session.State.{set_error, completed, error, prepared, executing, Session}
use winafi.Session.Exec.{Outcome, Run}
use winafi.Session.Boot.{Parts}
use winafi.Session.Execute.{Target, is_prepared, fill_partitions, write_usb, end_of, execute}
use winafi.Session.Execute.Causes.{
  Causal, stop, Causal-trans, later, Did, Extracted, FatMade, NtfsMade, Committed,
}
use winafi.Session.Execute.Rules.{
  Safe, Ends, ends, leaves, Safe-fire, Safe-bind, coded, Safe-weaken, Safe-after,
}
use winafi.Session.Execute.Effects.{unmount-Due}
use winafi.Session.Execute.Stages.{Names, check_device-Safe, find_target-Safe, create-Safe}
use winafi.Session.Execute.Contents.{
  with_ctx, format-Safe, make_dirs-Safe, mount-Safe, extract-Safe, finish-Safe,
}
use winafi.Session.Execute.Written.{Written, Bootable-stored, Written-executing, unmounted}
use winafi.Session.Execute.Boots.{
  Bootable, setup_boot-Safe, Extracted-later, Bootable-later, Mounted-later,
}

module _ {machine : Machine} where
  fill-Safe :
      {r : Run} (parts : Parts) (s : Session) (t : Target)
      → r.session ≡ s
      → Names s.selected_device t
      → Committed s.selected_device r.log
      → FatMade t.fat_device r.log
      → NtfsMade t.ntfs_device r.log
      → Safe machine s.selected_device
          (fill_partitions machine parts t)
          r
          (λ u r'. Written parts s r'.log)
  unfolding fill_partitions
  fill-Safe {r = r} parts s t e n (w, m) f g =
      let dev = s.selected_device in
      Safe-bind make_dirs-Safe (λ ctx r5 c5 (e5, (has_fat, has_ntfs)).
        Safe-bind (mount-Safe t ctx (later machine dev c5 f) (later machine dev c5 g))
          (λ u r6 c6 (m6, k6, e6). Safe-bind (extract-Safe ctx k6) (λ u r7 c7 (x7, e7).
            Safe-bind
              (Safe-fire 0 _
                {Q = λ u q.
                  Did (boot (extract_iso r6.session.iso_path ctx.ntfs_mount)) q.log
                  × (q.session ≡ r7.session)}
                (λ l c. (later machine dev c x7, refl)))
              (λ u r8 c8 (x8, e8).
                let t5 : r5.session ≡ with_ctx ctx s = e5 ∙ ap (with_ctx ctx) e in
                let k : r8.session ≡ with_ctx ctx s = e8 ∙ (e7 ∙ (e6 ∙ t5)) in
                let c78 = Causal-trans machine dev c7 c8 in
                let f8 = Mounted-later ctx.fat_mount c78 m6 in
                let done8 : Extracted r8.log = (_, _, x8) in
                Safe-bind (setup_boot-Safe parts ctx (ap (λ q. q.selected_device) k) done8 f8)
                  (λ u r9 c9 b9.
                    Safe-after (finish-Safe ctx (Extracted-later c9 done8)) (λ u r10 c10 q.
                      let c910 = Causal-trans machine dev c9 c10 in
                      let c =
                        Causal-trans machine dev c5
                          (Causal-trans machine dev c6 (Causal-trans machine dev c78 c910)) in
                      record {
                        partitioned = (w, later machine dev c m);
                        fat = (t.fat_device, n.fat_node, later machine dev c f);
                        ntfs = (t.ntfs_device, n.ntfs_node, later machine dev c g);
                        filled = (
                          ctx,
                          record {
                            fat_mounted = Mounted-later ctx.fat_mount c910 f8;
                            ntfs_mounted =
                                Mounted-later ctx.ntfs_mount (Causal-trans machine dev c78 c910) k6;
                            extracted = later machine dev c910 (
                                subst
                                  (λ q. Did (boot (extract_iso q.iso_path ctx.ntfs_mount)) r8.log)
                                  (e6 ∙ t5) x8);
                            bootable = Bootable-later parts s ctx s.iso_info.os_type c10 (
                                Bootable-stored parts s s.current_state ctx ctx s.iso_info.os_type _
                                  (subst (λ v. Bootable parts v ctx v.iso_info.os_type r9.log) k
                                    b9));
                            ntfs_unmounted = unmounted ctx.ntfs_mount has_ntfs q.0;
                            fat_unmounted = unmounted ctx.fat_mount has_fat q.1;
                            temp_removed = q.2;
                          },
                        );
                      }))))))

  write_usb-Safe :
      (parts : Parts) (s : Session)
      → Safe machine s.selected_device
          (write_usb machine parts)
          (record { session = s; log = [] })
          (λ u r'. Written parts s r'.log)
  unfolding write_usb
  write_usb-Safe parts s =
      let dev = s.selected_device in
      Safe-bind (check_device-Safe refl) (λ u r1 c1 (e1, v).
        Safe-bind (find_target-Safe (ap (λ t. t.selected_device) e1)) (λ t r2 c2 (n, e2).
          Safe-bind (create-Safe t n v) (λ u r3 c3 ((w, m3), e3).
            Safe-bind (format-Safe t n (w, m3)) (λ u r4 c4 (f4, g4, e4).
              fill-Safe parts s t (e4 ∙ e3 ∙ e2 ∙ e1) n (w, later machine dev c4 m3) f4 g4))))

-- The end of the function: every event is due; 0 comes with everything done, -1 with an error.
record Finished (machine : Machine) (parts : Parts) (s : Session) (x : Bool × Run) : Type 0 where
  causal : Causal machine s.selected_device [] x.1.log
  success : x.0 ≡ true → (x.1.session.current_state ≡ completed) × Written parts s x.1.log
  failure : x.0 ≡ false → (x.1.session.current_state ≡ error) × (x.1.session.error_code ≢ [])

module _ {machine : Machine} where
  end-Finished :
      (parts : Parts) (s : Session) (o : Outcome (Unit {0}) × Run)
      → s.current_state ≡ prepared
      → Causal machine s.selected_device [] o.1.log
      → Ends machine s.selected_device (λ u r. Written parts s r.log) o
      → Finished machine parts s (end_of machine o)
  unfolding end_of
  end-Finished parts s (o, r) p c (ends q) = record {
    causal = c;
    success = λ h. (refl, q);
    failure = λ h. absurd (ground arith);
  }
  end-Finished parts s (o, r) p c (leaves h) =
      let d =
        unmount-Due {machine = machine} {dev = s.selected_device} {l = r.log} r.session.mount_ctx in
      record {
        causal = Causal-trans machine s.selected_device c d.causal;
        success = λ e. absurd (ground arith);
        failure = λ e. (refl, h);
      }

  started-Finished :
      (parts : Parts) (s : Session)
      → s.current_state ≡ prepared
      → Finished machine parts s (
          end_of machine (
            write_usb machine parts
              (record { session = record s { current_state = executing }; log = [] })))
  started-Finished parts s p =
      let w =
        Safe-weaken
          (write_usb-Safe {machine = machine} parts (record s { current_state = executing }))
          (λ u r q. Written-executing parts s q) in
      end-Finished parts s _ p w.causal w.post

  refused-Finished :
      (parts : Parts) (s : Session) (code message : CString)
      → s.current_state ≢ prepared
      → fit 16 code ≢ []
      → Finished machine parts s (false, record { session = set_error code message s; log = [] })
  unfolding set_error
  refused-Finished parts s code message n h = record {
    causal = stop;
    success = λ e. absurd (ground arith);
    failure = λ e. (refl, h);
  }

execute-Finished :
    (machine : Machine) (parts : Parts) (s : Session)
    → Finished machine parts s (execute machine parts (record { session = s; log = [] }))
unfolding execute is_prepared
execute-Finished machine parts s = elim (Bool-cases (is_prepared s.current_state)) [
  | inl e ↦ rw (e, execute) (started-Finished parts s (ground arith))
  | inr e ↦
      rw (e, execute)
        (refused-Finished parts s (codes "E-51-B") (codes "Invalid operation sequence")
          (ground arith) coded)
]

-- Whatever the machine answers, each effect of `winafi_session_execute` waits for what it needs:
-- a partition table is written only to the selected device, only if that passed `device_validate`
-- and was not mounted at the call, and passes `final_wipe_guard` at that moment; mkfs runs only on
-- the nodes of the device's first two partitions and after a table was written with success; mount
-- only on a node that its mkfs made with success; the extraction only into a mounted directory; the
-- boot setup and the syncs only after an extraction that succeeded.
pub execute-Causal :
    (machine : Machine) (parts : Parts) (s : Session)
    → Causal machine s.selected_device []
        (execute machine parts (record { session = s; log = [] })).1.log
execute-Causal machine parts s = (execute-Finished machine parts s).causal

pub execute_success :
    (machine : Machine) (parts : Parts) (s : Session)
    → (execute machine parts (record { session = s; log = [] })).0 ≡ true
    → let r = (execute machine parts (record { session = s; log = [] })).1 in
      (r.session.current_state ≡ completed) × Written parts s r.log
execute_success machine parts s = (execute-Finished machine parts s).success

-- Where `winafi_session_execute` returns -1, the session is in the error state with a code.
pub execute_failure :
    (machine : Machine) (parts : Parts) (s : Session)
    → (execute machine parts (record { session = s; log = [] })).0 ≡ false
    → let r = (execute machine parts (record { session = s; log = [] })).1 in
      (r.session.current_state ≡ error) × (r.session.error_code ≢ [])
execute_failure machine parts s = (execute-Finished machine parts s).failure
