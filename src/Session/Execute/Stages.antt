-- ===== src/Session/Execute/Stages.antt =====
-- The write up to the partition table, against what has to be done before each of its steps.
use winafi.Prelude.{
  ℕ, suc, zero, ◌∙◌, ap, sym, subst, ◌≡◌, ◌≢◌, refl, true, false, [], Option, none, some, arith,
  here,
}
use winafi.Prelude.Text.{CString, fit}
use winafi.Device.{device_validate, device_is_mounted}
use winafi.Partition.{
  Table, WipeResult, not_written, committed, commit_failed, partition_wipe_and_create,
}
use winafi.Partition.Wipe.{wipe_needs_guard, written}
use winafi.Os.{Machine, Log, commit, sleep}
use winafi.Session.State.{Session, build_partition_devnode}
use winafi.Session.Exec.{Run}
use winafi.Session.Nodes.{await_nodes, both_exist}
use winafi.Session.Execute.{
  Target, check_device, or_fail, find_target, logged_wipe, wipe, create_partitions,
  boot_partition_bytes,
}
use winafi.Session.Execute.Causes.{Cleared, Needs, stop, step, later, Committed}
use winafi.Session.Execute.Rules.{
  Due-if, Due-after, Due, Due-pure, Due-bind, Due-act, Safe, Safe-pure, Safe-fire, Safe-fail,
  Safe-bind, Safe-lift, Safe-require, Safe-read, coded,
}
use winafi.Session.Execute.Effects.{Anything}

-- The nodes of the two partitions of `dev`.
pub record Names (dev : CString) (t : Target) : Type 0 where
  pub device : t.device ≡ dev
  pub fat_node : build_partition_devnode dev 1 128 ≡ some t.fat_device
  pub ntfs_node : build_partition_devnode dev 2 128 ≡ some t.ntfs_device

or_fail-Safe :
    {machine : Machine} {dev : CString} {A : Type 0} (o : Option A) (code message : CString)
    {r : Run}
    → fit 16 code ≢ []
    → Safe machine dev
        (or_fail machine o code message)
        r
        (λ a r'. (o ≡ some a) × (r'.session ≡ r.session))
unfolding or_fail
or_fail-Safe none code message h = Safe-fail code message h
or_fail-Safe (some a) code message h = Safe-pure a (refl, refl)

module _ {machine : Machine} {dev : CString} where
  pub check_device-Safe :
      {s : Session}
      → s.selected_device ≡ dev
      → Safe machine dev
          (check_device machine)
          (record { session = s; log = [] })
          (λ u r'. (r'.session ≡ s) × Cleared machine dev)
  unfolding check_device
  check_device-Safe {s = s} e =
      subst
        (λ d.
          Safe machine dev (check_device machine) (record { session = s; log = [] })
            (λ u r'. (r'.session ≡ s) × Cleared machine d))
        e
        (Safe-read _ _ (
          Safe-read _ _ (
            Safe-bind
              (Safe-require
                {Q = λ u t.
                  (t ≡ record { session = s; log = [] })
                  × (device_validate (machine.system []) (some s.selected_device) ≡ true)}
                _ _ _ coded (λ h. (refl, h)))
              (λ u r1 c1 (q, h). Safe-read _ _ (
                Safe-require _ _ _ coded (λ m. (
                  ap (λ t. t.session) q,
                  (
                    h,
                    subst
                        (λ t.
                          device_is_mounted (machine.system t.log) (some s.selected_device) ≡ false)
                        q (ground arith),
                  ),
                )))))))

  pub find_target-Safe :
      {r : Run}
      → r.session.selected_device ≡ dev
      → Safe machine dev (find_target machine) r (λ t r'. Names dev t × (r'.session ≡ r.session))
  unfolding find_target
  find_target-Safe {r = r} e =
      Safe-bind (Safe-fire _ _ {Q = λ u s. s.session ≡ r.session} (λ l c. refl)) (λ u r1 c1 e1.
        let k : r1.session.selected_device ≡ dev = ap (λ s. s.selected_device) e1 ∙ e in
        Safe-read _ _ (
          Safe-read _ _ (
            Safe-bind (Safe-require {Q = λ u s. s.session ≡ r1.session} _ _ _ coded (λ h. refl))
              (λ u r2 c2 e2. Safe-bind (or_fail-Safe _ _ _ coded) (λ fat r3 c3 (f, e3).
                Safe-bind (or_fail-Safe _ _ _ coded) (λ ntfs r4 c4 (n, e4). Safe-pure _ (
                  record {
                    device = k;
                    fat_node = ap (λ d. build_partition_devnode d 1 128) (sym k) ∙ f;
                    ntfs_node = ap (λ d. build_partition_devnode d 2 128) (sym k) ∙ n;
                  },
                  e4 ∙ e3 ∙ e2 ∙ e1,
                )))))))

  logged-Due :
      {l : Log} (w : WipeResult)
      → ((t : Table) → written w ≡ some t → Needs machine dev (commit dev t) l)
      → Due machine dev (logged_wipe machine dev w) l (λ b l'. b ≡ true → Committed dev l')
  unfolding logged_wipe
  logged-Due not_written n = record { causal = stop; post = λ h. absurd (ground arith) }
  logged-Due (commit_failed t) n = record {
    causal = step false stop (n t refl);
    post = λ h. absurd (ground arith);
  }
  logged-Due (committed t) n = record {
    causal = step true stop (n t refl);
    post = λ h. (t, here refl);
  }

  wipe-Due :
      {l : Log} (total : ℕ)
      → Cleared machine dev
      → Due machine dev (wipe machine dev total) l (λ b l'. b ≡ true → Committed dev l')
  unfolding wipe
  wipe-Due {l = l} total v =
      let d =
        logged-Due {l = l}
          (partition_wipe_and_create (machine.system l) (machine.ped l) (some dev) total
            boot_partition_bytes)
          (λ t h. (
            refl,
            v,
            wipe_needs_guard (machine.system l) (machine.ped l) dev total boot_partition_bytes t h,
          )) in
      record { causal = d.causal; post = d.post }

  await-Due :
      {l : Log} (rounds : ℕ) (fat ntfs : CString)
      → Due machine dev (await_nodes machine rounds fat ntfs) l Anything
  unfolding await_nodes both_exist
  await-Due zero fat ntfs = Due-pure tt tt
  await-Due {l = l} (suc rounds) fat ntfs =
      Due-bind {Q = Anything} (record { causal = stop; post = tt })
        (λ b l1 c1 q1.
          Due-if b (λ t. Due-pure tt tt)
            (λ t.
              Due-bind (Due-act {Q = Anything} sleep tt (λ d. tt))
                (λ u l2 c2 q2. await-Due rounds fat ntfs)))

  pub create-Safe :
      {r : Run} (t : Target)
      → Names dev t
      → Cleared machine dev
      → Safe machine dev
          (create_partitions machine t)
          r
          (λ u r'. Committed dev r'.log × (r'.session ≡ r.session))
  unfolding create_partitions
  create-Safe {r = r} t n v =
      subst
        (λ d.
          Safe machine dev (create_partitions machine (record t { device = d })) r
            (λ u r'. Committed dev r'.log × (r'.session ≡ r.session)))
        (sym n.device)
        (Safe-bind
          (Safe-lift {Q = λ b s. (b ≡ true → Committed dev s.log) × (s.session ≡ r.session)}
            (Due-after (wipe-Due t.total_sectors v) (λ b l c q. (q, refl))))
          (λ b r1 c1 (w1, e1).
            Safe-bind
              (Safe-require {Q = λ u s. Committed dev s.log × (s.session ≡ r.session)} b _ _ coded
                (λ h. (w1 h, e1)))
              (λ u r2 c2 (w2, e2).
                Safe-bind
                  (Safe-lift {Q = λ u s. Committed dev s.log × (s.session ≡ r.session)} (
                    Due-after (await-Due 5 t.fat_device t.ntfs_device)
                      (λ u l c q. ((w2.0, later machine dev c w2.1), e2))))
                  (λ u r3 c3 (w3, e3).
                    Safe-fire _ _ (λ l c4. ((w3.0, later machine dev c4 w3.1), e3))))))
