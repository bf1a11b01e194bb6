-- ===== src/Session/Nodes.antt =====
-- The wait of `winafi_session_execute` for the nodes of the new partitions.
use winafi.Prelude.{ℕ, zero, suc, Bool, ◌&&◌, if◌then◌else◌}
use winafi.Prelude.Text.{CString}
use winafi.Os.{Machine, sleep}
use winafi.Os.Io.{Io, pure, ◌>>=◌, ◌>>◌, act}

module _ (machine : Machine) where
  unfoldable pub both_exist : CString → CString → Io Bool
  both_exist fat ntfs l = (machine.exists l fat && machine.exists l ntfs, l)

  -- That many looks, a second apart.
  unfoldable pub await_nodes : ℕ → CString → CString → Io (Unit {0})
  unfolding both_exist
  await_nodes zero fat ntfs = pure tt
  await_nodes (suc rounds) fat ntfs = do
    found ← both_exist fat ntfs
    if found then pure tt else act machine sleep >> await_nodes rounds fat ntfs
