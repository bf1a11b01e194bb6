-- ===== src/Session/Devnode/Examples.antt =====
-- The partitions of an NVMe disk.
use winafi.Prelude.{◌≡◌, refl, some}
use winafi.Prelude.Text.{CString, codes, starts_with, decimal, last_slash}
use winafi.Session.State.{build_partition_devnode}

abbrev first : CString
first = codes "/dev/nvme0n1p1"

abbrev second : CString
second = codes "/dev/nvme0n1p2"

first_lem : build_partition_devnode (codes "/dev/nvme0n1") 1 128 ≡ some first
unfolding build_partition_devnode last_slash decimal starts_with
first_lem = refl

second_lem : build_partition_devnode (codes "/dev/nvme0n1") 2 128 ≡ some second
unfolding build_partition_devnode last_slash decimal starts_with
second_lem = refl
