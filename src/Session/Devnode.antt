-- ===== src/Session/Devnode.antt =====
-- The names of the two partitions of a disk.
pub mod Examples
use winafi.Prelude.{
  ◌≡◌, ◌≢◌, refl, sym, ap, ◌∙◌, arith, List, [], ◌∷◌, ◌++◌, Option, some, none, ℕ, Bool-cases, inl,
  inr,
}
use winafi.Prelude.Text.{CString, decimal}
use winafi.Session.State.{separator, build_partition_devnode}

append_cancel : (xs ys zs : CString) → xs ++ ys ≡ xs ++ zs → ys ≡ zs
append_cancel [] ys zs h = h
append_cancel (x ∷ xs) ys zs h = append_cancel xs ys zs (ap tail h)
  where
    tail : CString → CString
    tail [] = []
    tail (y ∷ t) = t

devnode_of :
    (device node : CString) (number : ℕ)
    → build_partition_devnode device number 128 ≡ some node
    → node ≡ device ++ (separator device ++ decimal number)
unfolding build_partition_devnode
devnode_of device node number h = ground arith

one_ne_two : decimal 1 ≢ decimal 2
unfolding decimal
one_ne_two = ground arith

-- Where both names fit in the buffer, the two partitions of a disk have different nodes.
pub build_partition_devnode_distinct :
    (device fat ntfs : CString)
    → build_partition_devnode device 1 128 ≡ some fat
    → build_partition_devnode device 2 128 ≡ some ntfs
    → fat ≢ ntfs
build_partition_devnode_distinct device fat ntfs f n e =
    let same = sym (devnode_of device fat 1 f) ∙ e ∙ devnode_of device ntfs 2 n in
    one_ne_two (
      append_cancel (separator device) (decimal 1) (decimal 2)
        (append_cancel device (separator device ++ decimal 1) (separator device ++ decimal 2) same))
