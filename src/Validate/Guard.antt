-- ===== src/Validate/Guard.antt =====
-- `final_wipe_guard`, the last check before a destructive write, against what it promises.
use winafi.Prelude.{
  ℕ, ◌+◌, ◌^◌, ◌≤◌, ◌<◌, ◌≡◌, ◌↔◌, ◌⊎◌, refl, true, [], ◌∷◌, ◌++◌, arith, sym, subst,
}
use winafi.Prelude.Text.{
  CString, starts_with→append, starts_with-append, char_at-append, char_at-append_nil,
}
use winafi.System.{System}
use winafi.Validate.Unused.{IsMountLineOf}
use winafi.Validate.{valid, mount_line_matches, one_gb, validate_device_capacity}

separator_at :
    (node : CString) (c : ℕ) (r : CString)
    → (c ≡ b' ') ⊎ (c ≡ b'\t') ⊎ (c ≡ b'\n')
    → mount_line_matches node (node ++ c ∷ r) ≡ true
unfolding mount_line_matches
separator_at node c r s = ground (arith, starts_with-append node (c ∷ r), char_at-append node c r)

matches→line :
    (node r : CString) → mount_line_matches node (node ++ r) ≡ true → IsMountLineOf node (node ++ r)
unfolding mount_line_matches
matches→line node [] h = absurd (ground (arith, char_at-append_nil node))
matches→line node (c ∷ r) h = (c, r, refl, ground (arith, char_at-append node c r))

-- The test of a line of /proc/mounts is exact: it passes on the lines whose first field is the
-- node, and on no line of a device of which the node's name is only a prefix.
pub mount_line_matches_iff :
    (node line : CString) → (mount_line_matches node line ≡ true) ↔ IsMountLineOf node line
unfolding mount_line_matches
mount_line_matches_iff node line = (to, λ m. rw m.2 (separator_at node m.0 m.1 m.3))
  where
    to : mount_line_matches node line ≡ true → IsMountLineOf node line
    to h =
        let (r, e) = starts_with→append node line (ground arith) in
        subst (IsMountLineOf node) (sym e)
          (matches→line node r (subst (λ l. mount_line_matches node l ≡ true) e h))

-- An ISO size within 1 GB of the 64-bit limit passes on any device of at least 1 GB.
pub validate_device_capacity_wraps :
    (device_bytes iso_bytes : ℕ)
    → 2 ^ 64 ≤ iso_bytes + one_gb
    → iso_bytes < 2 ^ 64
    → one_gb ≤ device_bytes
    → validate_device_capacity device_bytes iso_bytes ≡ valid
unfolding validate_device_capacity
validate_device_capacity_wraps device_bytes iso_bytes h k d = ground arith
