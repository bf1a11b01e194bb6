-- ===== src/Session/Options.antt =====
-- The setters of session.c. `none` is -1, which leaves the session as it was; a NULL session is
-- turned away before. The getters are the record's fields.
pub mod Domain
pub mod Frame
pub mod Examples
use winafi.Prelude.{
  ℕ, Bool, true, false, ◌&&◌, ◌||◌, Option, none, some, List, [], ◌∷◌, ltb, ◌==◌, if◌then◌else◌,
  length,
}
use winafi.Prelude.Int.{ℤ, pos, negsuc, ltb_ℤ}
use winafi.Prelude.Text.{CString, fit}
use winafi.Session.State.{Session, FormatOptions}

abbrev eq_ℤ : ℤ → ℤ → Bool
eq_ℤ (pos a) (pos b) = a == b
eq_ℤ (negsuc a) (negsuc b) = a == b
eq_ℤ (pos a) (negsuc b) = false
eq_ℤ (negsuc a) (pos b) = false

-- The stores, each with the test that stands before it.
pub set_image_option : ℕ → Session → Option Session
set_image_option option s =
    if option == 0 || option == 1 || option == 2 || option == 3
    then some (record s { options = record (s.options) { image_option = option } })
    else none

pub set_unattend : ℕ → Option CString → Session → Option Session
set_unattend flags none s = some (record s { unattend_flags = flags; unattend_username = [] })
set_unattend flags (some []) s = some (record s { unattend_flags = flags; unattend_username = [] })
set_unattend flags (some (c ∷ r)) s =
    some (record s { unattend_flags = flags; unattend_username = fit 256 (c ∷ r) })

pub set_partition_scheme : ℕ → Session → Option Session
set_partition_scheme scheme s =
    if scheme == 0 || scheme == 1
    then some (record s { options = record (s.options) { partition_scheme = scheme } })
    else none

pub set_target_system : ℕ → Session → Option Session
set_target_system target s =
    if target == 0 || target == 1
    then some (record s { options = record (s.options) { target_system = target } })
    else none

pub set_filesystem : ℕ → Session → Option Session
set_filesystem fs s =
    if fs == 0 || fs == 1 || fs == 2
    then some (record s { options = record (s.options) { filesystem = fs } })
    else none

pub set_cluster_size : ℕ → Session → Option Session
set_cluster_size size s =
    if size == 512 || size == 1024 || size == 2048 || size == 4096
    then some (record s { options = record (s.options) { cluster_size = size } })
    else none

-- `label` is `none` for NULL.
pub set_volume_label : Option CString → Session → Option Session
set_volume_label none s = none
set_volume_label (some label) s =
    if ltb 32 (length label)
    then none
    else some (record s { options = record (s.options) { volume_label = fit 256 label } })

pub set_quick_format : ℤ → Session → Option Session
set_quick_format quick s =
    if eq_ℤ quick (pos 0) || eq_ℤ quick (pos 1)
    then some (record s { options = record (s.options) { quick_format = quick } })
    else none

pub set_bad_blocks_check : ℤ → ℤ → Session → Option Session
set_bad_blocks_check enabled passes s =
    if eq_ℤ enabled (pos 0) || eq_ℤ enabled (pos 1)
    then if eq_ℤ enabled (pos 1) && (ltb_ℤ passes (pos 1) || ltb_ℤ (pos 10) passes)
      then none
      else some (record s {
        options = record (s.options) { bad_blocks_enabled = enabled; bad_blocks_passes = passes };
      })
    else none

-- A call of a setter, with its arguments.
pub data Setting : Type 0 where
  image_option partition_scheme target_system filesystem cluster_size : ℕ → Setting
  unattend : ℕ → Option CString → Setting
  volume_label : Option CString → Setting
  quick_format : ℤ → Setting
  bad_blocks : ℤ → ℤ → Setting

pub set_option : Setting → Session → Option Session
unfolding set_image_option set_unattend set_partition_scheme set_target_system set_filesystem
    set_cluster_size set_volume_label set_quick_format set_bad_blocks_check
set_option (image_option n) = set_image_option n
set_option (unattend flags name) = set_unattend flags name
set_option (partition_scheme n) = set_partition_scheme n
set_option (target_system n) = set_target_system n
set_option (filesystem n) = set_filesystem n
set_option (cluster_size n) = set_cluster_size n
set_option (volume_label label) = set_volume_label label
set_option (quick_format quick) = set_quick_format quick
set_option (bad_blocks enabled passes) = set_bad_blocks_check enabled passes

-- The session after a call, whatever its result.
abbrev pub kept : Option Session → Session → Session
kept none s = s
kept (some t) s = t
