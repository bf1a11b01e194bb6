-- ===== src/Session/Options/Domain.antt =====
-- The values that the options of a session can take.
use winafi.Prelude.{
  ◌≤◌, ◌≡◌, ◌⊎◌, inl, inr, none, some, [], ◌∷◌, arith, length, take_all, ltb_false→le, ltb,
  Bool-cases, sym,
}
use mathlib.Core.Option.{some-injective}
use winafi.Prelude.Int.{pos, ◌≤ℤ◌}
use winafi.Prelude.Text.{CString, fit}
use winafi.Session.State.{Session, FormatOptions, default_options}
use winafi.Session.Options.{
  Setting, unattend, volume_label, bad_blocks, set_option, set_volume_label,
}

pub record InDomain (o : FormatOptions) : Type 0 where
  pub scheme : o.partition_scheme ≤ 1
  pub target : o.target_system ≤ 1
  pub fs : o.filesystem ≤ 2
  pub cluster :
      (o.cluster_size ≡ 0)
      ⊎ (o.cluster_size ≡ 512)
      ⊎ (o.cluster_size ≡ 1024)
      ⊎ (o.cluster_size ≡ 2048)
      ⊎ (o.cluster_size ≡ 4096)
  pub label : length o.volume_label ≤ 32
  pub quick : (o.quick_format ≡ pos 0) ⊎ (o.quick_format ≡ pos 1)
  pub checked : (o.bad_blocks_enabled ≡ pos 0) ⊎ (o.bad_blocks_enabled ≡ pos 1)
  pub passes :
      o.bad_blocks_enabled ≡ pos 1
      → (pos 1 ≤ℤ o.bad_blocks_passes) × (o.bad_blocks_passes ≤ℤ pos 10)
  pub image : o.image_option ≤ 3

create-InDomain : InDomain default_options
unfolding default_options
create-InDomain = ground arith

-- A stored label is the whole label.
stored_label :
    (s t : Session) (label : CString)
    → set_volume_label (some label) s ≡ some t
    → (length label ≤ 32)
      × (t ≡ record s { options = record (s.options) { volume_label = fit 256 label } })
unfolding set_volume_label
stored_label s t label h = elim (Bool-cases (ltb 32 (length label))) [
  | inl long ↦ absurd (cc (rw long at h))
  | inr short ↦ (ltb_false→le 32 (length label) short, sym (some-injective _ _ (rw short at h)))
]

label-InDomain :
    (s t : Session) (label : CString)
    → set_volume_label (some label) s ≡ some t
    → InDomain s.options
    → InDomain t.options
label-InDomain s t label h v =
    let (short, e) = stored_label s t label h in
    rw (e, take_all 255 label (omega arith))
      (record {
        scheme = v.scheme;
        target = v.target;
        fs = v.fs;
        cluster = v.cluster;
        label = short;
        quick = v.quick;
        checked = v.checked;
        passes = v.passes;
        image = v.image;
      })

-- Every setter that succeeds keeps every option in its domain.
pub set_option-InDomain :
    (c : Setting) (s t : Session)
    → set_option c s ≡ some t
    → InDomain s.options
    → InDomain t.options
unfolding set_option
set_option-InDomain (volume_label none) s t h v = cc
set_option-InDomain (volume_label (some label)) s t h v = label-InDomain s t label h v
set_option-InDomain (unattend flags none) s t h v = ground arith
set_option-InDomain (unattend flags (some [])) s t h v = ground arith
set_option-InDomain (unattend flags (some (x ∷ r))) s t h v = ground arith
set_option-InDomain (bad_blocks enabled passes) s t h v = ground arith
set_option-InDomain c s t h v = ground arith
