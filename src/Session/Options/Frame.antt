-- ===== src/Session/Options/Frame.antt =====
-- What the setters leave alone.
use winafi.Prelude.{◌≡◌, refl, inl, inr, none, some, [], ◌∷◌, arith, length, ltb, Bool-cases}
use winafi.Prelude.Text.{CString}
use winafi.Session.State.{Session}
use winafi.Session.Options.{Setting, unattend, volume_label, set_option, set_volume_label, kept}

-- The options and the unattended setup are all that may differ.
pub record Frame (s t : Session) : Type 0 where
  pub state : t.current_state ≡ s.current_state
  pub code : t.error_code ≡ s.error_code
  pub list : t.devices ≡ s.devices
  pub chosen : t.selected_device ≡ s.selected_device
  pub image : t.iso_path ≡ s.iso_path

label-Frame : (label : CString) (s : Session) → Frame s (kept (set_volume_label (some label) s) s)
unfolding set_volume_label
label-Frame label s = elim (Bool-cases (ltb 32 (length label))) [
  | inl long ↦
      rw long (record { state = refl; code = refl; list = refl; chosen = refl; image = refl })
  | inr short ↦
      rw short (record { state = refl; code = refl; list = refl; chosen = refl; image = refl })
]

-- A call of a setter, whether it succeeds or not, leaves the state, the error code, the list of
-- devices, the selected device and the image as they were.
pub set_option-Frame : (c : Setting) (s : Session) → Frame s (kept (set_option c s) s)
unfolding set_option
set_option-Frame (volume_label none) s = ground arith
set_option-Frame (volume_label (some label)) s = label-Frame label s
set_option-Frame (unattend flags none) s = ground arith
set_option-Frame (unattend flags (some [])) s = ground arith
set_option-Frame (unattend flags (some (x ∷ r))) s = ground arith
set_option-Frame c s = ground arith
