-- ===== src/Wue/Orders.antt =====
-- The orders of the commands that Setup runs, and the name of the account.
use winafi.Prelude.{
  ℕ, suc, ◌+◌, ◌/◌, ◌%◌, Bool, ◌≤◌, ◌≡◌, refl, ap, inl, inr, false, List, [], ◌∷◌, ◌++◌, All, any,
  length, ◌==◌, if◌then◌else◌, Bool-cases, arith, length-take, take_all,
}
use winafi.Prelude.Text.{CString, codes, fit, decimal}
use winafi.Wue.Literals.{hide_after}
use winafi.Wue.Generate.{has, forbidden, sanitize, sanitized, safe_name}

-- `bit` is set in `flags`, for a power of two.
abbrev pub is_set : ℕ → ℕ → Bool
is_set flags bit = flags / bit % 2 == 1

abbrev pub key_if : Bool → CString → List CString → List CString
key_if set key keys = if set then key ∷ keys else keys

-- The values of LabConfig that the flags of wue.h stand for.
abbrev pub wanted_keys : ℕ → List CString
wanted_keys flags = key_if (is_set flags 0x1) (codes "BypassTPMCheck") (
    key_if (is_set flags 0x2) (codes "BypassSecureBootCheck") (
      key_if (is_set flags 0x100) (codes "BypassRAMCheck") (
        key_if (is_set flags 0x200) (codes "BypassCPUCheck")
          (key_if (is_set flags 0x400) (codes "BypassStorageCheck") []))))

-- The element of Setup's schema that sets one value, to be run as number `order`.
abbrev pub command_element : ℕ → CString → CString
command_element order key =
    codes "        <RunSynchronousCommand wcm:action=\"add\">\n          <Order>"
    ++ (decimal order
        ++ (codes "</Order>\n          <Path>reg add HKLM\\SYSTEM\\Setup\\LabConfig /v "
            ++ (key ++ codes " /t REG_DWORD /d 1 /f</Path>\n        </RunSynchronousCommand>\n")))

-- The element that hides the media, to be run as number `order`.
abbrev pub hide_element : ℕ → CString
hide_element order =
    codes "        <RunSynchronousCommand wcm:action=\"add\">\n          <Order>"
    ++ (decimal order ++ hide_after)

-- One element for each key, numbered from `order` without a gap.
abbrev pub numbered_elements : ℕ → List CString → CString
numbered_elements order [] = []
numbered_elements order (key ∷ keys) =
    command_element order key ++ numbered_elements (order + 1) keys

-- The keys of a table whose flags are set.
chosen_keys : ℕ → List (ℕ × CString) → List CString
chosen_keys flags [] = []
chosen_keys flags ((bit, key) ∷ table) =
    let rest = chosen_keys flags table in if has flags bit then key ∷ rest else rest

sanitize_allowed : (c : ℕ) → any (λ f. f == sanitize c) forbidden ≡ false
unfolding sanitize any
sanitize_allowed c = elim (Bool-cases (any (λ f. f == c) forbidden)) [
  | inl bad ↦ rw (sanitize, bad) refl
  | inr fine ↦ rw (sanitize, fine) fine
]

abbrev pub IsAllowed : ℕ → Type 0
IsAllowed c = any (λ f. f == c) forbidden ≡ false

sanitized-IsAllowed : (s : CString) → All IsAllowed (sanitized s)
unfolding sanitized sanitize
sanitized-IsAllowed [] = tt
sanitized-IsAllowed (c ∷ s) = (sanitize_allowed c, sanitized-IsAllowed s)

sanitized_same : (s : CString) → All IsAllowed s → sanitized s ≡ s
unfolding sanitized sanitize
sanitized_same [] h = refl
sanitized_same (c ∷ s) (h, hs) = rw (sanitize, h, sanitized_same s hs) refl

length-sanitized : (s : CString) → length (sanitized s) ≡ length s
unfolding sanitized sanitize
length-sanitized [] = refl
length-sanitized (c ∷ s) = ap suc (length-sanitized s)

-- The name in the file has at most 255 bytes, none of them forbidden; a name of that kind is kept
-- as it is.
pub safe_name_lem :
    (username : CString)
    → All IsAllowed (safe_name username)
      × (length (safe_name username) ≤ 255)
      × (All IsAllowed username → length username ≤ 255 → safe_name username ≡ username)
unfolding safe_name
safe_name_lem username = (
  sanitized-IsAllowed (fit 256 username),
  omega (arith, length-sanitized (fit 256 username), length-take 255 username),
  λ allowed short. rw (take_all 255 username short) (sanitized_same username allowed),
)
