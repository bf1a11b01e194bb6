-- ===== src/Settings/Lookup.antt =====
-- The settings as a map from keys to values.
use winafi.Prelude.{
  ℕ, ◌≤◌, ◌<◌, true, false, ◌≡◌, ◌≢◌, ◌⊎◌, refl, sym, ap, ◌∙◌, inl, inr, Option, none, some, List,
  [], ◌∷◌, ◌++◌, arith, length, leb, if◌then◌else◌, Bool-cases, Option-cases, take_all, subst, ◌==◌,
  ◌-◌,
}
use winafi.Prelude.Text.{CString, str_eq, str_eq→eq, str_eq_refl, fit}
use winafi.Settings.Store.{
  Entry, Settings, find_entry, replace_val, store_val, settings_get_string, settings_set_string,
}

-- The specification: a function on keys, and its update at one key.
abbrev pub Lookup : Type 0
Lookup = CString → Option CString

abbrev pub update : Lookup → CString → CString → Lookup
update f key val k = if str_eq key k then some val else f k

abbrev pub lookup : Settings → Lookup
lookup s = find_entry s.entries

replace_other :
    (es : List Entry) (key val k : CString)
    → str_eq key k ≡ false
    → find_entry (replace_val es key val) k ≡ find_entry es k
unfolding find_entry replace_val
replace_other [] key val k h = refl
replace_other (e ∷ es) key val k h = elim (Bool-cases (str_eq e.key key)) [
  | inl t ↦ let differs = rw (sym (str_eq→eq e.key key t)) at h in rw (t, differs) refl
  | inr f ↦ rw (f, replace_other es key val k h) refl
]

replace_self :
    (es : List Entry) (key val w : CString)
    → find_entry es key ≡ some w
    → find_entry (replace_val es key val) key ≡ some val
unfolding find_entry replace_val
replace_self [] key val w h = absurd (ground arith)
replace_self (e ∷ es) key val w h = elim (Bool-cases (str_eq e.key key)) [
  | inl t ↦ rw (t, t) refl
  | inr f ↦ rw (f, f) (replace_self es key val w (rw f at h))
]

find_entry-append_some :
    (es : List Entry) (e : Entry) (k w : CString)
    → find_entry es k ≡ some w
    → find_entry (es ++ e ∷ []) k ≡ some w
unfolding find_entry
find_entry-append_some [] e k w h = absurd (ground arith)
find_entry-append_some (x ∷ es) e k w h = elim (Bool-cases (str_eq x.key k)) [
  | inl t ↦ rw t (rw t at h)
  | inr f ↦ rw f (find_entry-append_some es e k w (rw f at h))
]

find_entry-append_none :
    (es : List Entry) (e : Entry) (k : CString)
    → find_entry es k ≡ none
    → find_entry (es ++ e ∷ []) k ≡ (if str_eq e.key k then some e.val else none)
unfolding find_entry
find_entry-append_none [] e k h = refl
find_entry-append_none (x ∷ es) e k h = elim (Bool-cases (str_eq x.key k)) [
  | inl t ↦ absurd (cc (rw t at h))
  | inr f ↦ rw f (find_entry-append_none es e k (rw f at h))
]

-- There is an entry for the key, or room for one.
abbrev pub HasRoom : Settings → CString → Type 0
HasRoom s key = (length key ≤ 127) × (find_entry s.entries key ≢ none ⊎ (length s.entries < 256))

replaced :
    (es : List Entry) (key val w k : CString)
    → find_entry es key ≡ some w
    → find_entry (replace_val es key val) k ≡ update (find_entry es) key val k
replaced es key val w k h = elim (Bool-cases (str_eq key k)) [
  | inl t ↦ rw t (
      subst (λ j. find_entry (replace_val es key val) j ≡ some val) (str_eq→eq key k t)
        (replace_self es key val w h))
  | inr f ↦ rw f (replace_other es key val k f)
]

appended :
    (es : List Entry) (key val k : CString)
    → find_entry es key ≡ none
    → find_entry (es ++ record { key = key; val = val } ∷ []) k ≡ update (find_entry es) key val k
appended es key val k h = elim (Option-cases (find_entry es k)) [
  | inl free ↦ rw free (find_entry-append_none es (record { key = key; val = val }) k free)
  | inr (w, used) ↦ elim (Bool-cases (str_eq key k)) [
    | inl t ↦ absurd (cc (sym used ∙ (ap (find_entry es) (sym (str_eq→eq key k t)) ∙ h)))
    | inr f ↦ rw (f, used) (find_entry-append_some es (record { key = key; val = val }) k w used)
  ]
]

pub stored_new :
    (s : Settings) (key val : CString)
    → find_entry s.entries key ≡ none
    → leb 256 (length s.entries) ≡ false
    → store_val s key val ≡ record s {
      entries = s.entries ++ record { key = fit 128 key; val = val } ∷ [];
      dirty = true;
    }
unfolding store_val
stored_new s key val h k = rw (store_val, h, k) refl

pub store_val-update :
    (s : Settings) (key val k : CString)
    → HasRoom s key
    → lookup (store_val s key val) k ≡ update (lookup s) key val k
unfolding store_val
store_val-update s key val k (short, room) = elim (Option-cases (find_entry s.entries key)) [
  | inr (w, used) ↦ rw (store_val, used) (replaced s.entries key val w k used)
  | inl free ↦ elim (Bool-cases (leb 256 (length s.entries))) [
    | inl full ↦ elim room [ inl known ↦ absurd (known free) | inr more ↦ absurd (ground arith) ]
    | inr more ↦
        rw (stored_new s key val free more, take_all 127 key short)
          (appended s.entries key val k free)
  ]
]

-- The store refines a map: where a key of at most 127 bytes is known or there is room for it,
-- setting it is the update of the map at that key by the first 511 bytes of the value, and no other
-- key has another value afterwards.
pub settings_set_string-update :
    (s : Settings) (key val k : CString)
    → HasRoom s key
    → lookup (settings_set_string s (some key) (some val)) k ≡ update (lookup s) key (fit 512 val) k
unfolding settings_set_string
settings_set_string-update s key val k room = store_val-update s key (fit 512 val) k room

-- A value of at most 511 bytes that was set, under a key with room, is read back whole into a buffer
-- that is longer than it, whatever default is given.
pub settings_get_string-settings_set_string :
    (s : Settings) (key val : CString) (n : ℕ) (d : Option CString)
    → HasRoom s key
    → length val ≤ 511
    → length val < n
    → settings_get_string (settings_set_string s (some key) (some val)) (some key) n d ≡ some val
unfolding settings_get_string
settings_get_string-settings_set_string s key val n d room short large =
    let stored = settings_set_string-update s key val key room in
    let self = rw (str_eq_refl key) at stored in
    elim (Bool-cases (n == 0)) [
      | inl z ↦ absurd (ground arith)
      | inr nz ↦ rw (nz, self, take_all 511 val short, take_all (n - 1) val (omega arith)) refl
    ]
