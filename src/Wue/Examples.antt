-- ===== src/Wue/Examples.antt =====
-- An answer file with every part, and a mount point.
use winafi.Prelude.{ℕ, ◌≡◌, ◌⊎◌, refl, true, none, some, [], ◌∷◌, any}
use winafi.Prelude.Text.{CString, codes}
use winafi.Wue.Generate.{wue_generate_xml, safe_name, sanitized, sanitize}
use winafi.Wue.Inject.{Files}
use winafi.Wue.Reader.{IsNested}
use winafi.Wue.Nesting.{wue_generate_xml-IsNested}
use winafi.Wue.Orders.{wanted_keys}

abbrev user : CString
user = codes "Ann<b>"

wue_generate_xml-IsNested_example :
    ((◌≡◌ {A = ℕ} 0x3fff 0) × (wue_generate_xml 0x3fff (some user) 1 ≡ none))
    ⊎ ((text : CString) × (wue_generate_xml 0x3fff (some user) 1 ≡ some text) × IsNested text)
wue_generate_xml-IsNested_example = wue_generate_xml-IsNested 0x3fff (some user) 1

two_keys : wanted_keys 0x2401 ≡ codes "BypassTPMCheck" ∷ codes "BypassStorageCheck" ∷ []
two_keys = refl

-- The brackets are replaced; an ampersand is not, though XML reads it as the start of a reference.
names : (safe_name user ≡ codes "Ann_b_") × (safe_name (codes "Tom & Ann") ≡ codes "Tom & Ann")
unfolding safe_name sanitized sanitize any
names = (refl, refl)

abbrev writable : Files
writable = record { makes = λ dir. true; opens = λ path. true; puts = λ text. true }
