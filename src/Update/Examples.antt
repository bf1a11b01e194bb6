-- ===== src/Update/Examples.antt =====
-- Comparisons of concrete versions.
use winafi.Prelude.{arith, List, ℕ, ◌≡◌, ◌↔◌, refl, some, none, [], ◌∷◌}
use winafi.Prelude.Int.{pos}
use winafi.Prelude.Text.{CString, codes, fit}
use winafi.Update.{
  components, malformed, update_strip_v, digits, prepend, components_of, parse_version_components,
  version_of, update_version_compare,
}
use winafi.Update.Check.{Report, IsLater, update_check, update_check_iff, update_build_url}
use winafi.Update.Compare.{update_version_compare_ambiguous}

abbrev short : CString
short = codes "v4.1"

abbrev long : CString
long = codes "4.1.0"

abbrev short_parts : List ℕ
short_parts = 4 ∷ 1 ∷ []

abbrev long_parts : List ℕ
long_parts = 4 ∷ 1 ∷ 0 ∷ []

short_lem : version_of short ≡ components short_parts
unfolding version_of update_strip_v parse_version_components components_of digits prepend
short_lem = refl

long_lem : version_of long ≡ components long_parts
unfolding version_of update_strip_v parse_version_components components_of digits prepend
long_lem = refl

later_lem : version_of (codes "6") ≡ components (6 ∷ [])
unfolding version_of update_strip_v parse_version_components components_of digits prepend
later_lem = refl

-- Four components are no version.
four_components : version_of (codes "0.0.5.0") ≡ malformed
unfolding version_of update_strip_v parse_version_components components_of digits prepend
four_components = refl

update_version_compare_ambiguous_example :
    update_version_compare (some short) (some (codes "6")) ≡ update_version_compare none none
update_version_compare_ambiguous_example =
    update_version_compare_ambiguous short (codes "6") short_parts (6 ∷ []) short_lem later_lem refl

old_lem : update_strip_v short 64 ≡ some (codes "4.1")
unfolding update_strip_v
old_lem = refl

six_lem : update_strip_v (codes "6") 64 ≡ some (codes "6")
unfolding update_strip_v
six_lem = refl

old_parts : version_of (codes "4.1") ≡ components short_parts
unfolding version_of update_strip_v parse_version_components components_of digits prepend
old_parts = refl

update_check_iff_example :
    (r : Report) × (update_check (some (codes "6")) short 64 ≡ some r)
    × ((r.result ≡ pos 1) ↔ IsLater (6 ∷ []) short_parts)
    × (r.latest_out ≡ some (fit 64 (codes "6")))
update_check_iff_example =
    update_check_iff (codes "6") short (codes "6") (codes "4.1") 64 (6 ∷ []) short_parts
      (omega arith) six_lem old_lem later_lem old_parts

-- The address of a release, and one that does not fit in its buffer.
addresses :
    (update_build_url short 64
      ≡ some (codes "https://github.com/AlphaGlider25/Winafi/releases/tag/v4.1"))
    × (update_build_url short 57 ≡ none)
unfolding update_build_url update_strip_v
addresses = (refl, refl)
