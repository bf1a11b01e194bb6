-- ===== src/Update/Check.antt =====
-- platform/linux/update.c: `update_build_url` and `update_check`.
use winafi.Prelude.{
  ℕ, ◌≤◌, ◌<◌, ◌≡◌, ◌⊎◌, ◌↔◌, refl, Option, none, some, List, ◌++◌, false, leb, ltb, length, get_or,
  if◌then◌else◌, arith,
}
use winafi.Prelude.Int.{ℤ, pos, negsuc, ltb_ℤ}
use winafi.Prelude.Text.{CString, codes, fit}
use winafi.Update.Compare.{compared}
use winafi.Update.{
  components, update_strip_v, version_of, compare_components, update_version_compare,
}

-- `none` is -1.
unfoldable pub update_build_url : CString → ℕ → Option CString
update_build_url tag out_size = elim (update_strip_v tag 64) [
  | none ↦ none
  | some clean ↦
      let url = codes "https://github.com/AlphaGlider25/Winafi/releases/tag/v" ++ clean in
      if leb out_size (length url) then none else some url
]

-- The result of `update_check`, and the text in `latest_out` where it was written.
pub record Report : Type 0 where
  pub result : ℤ
  pub latest_out : Option CString

abbrev pub no_report : Report
no_report = record { result = negsuc 0; latest_out = none }

-- `latest` is what `net_check_latest_version` returns, `version` is WINAFI_VERSION. The outer `none`
-- is the undefined value of an overflow.
unfoldable pub update_check : Option CString → CString → ℕ → Option Report
update_check none version out_size = some no_report
update_check (some latest) version out_size =
    if ltb out_size 2 then some no_report else elim (update_strip_v latest 64) [
      | none ↦ some no_report
      | some clean_latest ↦ elim (update_strip_v version 64) [
        | none ↦ some no_report
        | some clean_current ↦
            elim (update_version_compare (some clean_latest) (some clean_current)) [
              | none ↦ none
              | some cmp ↦ some (record {
                result = if ltb_ℤ (pos 0) cmp then pos 1 else pos 0;
                latest_out = some (fit out_size clean_latest);
              })
            ]
      ]
    ]

-- The lexicographic order of the first three components, without equality.
abbrev pub IsLater : List ℕ → List ℕ → Type 0
IsLater va vb =
    (get_or vb 0 0 < get_or va 0 0)
    ⊎ ((get_or va 0 0 ≡ get_or vb 0 0)
        × ((get_or vb 1 0 < get_or va 1 0)
            ⊎ ((get_or va 1 0 ≡ get_or vb 1 0) × (get_or vb 2 0 < get_or va 2 0))))

compare_positive :
    (va vb : List ℕ)
    → ((if ltb_ℤ (pos 0) (compare_components va vb) then pos 1 else pos 0) ≡ pos 1) ↔ IsLater va vb
unfolding compare_components
compare_positive va vb = ground arith

checked :
    (latest version clean_latest clean_current : CString) (out_size : ℕ) (va vb : List ℕ)
    → 2 ≤ out_size
    → update_strip_v latest 64 ≡ some clean_latest
    → update_strip_v version 64 ≡ some clean_current
    → version_of clean_latest ≡ components va
    → version_of clean_current ≡ components vb
    → update_check (some latest) version out_size
      ≡ some (record {
        result = if ltb_ℤ (pos 0) (compare_components va vb) then pos 1 else pos 0;
        latest_out = some (fit out_size clean_latest);
      })
unfolding update_check
checked latest version cl cv out_size va vb room el ev pl pv =
    let wide : ltb out_size 2 ≡ false = ground arith in
    rw (wide, el, ev, compared cl cv va vb pl pv) refl

-- Where the name that the network gives and the program's own are versions of less than 64 bytes,
-- `update_check` reports an update exactly if the components of the first come lexicographically
-- after those of the second, a missing one counting as 0, and it gives the name out in any case.
pub update_check_iff :
    (latest version clean_latest clean_current : CString) (out_size : ℕ) (va vb : List ℕ)
    → 2 ≤ out_size
    → update_strip_v latest 64 ≡ some clean_latest
    → update_strip_v version 64 ≡ some clean_current
    → version_of clean_latest ≡ components va
    → version_of clean_current ≡ components vb
    → (r : Report) × (update_check (some latest) version out_size ≡ some r)
      × ((r.result ≡ pos 1) ↔ IsLater va vb)
      × (r.latest_out ≡ some (fit out_size clean_latest))
update_check_iff latest version cl cv out_size va vb room el ev pl pv =
    (_, checked latest version cl cv out_size va vb room el ev pl pv, compare_positive va vb, refl)
