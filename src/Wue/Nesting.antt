-- ===== src/Wue/Nesting.antt =====
-- The answer file is well-nested, whatever the flags, the name and the architecture are.
use winafi.Prelude.{
  ℕ, ◌+◌, ◌||◌, ◌≡◌, ◌⊎◌, refl, inl, inr, Option, none, some, List, [], ◌∷◌, All, ◌==◌, Bool-cases,
  arith,
}
use winafi.Prelude.Text.{CString, codes, fit}
use winafi.Wue.Literals.{no_account, no_data, qol}
use winafi.Wue.Generate.{
  has, bypasses, bypasses_any, hides_media, hide_install_media_cmd, bypass_cmd, bypass_cmds,
  run_sync, winpe_pass, offline_pass, safe_name, user_accounts, has_oobe, oobe_pass, arch_name,
  wue_generate_xml,
}
use winafi.Wue.Reader.{read_byte, read_from, IsNested}
use winafi.Wue.Moves.{◌>=>◌, Closed, Closed-if, decimal-Closed, sanitized-Closed, arch_quoted}
use winafi.Wue.Pieces.{
  hide_before-Moves, hide_after-Moves, winpe_before-Moves, winpe_after-Moves, run_before-Moves,
  run_after-Moves, bypass_before-Moves, bypass_between-Moves, bypass_after-Moves,
  settings_end-Moves, offline_before-Moves, offline_after-Moves, oobe_before-Moves,
  oobe_after-Moves, no_account-Moves, no_data-Moves, oobe_end-Moves, user_before-Moves,
  user_between-Moves, user_after-Moves, qol-Moves, xml_head-Moves, xml_end-Moves,
}

hide-Closed : (order : ℕ) → Closed (hide_install_media_cmd order)
unfolding hide_install_media_cmd
hide-Closed order st = hide_before-Moves st >=> decimal-Closed order _ >=> hide_after-Moves st

bypass-Closed : (order : ℕ) (key : CString) → Closed key → Closed (bypass_cmd order key)
unfolding bypass_cmd
bypass-Closed order key h st =
    bypass_before-Moves st
    >=> decimal-Closed order _
    >=> bypass_between-Moves st
    >=> h _
    >=> bypass_after-Moves st

bypasses-Closed :
    (flags order : ℕ) (table : List (ℕ × CString))
    → All (λ b. Closed (b.1)) table
    → Closed (bypass_cmds flags order table)
unfolding bypass_cmds read_from
bypasses-Closed flags order [] h st = record { moves = refl }
bypasses-Closed flags order ((bit, key) ∷ table) (h, hs) st = elim (Bool-cases (has flags bit)) [
  | inl set ↦
      rw (bypass_cmds, set)
        (bypass-Closed order key h st >=> bypasses-Closed flags (order + 1) table hs st)
  | inr unset ↦ rw (bypass_cmds, unset) (bypasses-Closed flags order table hs st)
]

keys-Closed : All (λ b. Closed (b.1)) bypasses
unfolding read_from read_byte
keys-Closed = (
  λ st. record { moves = refl },
  (
    λ st. record { moves = refl },
    (
      λ st. record { moves = refl },
      (λ st. record { moves = refl }, (λ st. record { moves = refl }, tt)),
    ),
  ),
)

run_sync-Closed : (flags : ℕ) → Closed (run_sync flags)
unfolding run_sync
run_sync-Closed flags st = elim (Bool-cases (hides_media flags)) [
  | inl hides ↦
      rw (run_sync, hides) (hide-Closed 1 st >=> bypasses-Closed flags 2 bypasses keys-Closed st)
  | inr shows ↦ rw (run_sync, shows) (bypasses-Closed flags 1 bypasses keys-Closed st)
]

winpe-Closed : (flags arch : ℕ) → Closed (winpe_pass flags (arch_name arch))
unfolding winpe_pass
winpe-Closed flags arch =
    Closed-if (bypasses_any flags || has flags 0x0800 || hides_media flags) _ (λ st.
      winpe_before-Moves st
      >=> arch_quoted arch _ _
      >=> winpe_after-Moves st
      >=> Closed-if (bypasses_any flags || hides_media flags) _
          (λ inner. run_before-Moves inner >=> run_sync-Closed flags _ >=> run_after-Moves inner) _
      >=> settings_end-Moves st)

offline-Closed : (flags arch : ℕ) → Closed (offline_pass flags (arch_name arch))
unfolding offline_pass
offline-Closed flags arch =
    Closed-if (has flags 0x0010) _
      (λ st. offline_before-Moves st >=> arch_quoted arch _ _ >=> offline_after-Moves st)

accounts-Closed : (flags : ℕ) (username : Option CString) → Closed (user_accounts flags username)
unfolding user_accounts safe_name read_from
accounts-Closed flags none st = record { moves = refl }
accounts-Closed flags (some []) st = record { moves = refl }
accounts-Closed flags (some (c ∷ username)) st =
    Closed-if (has flags 0x0040) _
      (λ st.
        user_before-Moves st
        >=> sanitized-Closed (fit 256 (c ∷ username)) _
        >=> user_between-Moves (codes "LocalAccounts" ∷ codes "UserAccounts" ∷ st)
        >=> sanitized-Closed (fit 256 (c ∷ username)) _
        >=> user_after-Moves st)
      st

oobe-Closed :
    (flags : ℕ) (username : Option CString) (arch : ℕ)
    → Closed (oobe_pass flags username (arch_name arch))
unfolding oobe_pass
oobe-Closed flags username arch = Closed-if (has_oobe flags) _ (λ st.
    oobe_before-Moves st
    >=> arch_quoted arch _ _
    >=> oobe_after-Moves st
    >=> Closed-if (has flags 0x0004) no_account no_account-Moves _
    >=> Closed-if (has flags 0x0008) no_data no_data-Moves _
    >=> oobe_end-Moves _
    >=> accounts-Closed flags username _
    >=> Closed-if (has flags 0x1000) qol qol-Moves _
    >=> settings_end-Moves st)

-- Whatever the flags, the user name and the architecture are, `wue_generate_xml` returns NULL exactly
-- for the flags 0, and else a text in which every element is closed in its turn, the name included.
pub wue_generate_xml-IsNested :
    (flags : ℕ) (username : Option CString) (arch : ℕ)
    → ((flags ≡ 0) × (wue_generate_xml flags username arch ≡ none))
      ⊎ ((text : CString) × (wue_generate_xml flags username arch ≡ some text) × IsNested text)
unfolding wue_generate_xml
wue_generate_xml-IsNested flags username arch = elim (Bool-cases (flags == 0)) [
  | inl none_set ↦ inl (ground arith, rw none_set refl)
  | inr set ↦ inr (
    _,
    rw set refl,
    (xml_head-Moves []
        >=> winpe-Closed flags arch _
        >=> offline-Closed flags arch _
        >=> oobe-Closed flags username arch _
        >=> xml_end-Moves []).moves,
  )
]
