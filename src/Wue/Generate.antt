-- ===== src/Wue/Generate.antt =====
-- platform/linux/wue.c: `wue_generate_xml`. The texts that `sb_append` adds are joined by `++`; its
-- buffer grows as needed, and allocation does not fail.
use winafi.Prelude.{
  ℕ, ◌+◌, ◌/◌, ◌%◌, Bool, ◌||◌, Option, none, some, List, [], ◌∷◌, ◌++◌, any, ◌==◌, if◌then◌else◌,
}
use winafi.Prelude.Text.{CString, codes, fit, decimal}
use winafi.Wue.Literals.{
  xml_head, hide_before, hide_after, winpe_before, winpe_after, run_before, bypass_before,
  bypass_between, bypass_after, run_after, settings_end, offline_before, offline_after, oobe_before,
  oobe_after, no_account, no_data, oobe_end, user_before, user_between, user_after, qol, xml_end,
}

-- `flags & bit` for a power of two.
unfoldable pub has : ℕ → ℕ → Bool
has flags bit = flags / bit % 2 == 1

-- LabConfig's values, with the flag of each.
abbrev pub bypasses : List (ℕ × CString)
bypasses =
    (0x0001, codes "BypassTPMCheck")
    ∷ (0x0002, codes "BypassSecureBootCheck")
    ∷ (0x0100, codes "BypassRAMCheck")
    ∷ (0x0200, codes "BypassCPUCheck")
    ∷ (0x0400, codes "BypassStorageCheck")
    ∷ []

-- `flags & WUE_BYPASS_MASK`.
unfoldable pub bypasses_any : ℕ → Bool
bypasses_any flags = any (λ b. has flags (b.0)) bypasses

unfoldable pub hides_media : ℕ → Bool
hides_media flags = has flags 0x2000

unfoldable pub hide_install_media_cmd : ℕ → CString
hide_install_media_cmd order = hide_before ++ (decimal order ++ hide_after)

unfoldable pub bypass_cmd : ℕ → CString → CString
bypass_cmd order key = bypass_before ++ (decimal order ++ (bypass_between ++ (key ++ bypass_after)))

-- The loop over the table, with the next order.
unfoldable pub bypass_cmds : ℕ → ℕ → List (ℕ × CString) → CString
bypass_cmds flags order [] = []
bypass_cmds flags order ((bit, key) ∷ table) =
    let rest = bypass_cmds flags (if has flags bit then order + 1 else order) table in
    if has flags bit then bypass_cmd order key ++ rest else rest

unfoldable pub run_sync : ℕ → CString
run_sync flags =
    if hides_media flags
    then hide_install_media_cmd 1 ++ bypass_cmds flags 2 bypasses
    else bypass_cmds flags 1 bypasses

unfoldable pub winpe_pass : ℕ → CString → CString
winpe_pass flags arch =
    if bypasses_any flags || has flags 0x0800 || hides_media flags
    then winpe_before
      ++ (arch
          ++ (winpe_after
              ++ ((if bypasses_any flags || hides_media flags
                    then run_before ++ (run_sync flags ++ run_after)
                    else [])
                  ++ settings_end)))
    else []

unfoldable pub offline_pass : ℕ → CString → CString
offline_pass flags arch = if has flags 0x0010 then offline_before ++ (arch ++ offline_after) else []

abbrev pub forbidden : CString
forbidden = codes "/\\[]:|<>+=;,?*%@."

unfoldable pub sanitize : ℕ → ℕ
sanitize c = if any (λ f. f == c) forbidden then b'_' else c

unfoldable pub sanitized : CString → CString
sanitized [] = []
sanitized (c ∷ s) = sanitize c ∷ sanitized s

unfoldable pub safe_name : CString → CString
safe_name username = sanitized (fit 256 username)

unfoldable pub user_accounts : ℕ → Option CString → CString
user_accounts flags none = []
user_accounts flags (some []) = []
user_accounts flags (some (c ∷ username)) =
    if has flags 0x0040
    then user_before
      ++ (safe_name (c ∷ username) ++ (user_between ++ (safe_name (c ∷ username) ++ user_after)))
    else []

unfoldable pub has_oobe : ℕ → Bool
has_oobe flags =
    has flags 0x0004 || has flags 0x0008 || has flags 0x0040 || has flags 0x0080 || has flags 0x1000

unfoldable pub oobe_pass : ℕ → Option CString → CString → CString
oobe_pass flags username arch =
    if has_oobe flags
    then oobe_before
      ++ (arch
          ++ (oobe_after
              ++ ((if has flags 0x0004 then no_account else [])
                  ++ ((if has flags 0x0008 then no_data else [])
                      ++ (oobe_end
                          ++ (user_accounts flags username
                              ++ ((if has flags 0x1000 then qol else []) ++ settings_end)))))))
    else []

-- arch_names; a number outside of the enumeration counts as 1.
unfoldable pub arch_name : ℕ → CString
arch_name arch =
    if arch == 0 then codes "x86" else if arch == 2 then codes "arm64" else codes "amd64"

unfoldable pub wue_generate_xml : ℕ → Option CString → ℕ → Option CString
wue_generate_xml flags username arch =
    if flags == 0
    then none
    else some (
        xml_head
        ++ (winpe_pass flags (arch_name arch)
            ++ (offline_pass flags (arch_name arch)
                ++ (oobe_pass flags username (arch_name arch) ++ xml_end))))
