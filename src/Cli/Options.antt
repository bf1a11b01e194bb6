-- ===== src/Cli/Options.antt =====
-- cli.c: the options, as getopt_long gives them one after the other.
use winafi.Prelude.{Bool, true, false, Option, none, some, List, [], ◌∷◌}
use winafi.Prelude.Text.{CString}

pub data Opt : Type 0 where
  iso device : CString → Opt
  list dangerous verbose help other : Opt

-- The locals of `cli_main` and `g_interactive`.
pub record Args : Type 0 where
  pub iso_path : Option CString
  pub device_path : Option CString
  pub list_devices : Bool
  pub is_dangerous : Bool
  pub is_verbose : Bool
  pub wants_help : Bool
  pub is_interactive : Bool

abbrev pub no_args : Args
no_args = record {
  iso_path = none;
  device_path = none;
  list_devices = false;
  is_dangerous = false;
  is_verbose = false;
  wants_help = false;
  is_interactive = true;
}

-- The loop; `none` is the return at an unknown option.
unfoldable pub parse_options : List Opt → Args → Option Args
parse_options [] args = some args
parse_options (iso path ∷ opts) args =
    parse_options opts (record args { iso_path = some path; is_interactive = false })
parse_options (device path ∷ opts) args =
    parse_options opts (record args { device_path = some path; is_interactive = false })
parse_options (list ∷ opts) args = parse_options opts (record args { list_devices = true })
parse_options (dangerous ∷ opts) args = parse_options opts (record args { is_dangerous = true })
parse_options (verbose ∷ opts) args = parse_options opts (record args { is_verbose = true })
parse_options (help ∷ opts) args = parse_options opts (record args { wants_help = true })
parse_options (other ∷ opts) args = none
