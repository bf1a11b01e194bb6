-- ===== src/Cli/Examples.antt =====
-- Calls of the command line on the machine of the samples.
use winafi.Prelude.{◌≡◌, ◌⊎◌, refl, true, false, none, some, List, [], ◌∷◌}
use winafi.Prelude.Int.{pos}
use winafi.Prelude.Text.{codes, str_eq, skip_spaces}
use winafi.Session.State.{create, default_options}
use winafi.Settings.Store.{atoi, signed_value, digits_value}
use winafi.Cli.Options.{Opt, iso, device, dangerous, help, other, parse_options}
use winafi.Cli.Prompts.{strip_line_end, choice_of, numbered, named_path, get_confirmation}
use winafi.Cli.Main.{World, cli_main, with_args, with_session}
use winafi.Cli.Given.{Consented, cli_main-Consented}
use winafi.Samples.{sdb, image, desk, stick, helpful, silent_parts, windows_image}

abbrev desk_world : World
desk_world = record {
  new_session = create true true true;
  system = desk;
  detect = λ path. some windows_image;
  listed = some (stick ∷ []);
  listed_later = some (stick ∷ []);
  machine = helpful;
  parts = silent_parts;
}

abbrev full_command : List Opt
full_command = iso image ∷ device sdb ∷ dangerous ∷ []

cli_main-Consented_example :
    ((cli_main desk_world full_command []).log ≡ [])
    ⊎ Consented desk_world full_command [] (cli_main desk_world full_command [])
cli_main-Consented_example = cli_main-Consented desk_world full_command []

-- The ends before the first question.
early_ends :
    ((cli_main desk_world (help ∷ []) []).status ≡ pos 0)
    × ((cli_main desk_world (dangerous ∷ other ∷ []) []).status ≡ pos 1)
    × ((cli_main desk_world (iso image ∷ device sdb ∷ []) []).status ≡ pos 1)
unfolding cli_main parse_options with_args with_session create default_options
early_ends = (refl, refl, refl)

-- Answers to the questions: a device by its number or its path, and what confirms.
answers :
    (choice_of (strip_line_end (codes "1\n")) (stick ∷ []) ≡ some sdb)
    × (choice_of (strip_line_end (codes "2\n")) (stick ∷ []) ≡ none)
    × (choice_of (strip_line_end (codes "/dev/sdb\n")) (stick ∷ []) ≡ some sdb)
    × (get_confirmation (codes "YES\n" ∷ []) ≡ true)
    × (get_confirmation (codes "yes\n" ∷ []) ≡ false)
unfolding choice_of numbered named_path strip_line_end atoi signed_value digits_value skip_spaces
    get_confirmation str_eq
answers = (refl, refl, refl, refl, refl)
