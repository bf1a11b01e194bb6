-- ===== src/Cli/Prompts.antt =====
-- cli.c: the questions. The input is the list of the texts that the calls of fgets still give; where
-- it is empty, fgets returns NULL.
use winafi.Prelude.{
  ◌-◌, Bool, false, ◌&&◌, Option, none, some, List, [], ◌∷◌, get_elem?, leb, ◌==◌, if◌then◌else◌,
}
use winafi.Prelude.Int.{pos, negsuc}
use winafi.Prelude.Text.{CString, codes, str_eq, fit, char_at}
use winafi.System.{System}
use winafi.Device.{Device}
use winafi.Session.Lifecycle.{iso_file_exists}
use winafi.Settings.Store.{atoi}

-- One newline at the end is taken off.
unfoldable pub strip_line_end : CString → CString
strip_line_end [] = []
strip_line_end (c ∷ []) = if c == b'\n' then [] else c ∷ []
strip_line_end (c ∷ d ∷ s) = c ∷ strip_line_end (d ∷ s)

-- What a question gives, and the input behind its answer.
pub record Answer (A : Type 0) : Type 0 where
  pub value : A
  pub rest : List CString

unfoldable pub get_iso_path_interactive : System → List CString → Answer (Option CString)
get_iso_path_interactive sys [] = record { value = none; rest = [] }
get_iso_path_interactive sys (line ∷ input) =
    let again = get_iso_path_interactive sys input in
    if iso_file_exists sys (strip_line_end line)
    then record { value = some (strip_line_end line); rest = input }
    else again

-- The device that one answer names: by its number, counted from 1, or by its path.
unfoldable pub named_path : CString → List Device → Option CString
named_path text [] = none
named_path text (d ∷ ds) =
    let rest = named_path text ds in if str_eq text d.devnode then some (fit 64 text) else rest

-- `idx` is `atoi(input) - 1`; a number of at least 1 makes it at least 0.
unfoldable pub numbered : CString → List Device → Option CString
numbered text devices = elim (atoi text) [
  | negsuc n ↦ none
  | pos n ↦
      if n == 0
      then none
      else elim (get_elem? devices (n - 1)) [ none ↦ none | some d ↦ some (fit 64 d.devnode) ]
]

unfoldable pub choice_of : CString → List Device → Option CString
choice_of text devices =
    if leb b'1' (char_at text 0) && leb (char_at text 0) b'9'
    then elim (numbered text devices) [ some path ↦ some path | none ↦ named_path text devices ]
    else named_path text devices

unfoldable pub select_interactive : List Device → List CString → Answer (Option CString)
select_interactive devices [] = record { value = none; rest = [] }
select_interactive devices (line ∷ input) =
    let again = select_interactive devices input in
    elim (choice_of (strip_line_end line) devices) [
      | some path ↦ record { value = some path; rest = input }
      | none ↦ again
    ]

unfoldable pub get_confirmation : List CString → Bool
get_confirmation [] = false
get_confirmation (line ∷ input) = str_eq (strip_line_end line) (codes "YES")
