-- ===== src/Wue/Inject.antt =====
-- platform/linux/wue.c: where the answer file is written. The result 0 is `true`.
use winafi.Prelude.{
  Bool, true, false, not, Option, none, some, List, [], ◌∷◌, ◌++◌, length, ltb, ◌==◌, if◌then◌else◌,
}
use winafi.Prelude.Text.{CString, codes, fit}

-- What the system answers: `makes` is mkdir, with `true` also for a directory that exists; `opens`
-- fopen for writing; `puts` fputs.
pub record Files : Type 0 where
  pub makes : CString → Bool
  pub opens : CString → Bool
  pub puts : CString → Bool

-- The result, the directories that mkdir was asked for, and the file that was opened.
pub record Injected : Type 0 where
  pub succeeded : Bool
  pub asked : List CString
  pub opened : Option CString

-- The parts of a path before its slashes, but for a slash at its start, and then the path; `before`
-- is the part already passed.
unfoldable pub path_steps : CString → CString → List CString
path_steps before [] = before ∷ []
path_steps before (c ∷ s) =
    let rest = path_steps (before ++ c ∷ []) s in if c == b'/' then before ∷ rest else rest

unfoldable pub steps_of : CString → List CString
steps_of [] = [] ∷ []
steps_of (c ∷ s) = path_steps (c ∷ []) s

-- One mkdir after the other, up to the first that fails.
unfoldable pub make_all : Files → List CString → Bool × List CString
make_all files [] = (true, [])
make_all files (dir ∷ dirs) =
    let (made, asked) = make_all files dirs in
    if files.makes dir then (made, dir ∷ asked) else (false, dir ∷ [])

unfoldable pub mkdirs : Files → CString → Bool × List CString
mkdirs files path = make_all files (steps_of (fit 4096 path))

unfoldable pub put_text : Files → List CString → CString → CString → Injected
put_text files asked path xml =
    if not (files.opens path)
    then record { succeeded = false; asked = asked; opened = none }
    else record { succeeded = files.puts xml; asked = asked; opened = some path }

abbrev refused : Injected
refused = record { succeeded = false; asked = []; opened = none }

unfoldable pub wue_inject_xml : Files → Option CString → Option CString → Injected
wue_inject_xml files none mount_point = refused
wue_inject_xml files (some xml) none = refused
wue_inject_xml files (some xml) (some mount_point) =
    let dir = fit 4096 (mount_point ++ codes "/sources/$OEM$/$$/Panther") in
    let (made, asked) = mkdirs files dir in
    if ltb 4000 (length mount_point)
    then refused
    else if not made
    then record { succeeded = false; asked = asked; opened = none }
    else put_text files asked (fit 4128 (dir ++ codes "/unattend.xml")) xml

unfoldable pub wue_inject_autounattend : Files → Option CString → Option CString → Injected
wue_inject_autounattend files none mount_point = refused
wue_inject_autounattend files (some xml) none = refused
wue_inject_autounattend files (some xml) (some mount_point) =
    if ltb 4000 (length mount_point)
    then refused
    else put_text files [] (fit 4128 (mount_point ++ codes "/autounattend.xml")) xml
