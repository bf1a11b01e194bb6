-- ===== src/Wue/Target.antt =====
-- Where a successful injection puts the file.
use winafi.Prelude.{◌++◌}
use winafi.Prelude.Text.{CString, codes}
use winafi.Wue.Inject.{Files}

module _ (files : Files) (xml mount_point : CString) where
  abbrev dir : CString
  dir = mount_point ++ codes "/sources/$OEM$/$$/Panther"
