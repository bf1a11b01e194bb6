-- ===== src/Wue/Pieces.antt =====
-- What each literal text of the answer file does to the reader's stack.
use winafi.Prelude.{refl, List, ◌∷◌}
use winafi.Prelude.Text.{CString, codes, str_eq}
use winafi.Wue.Literals.{
  xml_head, hide_before, hide_after, winpe_before, winpe_after, run_before, bypass_before,
  bypass_between, bypass_after, run_after, settings_end, offline_before, offline_after, oobe_before,
  oobe_after, no_account, no_data, oobe_end, user_before, user_between, user_after, qol, xml_end,
}
use winafi.Wue.Reader.{content, quoted, close, read_byte, read_from}
use winafi.Wue.Moves.{Moves}

module _ (st : List CString) where
  pub hide_before-Moves :
      Moves content st hide_before content (codes "Order" ∷ codes "RunSynchronousCommand" ∷ st)
  unfolding hide_before read_from read_byte close str_eq
  hide_before-Moves = record { moves = refl }

  pub hide_after-Moves :
      Moves content (codes "Order" ∷ codes "RunSynchronousCommand" ∷ st) hide_after content st
  unfolding hide_after read_from read_byte close str_eq
  hide_after-Moves = record { moves = refl }

  pub winpe_before-Moves :
      Moves content st winpe_before (quoted (codes "component")) (codes "settings" ∷ st)
  unfolding winpe_before read_from read_byte close str_eq
  winpe_before-Moves = record { moves = refl }

  pub winpe_after-Moves :
      Moves
        (quoted (codes "component"))
        (codes "settings" ∷ st)
        winpe_after
        content
        (codes "component" ∷ codes "settings" ∷ st)
  unfolding winpe_after read_from read_byte close str_eq
  winpe_after-Moves = record { moves = refl }

  pub run_before-Moves : Moves content st run_before content (codes "RunSynchronous" ∷ st)
  unfolding run_before read_from read_byte close str_eq
  run_before-Moves = record { moves = refl }

  pub run_after-Moves : Moves content (codes "RunSynchronous" ∷ st) run_after content st
  unfolding run_after read_from read_byte close str_eq
  run_after-Moves = record { moves = refl }

  pub bypass_before-Moves :
      Moves content st bypass_before content (codes "Order" ∷ codes "RunSynchronousCommand" ∷ st)
  unfolding bypass_before read_from read_byte close str_eq
  bypass_before-Moves = record { moves = refl }

  pub bypass_between-Moves :
      Moves content
        (codes "Order" ∷ codes "RunSynchronousCommand" ∷ st)
        bypass_between
        content
        (codes "Path" ∷ codes "RunSynchronousCommand" ∷ st)
  unfolding bypass_between read_from read_byte close str_eq
  bypass_between-Moves = record { moves = refl }

  pub bypass_after-Moves :
      Moves content (codes "Path" ∷ codes "RunSynchronousCommand" ∷ st) bypass_after content st
  unfolding bypass_after read_from read_byte close str_eq
  bypass_after-Moves = record { moves = refl }

  pub settings_end-Moves :
      Moves content (codes "component" ∷ codes "settings" ∷ st) settings_end content st
  unfolding settings_end read_from read_byte close str_eq
  settings_end-Moves = record { moves = refl }

  pub offline_before-Moves :
      Moves content st offline_before (quoted (codes "component")) (codes "settings" ∷ st)
  unfolding offline_before read_from read_byte close str_eq
  offline_before-Moves = record { moves = refl }

  pub offline_after-Moves :
      Moves (quoted (codes "component")) (codes "settings" ∷ st) offline_after content st
  unfolding offline_after read_from read_byte close str_eq
  offline_after-Moves = record { moves = refl }

  pub oobe_before-Moves :
      Moves content st oobe_before (quoted (codes "component")) (codes "settings" ∷ st)
  unfolding oobe_before read_from read_byte close str_eq
  oobe_before-Moves = record { moves = refl }

  pub oobe_after-Moves :
      Moves
        (quoted (codes "component"))
        (codes "settings" ∷ st)
        oobe_after
        content
        (codes "OOBE" ∷ codes "component" ∷ codes "settings" ∷ st)
  unfolding oobe_after read_from read_byte close str_eq
  oobe_after-Moves = record { moves = refl }

  pub no_account-Moves : Moves content st no_account content st
  unfolding no_account read_from read_byte close str_eq
  no_account-Moves = record { moves = refl }

  pub no_data-Moves : Moves content st no_data content st
  unfolding no_data read_from read_byte close str_eq
  no_data-Moves = record { moves = refl }

  pub oobe_end-Moves : Moves content (codes "OOBE" ∷ st) oobe_end content st
  unfolding oobe_end read_from read_byte close str_eq
  oobe_end-Moves = record { moves = refl }

  pub user_before-Moves :
      Moves content st user_before content
        (codes "Name" ∷ codes "LocalAccount" ∷ codes "LocalAccounts" ∷ codes "UserAccounts" ∷ st)
  unfolding user_before read_from read_byte close str_eq
  user_before-Moves = record { moves = refl }

  pub user_between-Moves :
      Moves content
        (codes "Name" ∷ codes "LocalAccount" ∷ st)
        user_between
        content
        (codes "DisplayName" ∷ codes "LocalAccount" ∷ st)
  unfolding user_between read_from read_byte close str_eq
  user_between-Moves = record { moves = refl }

  pub user_after-Moves :
      Moves content
        (codes "DisplayName"
          ∷ codes "LocalAccount"
          ∷ codes "LocalAccounts"
          ∷ codes "UserAccounts"
          ∷ st)
        user_after
        content
        st
  unfolding user_after read_from read_byte close str_eq
  user_after-Moves = record { moves = refl }

  pub qol-Moves : Moves content st qol content st
  unfolding qol read_from read_byte close str_eq
  qol-Moves = record { moves = refl }

  pub xml_head-Moves : Moves content st xml_head content (codes "unattend" ∷ st)
  unfolding xml_head read_from read_byte close str_eq
  xml_head-Moves = record { moves = refl }

  pub xml_end-Moves : Moves content (codes "unattend" ∷ st) xml_end content st
  unfolding xml_end read_from read_byte close str_eq
  xml_end-Moves = record { moves = refl }
