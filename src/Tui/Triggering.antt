-- ===== src/Tui/Triggering.antt =====
-- `triggerScan` of internal/tui/model.go, branch by branch.
use wfm.Prelude.{Bool, true, false, [], ◌∷◌, none, ◌≡◌, arith, Text}
use wfm.Tui.Model.{Model, scan_cmd, spinner_tick_cmd, trigger_scan}

-- The state while a scan runs, and the one that has dropped the access points for it.
abbrev pub started : Model → Model
started m = record m { scanning = true; err = none }

abbrev pub cleared : Model → Model
cleared m = record m {
  scanning = true;
  err = none;
  aps = [];
  ap_index = 0;
  top = 0;
  conn_ap = none;
}

module _ (m : Model) (id : Text) where
  pub trigger_busy : (clear : Bool) → m.scanning ≡ true → trigger_scan m id clear ≡ (m, [])
  unfolding trigger_scan
  trigger_busy clear e = ground arith

  pub trigger_clear :
      m.scanning ≡ false → trigger_scan m id true ≡ (cleared m, scan_cmd id ∷ spinner_tick_cmd ∷ [])
  unfolding trigger_scan
  trigger_clear e = ground arith

  pub trigger_keep :
      m.scanning ≡ false
      → trigger_scan m id false ≡ (started m, scan_cmd id ∷ spinner_tick_cmd ∷ [])
  unfolding trigger_scan
  trigger_keep e = ground arith
