-- ===== src/Wnet/Ubus/Wireless.antt =====
-- What the backend of internal/wnet/ubus does its work with: the wireless configuration of the node,
-- the state of its devices, and a clock. Wnet.Ubus.Node implements it by ubus calls.
use wfm.Prelude.{ℕ, Bool, List, Text}
use wfm.Wnet.Backend.{Action}
use wfm.Wnet.Ubus.Convert.{ScanResult, IwinfoInfo}
use wfm.Wnet.Ubus.Convert.Wireless.{WifiIface}

-- UCI options with their values.
abbrev pub Values : Type 0
Values = List (Text × Text)

pub record Wireless (S : Type 0) : Type 0 where
  pub wifi_ifaces : Action S (List WifiIface)
  -- The device that a section was brought up as; empty if there is none.
  pub wireless_status : Action S (Text → Text)
  pub devices : Action S (List Text)
  pub info : Text → Action S IwinfoInfo
  pub scan_results : Text → Action S (List ScanResult)
  pub if_status : Text → S → (List Text × Text × List Text) × S
  pub pick_radio : Action S Text
  pub uci_add : (name : Text) → Values → Action S (Unit {0})
  pub uci_set : (section : Text) → Values → Action S (Unit {0})
  pub uci_delete : (section : Text) → Action S (Unit {0})
  pub commit : Action S (Unit {0})
  pub reload_wifi : Action S (Unit {0})
  -- Milliseconds.
  pub now : S → ℕ
  -- The wait of `waitAssociated` between two polls: false if the context is done first.
  pub wait : S → Bool × S
  -- The wait of `Watch` for its ticker, and how many ticks it gets before its context is done.
  pub tick : S → S
  pub polls : ℕ
