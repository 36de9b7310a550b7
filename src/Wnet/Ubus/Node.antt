-- ===== src/Wnet/Ubus/Node.antt =====
-- internal/wnet/ubus/ubus.go: the node over ubus calls, the implementation of what the backend does
-- its work with. The order in which Go ranges over a map, the clock and its waits are parameters.
use wfm.Prelude.{
  ℕ, Bool, List, [], ◌∷◌, ◌++◌, map, Option, none, some, Text, text, text_eq, ◌==◌, ◌!=◌, ◌&&◌,
  if◌then◌else◌, equal_fold,
}
use wfm.Wnet.Types.{err_other}
use wfm.Prelude.Int.{pos}
use wfm.Wnet.Backend.{Result, ok, Action, ◌>>=◌, return, fail}
use wfm.Wnet.Ubus.Json.{
  Json, null, string, to_object, field, as_string, as_object, as_list, members_or_none,
}
use wfm.Wnet.Ubus.Client.{Endpoint, State, call_for, call_unit}
use wfm.Wnet.Ubus.Convert.{ScanResult, IwinfoInfo, is_associated}
use wfm.Wnet.Ubus.Convert.Iwinfo.{as_scan_result, as_iwinfo_info, as_peer, first_peer}
use wfm.Wnet.Ubus.Convert.Wireless.{
  WifiIface, parse_wifi_ifaces, parse_wireless_status, ifname_of, parse_if_status,
}
use wfm.Wnet.Ubus.Wireless.{Values, Wireless}

pub record Node (W : Type 0) : Type 0 where
  pub endpoint : Endpoint W
  -- The wifi-device for new stations; empty for the first one found.
  pub radio : Text
  pub ranged : List (Text × Json) → W → List (Text × Json)
  pub now : W → ℕ
  pub wait : W → Bool × W
  pub tick : W → W
  pub polls : ℕ

-- A field of the data of a call.
abbrev pub field_of : {A : Type 0} → (name : Text) → (Json → Option A) → Json → Option A
field_of name decode j = elim (as_object j) [ none ↦ none | some ms ↦ decode (field name ms) ]

-- The `device` argument of iwinfo.
abbrev pub device_arg : Text → Json
device_arg device = to_object ((text "device", string device) ∷ [])

abbrev pub wireless_config : Json
wireless_config = to_object ((text "config", string (text "wireless")) ∷ [])

abbrev pub to_values : Values → Json
to_values values = to_object (map (λ (k, v). (k, string v)) values)

abbrev no_args : Json
no_args = to_object []

-- The arguments of a change to a section.
abbrev pub section_args : Text → List (Text × Json) → Json
section_args section more =
    to_object ((text "config", string (text "wireless")) ∷ (text "section", string section) ∷ more)

-- The name of the first wifi-device.
unfoldable pub first_device : List (Text × Json) → Option Text
first_device [] = none
first_device ((name, raw) ∷ values) =
    let later = first_device values in
    elim (field_of (text ".type") as_string raw) [
      | none ↦ later
      | some type ↦ if type == text "wifi-device" then some name else later
    ]

module _ {W : Type 0} (n : Node W) where
  abbrev S : Type 0
  S = State n.endpoint

  -- `iwinfo` of a device, with the BSSID of a client that of its first authorized peer.
  abbrev pub with_peers : Text → IwinfoInfo → Action S IwinfoInfo
  with_peers device out =
      if equal_fold out.mode (text "Client") && is_associated out.bssid
      then (call_for n.endpoint [] (field_of (text "results") (as_list as_peer)) (text "iwinfo")
            (text "assoclist") (device_arg device)
          >>= λ peers. return (record out { bssid = first_peer peers }))
      else return out

  abbrev pub no_info : IwinfoInfo
  no_info = record {
    ssid = [];
    bssid = [];
    mode = [];
    quality = pos 0;
    quality_max = pos 0;
    hw_addr = [];
  }

  unfoldable pub info : Text → Action S IwinfoInfo
  info device = do
    out ←
        call_for n.endpoint no_info as_iwinfo_info (text "iwinfo") (text "info") (device_arg device)
    with_peers device out

  unfoldable pub devices : Action S (List Text)
  devices =
      call_for n.endpoint [] (field_of (text "devices") (as_list as_string)) (text "iwinfo")
        (text "devices") no_args

  unfoldable pub scan_results : Text → Action S (List ScanResult)
  scan_results device =
      call_for n.endpoint [] (field_of (text "results") (as_list as_scan_result)) (text "iwinfo")
        (text "scan") (device_arg device)

  -- The sections of the wireless configuration, in the order of the range.
  unfoldable pub wireless_values : Action S (List (Text × Json))
  wireless_values = do
    values ←
        call_for n.endpoint [] (field_of (text "values") as_object) (text "uci") (text "get")
          wireless_config
    λ (c, w). (ok (n.ranged values w), (c, w))

  unfoldable pub wifi_ifaces : Action S (List WifiIface)
  wifi_ifaces = do values ← wireless_values; return (parse_wifi_ifaces values)

  abbrev pub or_no_device : Option Text → Action S Text
  or_no_device none = fail err_other
  or_no_device (some name) = return name

  unfoldable pub pick_radio : Action S Text
  pick_radio st =
      if n.radio != []
      then (ok n.radio, st)
      else (wireless_values >>= λ values. or_no_device (first_device values)) st

  -- `RawMessage`: an answer without data leaves it empty, which parses as nothing.
  unfoldable pub wireless_status : Action S (Text → Text)
  wireless_status = do
    raw ← call_for n.endpoint null some (text "network.wireless") (text "status") no_args
    λ (c, w). (ok (ifname_of (parse_wireless_status (n.ranged (members_or_none raw) w))), (c, w))

  abbrev pub ip_of : Result (Option Json) × S → (List Text × Text × List Text) × S
  ip_of (ok (some raw), st) = elim (parse_if_status raw) [
    | none ↦ (([], [], []), st)
    | some ip ↦ (ip, st)
  ]
  ip_of (_, st) = (([], [], []), st)

  unfoldable pub if_status : Text → S → (List Text × Text × List Text) × S
  if_status network st =
      if network == []
      then (([], [], []), st)
      else ip_of (
          call_for n.endpoint none (λ j. some (some j)) (text "network.interface." ++ network)
            (text "status") no_args st)

  unfoldable pub uci_add : (name : Text) → Values → Action S (Unit {0})
  uci_add name values = call_unit n.endpoint (text "uci") (text "add") (
      to_object (
        (text "config", string (text "wireless"))
        ∷ (text "type", string (text "wifi-iface"))
        ∷ (text "name", string name)
        ∷ (text "values", to_values values)
        ∷ []))

  unfoldable pub uci_set : (section : Text) → Values → Action S (Unit {0})
  uci_set section values =
      call_unit n.endpoint (text "uci") (text "set")
        (section_args section ((text "values", to_values values) ∷ []))

  unfoldable pub uci_delete : (section : Text) → Action S (Unit {0})
  uci_delete section = call_unit n.endpoint (text "uci") (text "delete") (section_args section [])

  unfoldable pub commit : Action S (Unit {0})
  commit = call_unit n.endpoint (text "uci") (text "commit") wireless_config

  unfoldable pub reload_wifi : Action S (Unit {0})
  reload_wifi = call_unit n.endpoint (text "network") (text "reload") no_args

  unfoldable pub node_wireless : Wireless S
  node_wireless = record {
    wifi_ifaces = wifi_ifaces;
    wireless_status = wireless_status;
    devices = devices;
    info = info;
    scan_results = scan_results;
    if_status = if_status;
    pick_radio = pick_radio;
    uci_add = uci_add;
    uci_set = uci_set;
    uci_delete = uci_delete;
    commit = commit;
    reload_wifi = reload_wifi;
    now = λ (c, w). n.now w;
    wait = λ (c, w). let (more, w') = n.wait w in (more, (c, w'));
    tick = λ (c, w). (c, n.tick w);
    polls = n.polls;
  }
