-- ===== src/Wnet/Ubus/Connections.antt =====
-- internal/wnet/ubus/conn.go: the connections and their activation.
pub mod Reading
pub mod Waiting
pub mod Activating
use wfm.Prelude.{
  ℕ, zero, suc, ◌+◌, Bool, true, false, not, ◌&&◌, ◌||◌, List, [], ◌∷◌, ◌++◌, Option, none, some,
  Text, text, text_eq, ◌==◌, ◌!=◌, ltb, if◌then◌else◌, to_lower,
}
use wfm.Wnet.Types.{Error, err_not_found, err_other, Active}
use wfm.Wnet.Backend.{Result, ok, err, Action, after, ◌>>=◌, return, fail}
use wfm.Wnet.Ubus.Convert.{IwinfoInfo, is_associated}
use wfm.Wnet.Ubus.Convert.Wireless.{WifiIface}
use wfm.Wnet.Ubus.Wireless.{Values, Wireless}
use wfm.Wnet.Ubus.Profiles.{Config, id_of, sta_ifaces, station, find_by_id, set_and_commit}

pub record Runtime : Type 0 where
  pub iface : WifiIface
  pub ifname : Text
  pub network : Text

-- `info.SSID == rt.iface.SSID && isAssociated(info.BSSID)`
abbrev pub is_linked : WifiIface → IwinfoInfo → Bool
is_linked w info = info.ssid == w.ssid && is_associated info.bssid

unfoldable pub active_of : (id ifname : Text) → WifiIface → IwinfoInfo → Active
active_of id ifname w info = record {
  id = id;
  iface = ifname;
  profile_id = id;
  ssid = w.ssid;
  bssid = to_lower info.bssid;
}

abbrev pub activation_values : (bssid : Text) → Values
activation_values bssid = (text "disabled", text "0") ∷ (text "bssid", to_lower bssid) ∷ []

-- The 25 seconds of `Activate` hold at most 52 rounds with waits of half a second.
abbrev pub wait_rounds : ℕ
wait_rounds = 52

abbrev pub is_peer : (cur other : WifiIface) → Bool
is_peer cur other =
    not (other.section == cur.section || other.device != cur.device || other.disabled)

module _ {S : Type 0} (cfg : Config) (r : Wireless S) where
  abbrev pub runtime_of : Option WifiIface → Action S (Option Runtime)
  runtime_of none = return none
  runtime_of (some w) = do
    status ← r.wireless_status
    return (
        some (record {
          iface = w;
          ifname = status w.section;
          network = if w.network == [] then cfg.network else w.network;
        }))

  unfoldable pub runtime_by_id : Text → Action S (Option Runtime)
  runtime_by_id id = find_by_id cfg r id >>= runtime_of

  -- Of the answer on a device that is up.
  abbrev pub linked_or_not_found : Text → Runtime → Result IwinfoInfo × S → Result Active × S
  linked_or_not_found id rt (err e, s) = (err err_not_found, s)
  linked_or_not_found id rt (ok info, s) =
      if is_linked rt.iface info
      then (ok (active_of id rt.ifname rt.iface info), s)
      else (err err_not_found, s)

  abbrev pub connection_of : Text → Option Runtime → Action S Active
  connection_of id none s = (err err_not_found, s)
  connection_of id (some rt) s =
      if rt.iface.disabled || rt.ifname == []
      then (err err_not_found, s)
      else linked_or_not_found id rt (r.info rt.ifname s)

  unfoldable pub connection_by_id : Text → Action S Active
  connection_by_id id = runtime_by_id id >>= connection_of id

  abbrev pub linked_only : Text → WifiIface → Result IwinfoInfo → List Active
  linked_only ifname w (err e) = []
  linked_only ifname w (ok info) =
      if is_linked w info then active_of (id_of cfg w) ifname w info ∷ [] else []

  -- The loop of `Connections`.
  unfoldable pub connections_of : (Text → Text) → List WifiIface → S → List Active × S
  connections_of status [] s = ([], s)
  connections_of status (w ∷ ws) s =
      let ifname = status w.section in
      let (info, s1) = r.info ifname s in
      let (out, s2) = connections_of status ws s1 in
      let skipped = connections_of status ws s in
      if w.disabled || ifname == [] then skipped else (linked_only ifname w info ++ out, s2)

  unfoldable pub ubus_connections : Action S (List Active)
  ubus_connections = do
    stas ← sta_ifaces cfg r
    status ← r.wireless_status
    λ s. let (out, s') = connections_of status stas s in (ok out, s')

  -- The loop of `Activate` over the stations.
  unfoldable pub disable_peers : WifiIface → List WifiIface → Action S (Unit {0})
  disable_peers cur [] = return tt
  disable_peers cur (other ∷ stas) =
      let rest = disable_peers cur stas in
      if is_peer cur other
      then (r.uci_set other.section ((text "disabled", text "1") ∷ []) >>= λ _. rest)
      else rest

  abbrev pub linked_answer : WifiIface → Result IwinfoInfo × S → Bool × S
  linked_answer w (err e, s) = (false, s)
  linked_answer w (ok info, s) = (is_linked w info, s)

  -- Whether the poll of `waitAssociated` finds the station associated.
  abbrev pub linked_now : Option Runtime → S → Bool × S
  linked_now none s = (false, s)
  linked_now (some rt) s =
      if rt.iface.disabled || rt.ifname == []
      then (false, s)
      else linked_answer rt.iface (r.info rt.ifname s)

  abbrev pub poll_of : Result (Option Runtime) × S → Bool × S
  poll_of (err e, s) = (false, s)
  poll_of (ok rt, s) = linked_now rt s

  unfoldable pub poll : Text → S → Bool × S
  poll id s = poll_of (runtime_by_id id s)

  -- One round of `waitAssociated`, where `next` is the loop behind the wait.
  abbrev pub wait_round : (deadline : ℕ) → Action S (Unit {0}) → Bool × S → Result (Unit {0}) × S
  wait_round deadline next (true, s) = (ok tt, s)
  wait_round deadline next (false, s) =
      let (more, s1) = r.wait s in
      if ltb deadline (r.now s)
      then (err err_other, s)
      else if more
      then next s1
      else (err err_other, s1)

  unfoldable pub wait_loop : (rounds : ℕ) → Text → (deadline : ℕ) → Action S (Unit {0})
  wait_loop zero id deadline s = (err err_other, s)
  wait_loop (suc rounds) id deadline s =
      wait_round deadline (wait_loop rounds id deadline) (poll id s)

  unfoldable pub wait_associated : Text → Action S (Unit {0})
  wait_associated id s = wait_loop wait_rounds id (r.now s + 25000) s

  unfoldable pub ubus_activate : (iface profile_id bssid : Text) → Action S Active
  ubus_activate iface profile_id bssid = do
    cur ← station cfg r profile_id
    stas ← sta_ifaces cfg r
    _ ← disable_peers cur stas
    _ ← set_and_commit cfg r cur.section (activation_values bssid)
    _ ← r.reload_wifi
    _ ← wait_associated profile_id
    connection_by_id profile_id

  unfoldable pub ubus_deactivate : Text → Action S (Unit {0})
  ubus_deactivate conn_id = do
    cur ← station cfg r conn_id
    _ ← set_and_commit cfg r cur.section ((text "disabled", text "1") ∷ [])
    r.reload_wifi
