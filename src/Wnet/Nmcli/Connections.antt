-- ===== src/Wnet/Nmcli/Connections.antt =====
-- internal/wnet/nmcli/backend.go: the operations on connections. An active connection has the UUID
-- of its profile.
use wfm.Prelude.{List, [], ◌∷◌, Option, none, some, Text, text, text_eq, ◌==◌, find}
use wfm.Wnet.Types.{err_not_found, Active}
use wfm.Wnet.Backend.{ok, err, Action, ◌>>=◌, return, fail}
use wfm.Wnet.Nmcli.Host.{Host}
use wfm.Wnet.Nmcli.Scanning.{ListedAp, current_ap}
use wfm.Wnet.Nmcli.Saved.{
  ListedActive, modify_connection, activate_connection, active_wifi_connections,
}

abbrev pub with_ap : ListedActive → Option ListedAp → Active
with_ap a none = record {
  id = a.uuid;
  iface = a.device;
  profile_id = a.uuid;
  ssid = [];
  bssid = [];
}
with_ap a (some ap) = record {
  id = a.uuid;
  iface = a.device;
  profile_id = a.uuid;
  ssid = ap.ssid;
  bssid = ap.bssid;
}

-- The loop over the active connections: the first one of this UUID.
abbrev pub by_uuid : Text → List ListedActive → Option ListedActive
by_uuid id actives = find (λ a. a.uuid == id) actives

module _ {W : Type 0} (h : Host W) where
  unfoldable pub to_active : ListedActive → W → Active × W
  to_active a w = let (ap, w') = current_ap h a.device w in (with_ap a ap, w')

  abbrev pub active_or_not_found : Option ListedActive → Action W Active
  active_or_not_found none w = (err err_not_found, w)
  active_or_not_found (some a) w = let (x, w') = to_active a w in (ok x, w')

  unfoldable pub active_by_uuid : Text → Action W Active
  active_by_uuid id = do
    actives ← active_wifi_connections h
    active_or_not_found (by_uuid id actives)

  unfoldable pub nmcli_activate : Text → Text → Text → Action W Active
  nmcli_activate iface profile_id bssid = do
    _ ← modify_connection h profile_id (text "802-11-wireless.bssid" ∷ bssid ∷ [])
    _ ← activate_connection h profile_id iface (text "60")
    active_by_uuid profile_id

  -- The loop of `Connections`.
  unfoldable pub to_actives : List ListedActive → W → List Active × W
  to_actives [] w = ([], w)
  to_actives (a ∷ actives) w =
      let (x, w1) = to_active a w in let (out, w2) = to_actives actives w1 in (x ∷ out, w2)

  unfoldable pub nmcli_connections : Action W (List Active)
  nmcli_connections = do
    actives ← active_wifi_connections h
    λ w. let (out, w') = to_actives actives w in (ok out, w')

  abbrev pub device_or_not_found : Option ListedActive → Action W Text
  device_or_not_found none = fail err_not_found
  device_or_not_found (some a) = return a.device

  unfoldable pub device_for_active : Text → Action W Text
  device_for_active id = do
    actives ← active_wifi_connections h
    device_or_not_found (by_uuid id actives)
