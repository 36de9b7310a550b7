-- ===== src/Server/Connections.antt =====
-- internal/server/connection.go: the handlers.
use wfm.Prelude.{
  ◌&&◌, ◌||◌, List, [], ◌∷◌, Option, none, some, Text, text_eq, ◌==◌, ◌!=◌, if◌then◌else◌,
}
use wfm.Prelude.Int.{pos}
use wfm.Wnet.Types.{Active, Status}
use wfm.Wnet.Backend.{Result, ok, err, Backend}
use wfm.Server.Messages.{AccessPoint, Connection, ConnectionAddRequest, ConnectionStatus}
use wfm.Server.Convert.{
  invalid_argument, Reply, reply, status, UuidLib, uuid_to_bytes, uuid_from_bytes, err_to_status,
  err_to_status_list, pb_interface, pb_profile, pb_status,
}
use wfm.Server.Interfaces.{Rpc, respond}

-- The value of a call whose error only leaves a field unset.
abbrev pub found : {A B : Type 0} → (A → B) → Result A → Option B
found f (ok a) = some (f a)
found f (err e) = none

unfoldable pub connection_ap : Active → Option AccessPoint
connection_ap a =
    if a.ssid != [] || a.bssid != []
    then some (record {
      id = a.bssid;
      ssid = a.ssid;
      bssid = a.bssid;
      signal = pos 0;
      frequency = 0;
      key_management = [];
    })
    else none

-- The BSSID that the request pins the connection to, empty for none.
abbrev pub wanted_bssid : Option Text → Text
wanted_bssid none = []
wanted_bssid (some id) = id

module _ {W : Type 0} (u : UuidLib) (b : Backend W) where
  unfoldable pub pb_connection : Active → W → Connection × W
  pb_connection a w =
      let (it, w1) = b.interface a.iface w in
      let (p, w2) = b.profile a.profile_id w1 in
      (
        record {
          id = uuid_to_bytes u a.id;
          interface = found pb_interface it;
          profile = found (pb_profile u) p;
          access_point = connection_ap a;
        },
        w2,
      )

  -- `if err != nil { return nil, errToStatus(err) }; return s.pbConnection(ctx, a), nil`
  abbrev pub respond_connection : Result Active × W → Reply Connection × W
  respond_connection (ok a, w) = let (c, w') = pb_connection a w in (reply c, w')
  respond_connection (err e, w) = (status (err_to_status e), w)

  unfoldable pub connection_add : ConnectionAddRequest → Rpc W Connection
  connection_add req w =
      let prof = uuid_from_bytes u req.profile_id in
      let bssid = wanted_bssid req.access_point_id in
      if req.interface_id == [] || prof == []
      then (status invalid_argument, w)
      else respond_connection (b.activate req.interface_id prof bssid w)

  unfoldable pub connection_get : Text → Rpc W Connection
  connection_get ref w =
      let id = uuid_from_bytes u ref in
      if id == [] then (status invalid_argument, w) else respond_connection (b.connection id w)

  -- The loop of `List`, over the connections left.
  unfoldable pub pb_connections : Text → List Active → W → List Connection × W
  pb_connections filter [] w = ([], w)
  pb_connections filter (a ∷ actives) w =
      if filter != [] && a.iface != filter
      then pb_connections filter actives w
      else let (c, w1) = pb_connection a w in
        let (rest, w2) = pb_connections filter actives w1 in (c ∷ rest, w2)

  abbrev pub respond_connections : Text → Result (List Active) × W → Reply (List Connection) × W
  respond_connections filter (ok actives, w) =
      let (items, w') = pb_connections filter actives w in (reply items, w')
  respond_connections filter (err e, w) = (status (err_to_status_list e), w)

  unfoldable pub connection_list : Text → Rpc W (List Connection)
  connection_list filter w = respond_connections filter (b.connections w)

  unfoldable pub connection_erase : Text → Rpc W (Unit {0})
  connection_erase ref w =
      let id = uuid_from_bytes u ref in
      if id == []
      then (status invalid_argument, w)
      else respond err_to_status (λ done. tt) (b.deactivate id w)

  unfoldable pub connection_get_status : Text → Rpc W ConnectionStatus
  connection_get_status ref w =
      let id = uuid_from_bytes u ref in
      if id == []
      then (status invalid_argument, w)
      else respond err_to_status pb_status (b.status id w)

  -- The client's stream: `Send` may fail, with a status of its own.
  module _ (send : ConnectionStatus → Rpc W (Unit {0})) where
    -- The loop of `Watch`, over the statuses left on the channel.
    unfoldable pub send_all : List Status → Rpc W (Unit {0})
    send_all [] w = (reply tt, w)
    send_all (st ∷ rest) w =
        let (sent, w') = send (pb_status st) w in
        elim sent [ reply done ↦ send_all rest w' | status code ↦ (status code, w') ]

    abbrev pub stream : Result (List Status) × W → Reply (Unit {0}) × W
    stream (ok statuses, w) = send_all statuses w
    stream (err e, w) = (status (err_to_status e), w)

    unfoldable pub connection_watch : Text → Rpc W (Unit {0})
    connection_watch ref w =
        let id = uuid_from_bytes u ref in
        if id == [] then (status invalid_argument, w) else stream (b.watch id w)
