-- ===== src/Tui/Status.antt =====
-- internal/tui/commands.go: the lookup of the status of an interface. The client's calls `List` and
-- `GetStatus` are parameters.
pub mod Resolving
use wfm.Prelude.{
  ℕ, Bool, true, false, ◌&&◌, List, [], ◌∷◌, Option, none, some, Text, text, text_eq, nat_eq, ◌==◌,
  ◌!=◌, if◌then◌else◌, contains, find,
}
use wfm.Prelude.Int.{ℤ, pos, ltbℤ, int_eq}
use wfm.Server.Messages.{
  AccessPoint, Connection, ConnectionState, connection_state_connected, ConnectionStatus,
}
use wfm.Server.Convert.{Reply, reply, status}
use wfm.Server.Interfaces.{Rpc}
use wfm.Tui.Model.{Msg, iface_status}

-- The getters of the optional fields.
abbrev pub bssid_of : Option Text → Text
bssid_of none = []
bssid_of (some b) = b

abbrev pub signal_of : Option ℤ → ℤ
signal_of none = pos 0
signal_of (some s) = s

abbrev pub empty_ap : AccessPoint
empty_ap = record {
  id = [];
  ssid = [];
  bssid = [];
  signal = pos 0;
  frequency = 0;
  key_management = [];
}

-- The last part of `connectedAP`, on an access point that is there.
unfoldable pub overlaid : AccessPoint → (bssid : Text) (signal : ℤ) → AccessPoint
overlaid ap bssid signal =
    let bssid' = if bssid != [] then bssid else ap.bssid in
    record ap {
      bssid = bssid';
      signal = if ltbℤ (pos 0) signal then signal else ap.signal;
      id = if ap.id == [] then bssid' else ap.id;
    }

unfoldable pub connected_ap : Connection → ConnectionStatus → Option AccessPoint
connected_ap c st =
    let bssid = bssid_of st.bssid in
    let signal = signal_of st.signal in
    elim c.access_point [
      | none ↦
          if bssid == [] && signal == pos 0 then none else some (overlaid empty_ap bssid signal)
      | some ap ↦ some (overlaid ap bssid signal)
    ]

-- The text before the first slash, or all of it.
unfoldable pub before_slash : Text → Text
before_slash [] = []
before_slash (c ∷ s) = if c == b'/' then [] else c ∷ before_slash s

-- The choice of `pickAddr`: the first IPv4 address, or else the first.
unfoldable pub preferred : Text → List Text → Text
preferred pick addrs = elim (find (λ a. contains a (text ".")) addrs) [ none ↦ pick | some a ↦ a ]

unfoldable pub pick_addr : List Text → Text
pick_addr [] = []
pick_addr (a ∷ addrs) = before_slash (preferred a (a ∷ addrs))

abbrev pub is_up : ConnectionState → Bool
is_up connection_state_connected = true
is_up _ = false

module _ {W : Type 0} (list : Text → Rpc W (List Connection))
    (get_status : Text → Rpc W ConnectionStatus) where
  -- The loop of `ifaceStatusCmd`.
  unfoldable pub resolve : Text → List Connection → W → Msg × W
  resolve if_id [] w = (iface_status if_id [] none, w)
  resolve if_id (c ∷ rest) w =
      let (st, w') = get_status c.id w in
      let continue = resolve if_id rest w' in
      elim st [
        | status code ↦ continue
        | reply s ↦
            if is_up s.state
            then (iface_status if_id (pick_addr s.addresses) (connected_ap c s), w')
            else continue
      ]

  abbrev pub resolved_list : Text → Reply (List Connection) × W → Msg × W
  resolved_list if_id (status code, w) = (iface_status if_id [] none, w)
  resolved_list if_id (reply items, w) = resolve if_id items w

  -- The message of the command; its error is left out, since `Update` does not read it.
  unfoldable pub iface_status_msg : Text → W → Msg × W
  iface_status_msg if_id w = resolved_list if_id (list if_id w)
