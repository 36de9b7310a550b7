-- ===== src/Wnet/Nmcli/Watching.antt =====
-- internal/wnet/nmcli/backend.go: the status of a connection, once and followed.
pub mod Following
pub mod Polling
use wfm.Prelude.{
  ℕ, zero, suc, Bool, true, false, ◌||◌, ◌&&◌, ◌-◌, nat_eq, List, [], ◌∷◌, ◌++◌, Option, none, some,
  Text, text, text_eq, ◌==◌, ◌!=◌, if◌then◌else◌, to_lower, contains,
}
use wfm.Prelude.Int.{ℤ, pos, int_eq}
use wfm.Wnet.Types.{
  Error, ConnState, state_unspecified, state_idle, state_associating, state_authenticating,
  state_configuring, state_connected, state_failed, state_disconnecting, conn_state_eq, ConnError,
  err_c_none, err_c_unknown, err_c_auth_failed, Status,
}
use wfm.Wnet.Backend.{Result, ok, err, Action, ◌>>=◌, return}
use wfm.Wnet.Nmcli.Host.{Host}
use wfm.Wnet.Nmcli.Devices.{Device, device_info, device_ip4}
use wfm.Wnet.Nmcli.Scanning.{ListedAp, current_ap}
use wfm.Wnet.Nmcli.Connections.{device_for_active}

unfoldable pub map_state : ℤ → ConnState
map_state code =
    if code == pos 40 || code == pos 50
    then state_associating
    else if code == pos 60
    then state_authenticating
    else if code == pos 70 || code == pos 80 || code == pos 90
    then state_configuring
    else if code == pos 100
    then state_connected
    else if code == pos 110
    then state_disconnecting
    else if code == pos 120
    then state_failed
    else if code == pos 30
    then state_idle
    else state_unspecified

unfoldable pub needs_auth : Device → Bool
needs_auth d = d.state_code == pos 60

unfoldable pub failure : (saw_need_auth : Bool) → (reason : Text) → ConnError
failure saw_need_auth reason =
    if saw_need_auth || contains reason (text "secret") || contains reason (text "auth")
    then err_c_auth_failed
    else err_c_unknown

abbrev pub bssid_of : Option ListedAp → Text
bssid_of none = []
bssid_of (some ap) = ap.bssid

abbrev pub signal_of : Option ListedAp → ℤ
signal_of none = pos 0
signal_of (some ap) = ap.signal

-- The status without what is read for it.
unfoldable pub status_of :
    Device → (saw_need_auth : Bool) → Option ListedAp → (List Text × Text × List Text) → Status
status_of d saw_need_auth ap (addresses, gateway, dns) =
    let state = map_state d.state_code in
    let failed = state == state_failed in
    record {
      state = state;
      error = if failed then failure saw_need_auth (to_lower d.reason) else err_c_none;
      detail = if failed then d.reason else [];
      bssid = bssid_of ap;
      signal = signal_of ap;
      addresses = addresses;
      gateway = gateway;
      dns = dns;
    }

-- The watch ends at this state.
unfoldable pub is_final : ConnState → Bool
is_final s = s == state_connected || s == state_failed

-- `st.State != last`, where there is none before the first status.
unfoldable pub changed : Option ConnState → ConnState → Bool
changed none s = true
changed (some last) s = s != last

-- The send of a status at which the context is done: the client takes no more.
abbrev pub blocked : (sends : ℕ) → Option ConnState → ConnState → Bool
blocked sends last s = changed last s && sends == 0

-- The sends left behind a status.
abbrev pub sends_left : (sends : ℕ) → Option ConnState → ConnState → ℕ
sends_left sends last s = if changed last s then sends - 1 else sends

module _ {W : Type 0} (h : Host W) where
  unfoldable pub status_for_device : Device → Bool → W → Status × W
  status_for_device d saw_need_auth w =
      let (ap, w1) = current_ap h d.name w in
      let (ip, w2) = device_ip4 h d.name w1 in (status_of d saw_need_auth ap ip, w2)

  unfoldable pub nmcli_status : Text → Action W Status
  nmcli_status conn_id = do
    dev ← device_for_active h conn_id
    d ← device_info h dev
    λ w. let (st, w') = status_for_device d (needs_auth d) w in (ok st, w')

  -- One round of the loop of `Watch`; `next` is the loop behind the wait.
  abbrev pub watch_round :
      (next : ℕ → Bool → ConnState → W → List Status × W)
      → (sends : ℕ) → Bool
      → Option ConnState
      → Result Device × W
      → List Status × W
  watch_round next sends saw_need_auth last (err e, w) = ([], w)
  watch_round next sends saw_need_auth last (ok d, w) =
      let saw = saw_need_auth || needs_auth d in
      let (st, w1) = status_for_device d saw w in
      let (rest, w2) = next (sends_left sends last st.state) saw st.state w1 in
      let sent = if changed last st.state then st ∷ [] else [] in
      if blocked sends last st.state
      then ([], w1)
      else if is_final st.state
      then (sent, w1)
      else (sent ++ rest, w2)

  -- The loop of `Watch`, over the waits that pass, and the statuses that are taken, before the
  -- context is done.
  unfoldable pub watch_loop :
      Text → (polls sends : ℕ) → Bool → Option ConnState → W → List Status × W
  watch_loop dev zero sends saw_need_auth last w =
      watch_round (λ left saw state w. ([], w)) sends saw_need_auth last (device_info h dev w)
  watch_loop dev (suc polls) sends saw_need_auth last w =
      watch_round (λ left saw state w. watch_loop dev polls left saw (some state) w) sends
        saw_need_auth last (device_info h dev w)

  unfoldable pub nmcli_watch : Text → Action W (List Status)
  nmcli_watch conn_id = do
    dev ← device_for_active h conn_id
    λ w. let (sts, w') = watch_loop dev h.polls h.sends false none w in (ok sts, w')
