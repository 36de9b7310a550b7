-- ===== src/Wnet/Ubus/Watching.antt =====
-- internal/wnet/ubus/conn.go: the status of a connection, once and followed.
pub mod Following
use wfm.Prelude.{
  ℕ, zero, suc, ◌+◌, Bool, true, false, not, ◌&&◌, ◌||◌, List, [], ◌∷◌, ◌++◌, Option, none, some,
  Text, text, text_eq, ◌==◌, ◌!=◌, ltb, if◌then◌else◌, to_lower,
}
use wfm.Prelude.Int.{pos}
use wfm.Wnet.Types.{
  Error, err_not_found, ConnState, state_idle, state_associating, state_connected, state_failed,
  conn_state_eq, err_c_none, err_c_unknown, Status,
}
use wfm.Wnet.Backend.{Result, ok, err, Action, after, ◌>>=◌, return}
use wfm.Wnet.Ubus.Convert.{IwinfoInfo, signal_quality}
use wfm.Wnet.Ubus.Wireless.{Wireless}
use wfm.Wnet.Ubus.Profiles.{Config, found_or_fail}
use wfm.Wnet.Ubus.Connections.{Runtime, is_linked, runtime_by_id}

abbrev pub status_in : ConnState → Status
status_in state = record {
  state = state;
  error = err_c_none;
  detail = [];
  bssid = [];
  signal = pos 0;
  addresses = [];
  gateway = [];
  dns = [];
}

abbrev pub linked_status : IwinfoInfo → (List Text × Text × List Text) → Status
linked_status info (addresses, gateway, dns) = record {
  state = state_connected;
  error = err_c_none;
  detail = [];
  bssid = to_lower info.bssid;
  signal = signal_quality info.quality info.quality_max;
  addresses = addresses;
  gateway = gateway;
  dns = dns;
}

abbrev pub timed_out : Status
timed_out = record (status_in state_failed) {
  error = err_c_unknown;
  detail = text "association timed out";
}

-- The watch ends at this state.
unfoldable pub is_final : ConnState → Bool
is_final s = s == state_connected || s == state_failed

-- `st.State != last`, where there is none before the first status.
unfoldable pub changed : Option ConnState → ConnState → Bool
changed none s = true
changed (some last) s = s != last

-- The status of a round, which has failed behind the deadline unless it is connected.
abbrev pub unless_late : (late : Bool) → Status → Status
unless_late late st = if st.state != state_connected && late then timed_out else st

module _ {S : Type 0} (cfg : Config) (r : Wireless S) where
  -- Of the answer on a device that is up, for a station that is enabled.
  abbrev pub info_status : Runtime → Result IwinfoInfo × S → Status × S
  info_status rt (err e, s) = (status_in state_idle, s)
  info_status rt (ok info, s) =
      let (ip, s1) = r.if_status rt.network s in
      if is_linked rt.iface info
      then (linked_status info ip, s1)
      else (status_in state_associating, s)

  unfoldable pub status_for : Runtime → S → Status × S
  status_for rt s =
      if rt.iface.disabled
      then (status_in state_idle, s)
      else if rt.ifname == []
      then (status_in state_associating, s)
      else info_status rt (r.info rt.ifname s)

  unfoldable pub ubus_status : Text → Action S Status
  ubus_status conn_id = do
    found ← runtime_by_id cfg r conn_id
    rt ← found_or_fail found
    λ s. let (st, s') = status_for rt s in (ok st, s')

  -- One round of the loop of `Watch`; `next` is the loop behind the tick.
  abbrev pub watch_round :
      (next : ConnState → S → List Status × S)
      → (deadline : ℕ) → Option ConnState
      → Result (Option Runtime) × S
      → List Status × S
  watch_round next deadline last (err e, s) = ([], s)
  watch_round next deadline last (ok none, s) = ([], s)
  watch_round next deadline last (ok (some rt), s) =
      let (read, s1) = status_for rt s in
      let st = unless_late (ltb deadline (r.now s1)) read in
      let (rest, s2) = next st.state s1 in
      let sent = if changed last st.state then st ∷ [] else [] in
      if is_final st.state then (sent, s1) else (sent ++ rest, s2)

  -- The loop of `Watch`, over the ticks that it gets before its context is done.
  unfoldable pub watch_loop : Text → (deadline : ℕ) → ℕ → Option ConnState → S → List Status × S
  watch_loop conn_id deadline zero last s =
      watch_round (λ state s. ([], s)) deadline last (runtime_by_id cfg r conn_id s)
  watch_loop conn_id deadline (suc ticks) last s =
      watch_round (λ state s. watch_loop conn_id deadline ticks (some state) (r.tick s)) deadline
        last (runtime_by_id cfg r conn_id s)

  unfoldable pub ubus_watch : Text → Action S (List Status)
  ubus_watch conn_id = do
    found ← runtime_by_id cfg r conn_id
    _ ← found_or_fail found
    λ s. let (sts, s') = watch_loop conn_id (r.now s + 30000) r.polls none s in (ok sts, s')
