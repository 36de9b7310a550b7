-- ===== src/Wnet/Iwd/Watching.antt =====
-- internal/wnet/iwd/iwd.go: the status of a station, and how it is followed over the signals of
-- iwd. The diagnostics over D-Bus and the kernel are a parameter.
pub mod Following
use wfm.Prelude.{
  ℕ, Bool, true, false, ◌&&◌, ◌||◌, not, List, [], ◌∷◌, ◌++◌, Option, none, some, ◌≡◌, ◌≢◌, ◌⊎◌,
  ◌∙◌, inl, inr, refl, sym, subst, arith, Text, ◌==◌, ◌!=◌, if◌then◌else◌, Bool-cases, append-nil,
}
use wfm.Prelude.Int.{ℤ, pos}
use wfm.Wnet.Types.{
  ConnState, state_idle, state_associating, state_connected, state_failed, conn_state_eq,
  err_c_none, err_c_unknown, Status,
}
use wfm.Wnet.Iwd.Convert.{dbm_to_quality, map_state}
use wfm.Wnet.Iwd.Kernel.{default_gateway, dns_servers}

pub record Station (W : Type 0) : Type 0 where
  -- The BSS and the RSSI that `GetDiagnostics` answers, or its error.
  pub diagnostics : W → Option (Text × Option ℤ) × W
  -- `ifaceAddrs`
  pub addresses : W → List Text
  -- `/proc/net/route` and `/etc/resolv.conf`
  pub routes : W → Option Text
  pub resolv_conf : W → Option Text

abbrev pub bss_of : Option (Text × Option ℤ) → Text
bss_of none = []
bss_of (some (bss, rssi)) = bss

abbrev pub quality_of : Option (Text × Option ℤ) → ℤ
quality_of (some (bss, some rssi)) = dbm_to_quality rssi
quality_of _ = pos 0

abbrev pub plain_status : ConnState → Option (Text × Option ℤ) → Status
plain_status state d = record {
  state = state;
  error = err_c_none;
  detail = [];
  bssid = bss_of d;
  signal = quality_of d;
  addresses = [];
  gateway = [];
  dns = [];
}

-- The rest of `emit` behind `buildStatus`, where a drop back to idle is a failure.
abbrev pub dropped : (saw_associating : Bool) → Status → Status
dropped saw st =
    if st.state == state_idle && saw
    then record st { state = state_failed; error = err_c_unknown }
    else st

abbrev pub ends_watch : ConnState → Bool
ends_watch s = s == state_connected || s == state_failed

abbrev pub is_new : Option ConnState → ConnState → Bool
is_new none s = true
is_new (some last) s = s != last

module _ {W : Type 0} (station : Station W) (iface : Text) where
  unfoldable pub build_status : Text → W → Status × W
  build_status state_str w =
      let (d, w1) = station.diagnostics w in
      let st = plain_status (map_state state_str) d in
      if map_state state_str == state_connected
      then (
        record st {
          addresses = station.addresses w1;
          gateway = default_gateway (station.routes w1) iface;
          dns = dns_servers (station.resolv_conf w1);
        },
        w1,
      )
      else (st, w1)

  -- The calls of `emit` in `Watch`, for the states that the signals tell until the loop sees that the
  -- context is done, each with whether the client takes the status: where it does not, the context
  -- is done at the send.
  unfoldable pub emit_all :
      List (Text × Bool)
      → (saw_associating : Bool) → (last : Option ConnState) → W
      → List Status × W
  emit_all [] saw last w = ([], w)
  emit_all ((state_str, taken) ∷ signals) saw last w =
      let (st0, w1) = build_status state_str w in
      let saw = saw || st0.state == state_associating in
      let st = dropped saw st0 in
      let sent = if taken then st ∷ [] else [] in
      let (skipped, w2) = emit_all signals saw last w1 in
      let (rest, w3) = emit_all signals saw (some st.state) w1 in
      if not (is_new last st.state)
      then (skipped, w2)
      else if ends_watch st.state
      then (sent, w1)
      else (sent ++ rest, w3)
