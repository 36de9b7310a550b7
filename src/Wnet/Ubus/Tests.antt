-- ===== src/Wnet/Ubus/Tests.antt =====
-- Calls of a node that answers in JSON, and instances of what is proved of them.
mod Stations
use wfm.Prelude.{
  ℕ, suc, ◌+◌, ◌≤◌, Bool, true, false, List, [], ◌∷◌, ◌++◌, map, none, some, ◌≡◌, ◌≢◌, inl, inr,
  refl, sym, ap, subst, arith, Text, text, ◌∙◌, text_eq, nat_eq, ◌==◌, if◌then◌else◌, to_lower,
  lower_byte, trim_space, trim_left, trim_right, is_space, equal_fold, has_prefix, contains,
}
use wfm.Prelude.Int.{pos, negsuc, ◌≤ℤ◌, int_eq}
use wfm.Wnet.Types.{
  sec_psk, sec_enterprise, security_kind_eq, ip_method_eq, conn_state_eq, Profile, ProfileSpec,
  ProfilePatch, Active, state_associating, Status, key_mgmt_eq,
}
use wfm.Wnet.Backend.{ok}
use wfm.Wnet.Ubus.Json.{Json, null, number, string, array, to_items, to_object, field, all_of}
use wfm.Wnet.Ubus.Rpc.{rpc_request, rpc_response, result_of, result_of_error}
use wfm.Wnet.Ubus.Client.{
  Endpoint, Client, status_err, session_of, raw_call, login, session_id, relogin, call,
}
use wfm.Wnet.Ubus.Client.Requests.{call-Sent}
use wfm.Wnet.Ubus.Client.Sessions.{relogin_again}
use wfm.Wnet.Ubus.Convert.{
  ScanResult, is_associated, enc_str_to_sec_kind, ap_from_scan, signal_quality,
}
use wfm.Wnet.Ubus.Convert.Bounds.{IsMethods, ap_from_scan-IsMethods}
use wfm.Wnet.Ubus.Convert.Wireless.{WifiIface, uci_bool, to_profile}
use wfm.Wnet.Ubus.Wireless.{Wireless}
use wfm.Wnet.Ubus.Profiles.{
  Config, reject_unsupported, profile_id, id_of, section_name, station_values, sta_ifaces,
  find_by_id, station, ubus_profile, set_and_commit, write_station, ubus_add_profile,
  ubus_patch_profile,
}
use wfm.Wnet.Ubus.Connections.{
  runtime_by_id, active_of, connection_by_id, disable_peers, poll, wait_loop, wait_associated,
  ubus_activate,
}
use wfm.Wnet.Ubus.Connections.Waiting.{wait_associated-enough}
use wfm.Wnet.Ubus.Watching.{
  is_final, changed, status_in, timed_out, status_for, watch_loop, ubus_watch,
}
use wfm.Wnet.Ubus.Watching.Following.{Follows, ubus_watch-Follows}

runs : Unit {0}
unfolding text_eq nat_eq int_eq to_lower lower_byte trim_space trim_left trim_right is_space
    equal_fold has_prefix contains security_kind_eq ip_method_eq conn_state_eq key_mgmt_eq field
    all_of rpc_request rpc_response result_of result_of_error status_err session_of raw_call login
    session_id relogin call is_associated enc_str_to_sec_kind uci_bool to_profile reject_unsupported
    profile_id id_of section_name station_values sta_ifaces find_by_id station ubus_profile
    set_and_commit write_station ubus_add_profile ubus_patch_profile runtime_by_id active_of
    connection_by_id disable_peers poll wait_loop wait_associated ubus_activate is_final changed
    status_for watch_loop ubus_watch
runs = tt

-- What a node answers a login with, and what it refuses a request with.
abbrev answer : Text → Json
answer session = to_object (
    (
      text "result",
      array (
          to_items
            (number (pos 0) ∷ to_object ((text "ubus_rpc_session", string session) ∷ []) ∷ [])),
    )
    ∷ [])

abbrev denied : Json
denied = to_object (
    (
      text "error",
      to_object (
          (text "code", number (negsuc 32001))
          ∷ (text "message", string (text "Access denied"))
          ∷ []),
    )
    ∷ [])

-- The world is the number of requests: the first is refused.
abbrev renewing : Endpoint ℕ
renewing = record {
  user = text "root";
  pass = text "secret";
  post = λ request w. (some (200, some (if w == 0 then denied else answer (text "b"))), suc w);
}

abbrev stale : Client
stale = record { id = 7; session = text "a" }

called : call renewing (text "uci") (text "get") null (stale, 0) ≡ (
  ok (some (to_object ((text "ubus_rpc_session", string (text "b")) ∷ []))),
  (record { id = 10; session = text "b" }, 3),
)
unfolding runs
called = refl

-- The ids of the requests grow with their number.
call-Sent_example :
    let st = (call renewing (text "uci") (text "get") null (stale, 0)).1 in
    (st.0.id ≡ st.1 + 7) × (st.0.id ≤ 7 + 4)
call-Sent_example =
    call-Sent renewing (text "uci") (text "get") null (λ id w. id ≡ w + 7)
      (λ id j w i request. omega (arith, i)) stale 0 refl

relogin_once :
    relogin renewing (text "a") (stale, 1)
    ≡ (ok (text "b"), (record { id = 8; session = text "b" }, 2))
unfolding runs
relogin_once = refl

relogin_again_example :
    relogin renewing (text "a") (record { id = 8; session = text "b" }, 2)
    ≡ (ok (text "b"), (record { id = 8; session = text "b" }, 2))
relogin_again_example =
    relogin_again renewing (text "a") (text "b") (stale, 1)
      (record { id = 8; session = text "b" }, 2) relogin_once (λ e. ground (arith, e))

abbrev scanned : ScanResult
scanned = record {
  ssid = text "home";
  bssid = text "AA:BB:CC:00:00:01";
  mhz = 2437;
  quality = pos 50;
  quality_max = pos 70;
  encryption = record { enabled = true; authentication = text "PSK" ∷ text "sae" ∷ [] };
}

scans : (ap_from_scan scanned).signal ≡ pos 71
unfolding ap_from_scan signal_quality
scans = refl

ap_from_scan-IsMethods_example :
    ((pos 0 ≤ℤ (ap_from_scan scanned).signal) × ((ap_from_scan scanned).signal ≤ℤ pos 100))
    × IsMethods scanned.encryption (ap_from_scan scanned).key_mgmt
ap_from_scan-IsMethods_example = ap_from_scan-IsMethods scanned
