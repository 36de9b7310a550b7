-- ===== src/Wnet/Ubus/Tests/Stations.antt =====
-- Runs of the ubus backend over a node in memory, and instances of what is proved of it.
use wfm.Prelude.{
  if◌then◌else◌, some, ◌==◌, ℕ, ◌+◌, Bool, true, false, List, [], ◌∷◌, ◌++◌, map, none, ◌≡◌, refl,
  arith, Text, text, text_eq, nat_eq, to_lower, lower_byte, trim_space, trim_left, trim_right,
  is_space, equal_fold, has_prefix, contains,
}
use wfm.Prelude.Int.{pos, int_eq}
use wfm.Wnet.Types.{
  sec_psk, security_kind_eq, ip_method_eq, conn_state_eq, Profile, ProfileSpec, ProfilePatch,
  Active, state_associating, Status, key_mgmt_eq,
}
use wfm.Wnet.Backend.{ok}
use wfm.Wnet.Ubus.Json.{string, field, all_of}
use wfm.Wnet.Ubus.Rpc.{rpc_request, rpc_response, result_of, result_of_error}
use wfm.Wnet.Ubus.Client.{status_err, session_of, raw_call, login, session_id, relogin, call}
use wfm.Wnet.Ubus.Convert.{is_associated, enc_str_to_sec_kind}
use wfm.Wnet.Ubus.Convert.Wireless.{WifiIface, uci_bool, to_profile}
use wfm.Wnet.Ubus.Wireless.{Values, Wireless}
use wfm.Wnet.Ubus.Profiles.{
  Config, reject_unsupported, profile_id, id_of, section_name, station_values, sta_ifaces,
  find_by_id, station, ubus_profile, set_and_commit, write_station, ubus_add_profile,
  ubus_patch_profile,
}
use wfm.Wnet.Ubus.Connections.{
  runtime_by_id, active_of, connection_by_id, disable_peers, poll, wait_loop, wait_associated,
  ubus_activate,
}
use wfm.Wnet.Ubus.Connections.Waiting.{IsTimed, wait_associated-enough}
use wfm.Wnet.Ubus.Connections.Activating.{IsActivated, ubus_activate-IsActivated}
use wfm.Wnet.Ubus.Watching.{
  is_final, changed, status_in, timed_out, status_for, watch_loop, ubus_watch,
}
use wfm.Wnet.Ubus.Watching.Following.{Follows, ubus_watch-Follows}

runs : Unit {0}
unfolding text_eq nat_eq int_eq to_lower lower_byte trim_space trim_left trim_right is_space
    equal_fold has_prefix contains security_kind_eq ip_method_eq conn_state_eq key_mgmt_eq field
    all_of rpc_request rpc_response result_of result_of_error status_err session_of raw_call login
    session_id relogin call is_associated enc_str_to_sec_kind uci_bool to_profile reject_unsupported
    profile_id id_of section_name station_values sta_ifaces find_by_id station ubus_profile
    set_and_commit write_station ubus_add_profile ubus_patch_profile runtime_by_id active_of
    connection_by_id disable_peers poll wait_loop wait_associated ubus_activate is_final changed
    status_for watch_loop ubus_watch
runs = tt

-- A section with an option set.
abbrev with_value : (option value : Text) → WifiIface → WifiIface
with_value option value w =
    if option == text "device"
    then record w { device = value }
    else if option == text "mode"
    then record w { mode = value }
    else if option == text "ssid"
    then record w { ssid = value }
    else if option == text "encryption"
    then record w { encryption = value }
    else if option == text "key"
    then record w { key = value }
    else if option == text "network"
    then record w { network = value }
    else if option == text "bssid"
    then record w { bssid = value }
    else if option == text "disabled"
    then record w { disabled = uci_bool (string value) }
    else w

abbrev with_values : Values → WifiIface → WifiIface
with_values [] w = w
with_values ((option, value) ∷ values) w = with_values values (with_value option value w)

-- `uci set` on the section of a name.
abbrev set_in : (section : Text) → Values → WifiIface → WifiIface
set_in section values w = if w.section == section then with_values values w else w

-- The section that `uci add` makes of a name and values.
abbrev new_section : (name : Text) → Values → WifiIface
new_section name values = with_values values (record {
  section = name;
  device = [];
  mode = [];
  ssid = [];
  encryption = [];
  key = [];
  network = [];
  bssid = [];
  disabled = false;
})

-- A node in memory, with the sections of its configuration and a clock.
abbrev Store : Type 0
Store = List WifiIface × ℕ

abbrev memory : Wireless Store
memory = record {
  wifi_ifaces = λ (ws, t). (ok ws, (ws, t));
  wireless_status = λ s. (ok (λ section. text "phy0-sta0"), s);
  devices = λ s. (ok (text "phy0-sta0" ∷ []), s);
  info = λ device s. (
    ok (record {
      ssid = text "home";
      bssid = text "AA:BB:CC:00:00:01";
      mode = text "Client";
      quality = pos 49;
      quality_max = pos 70;
      hw_addr = text "AA:BB:CC:00:00:02";
    }),
    s,
  );
  scan_results = λ device s. (ok [], s);
  if_status = λ network s. ((text "192.168.1.7/24" ∷ [], text "192.168.1.1", []), s);
  pick_radio = λ s. (ok (text "radio0"), s);
  uci_add = λ name values (ws, t). (ok tt, (new_section name values ∷ ws, t));
  uci_set = λ section values (ws, t). (ok tt, (map (set_in section values) ws, t));
  uci_delete = λ section s. (ok tt, s);
  commit = λ s. (ok tt, s);
  reload_wifi = λ s. (ok tt, s);
  now = λ (ws, t). t;
  wait = λ (ws, t). (true, (ws, t + 500));
  tick = λ (ws, t). (ws, t + 500);
  polls = 3;
}

memory-IsTimed : IsTimed memory
memory-IsTimed = record {
  list_later = λ s. omega arith;
  status_later = λ s. omega arith;
  info_later = λ device s. omega arith;
  wait_later = λ s. omega arith;
}

abbrev config : Config
config = record {
  network = text "wwan";
  derive_id = λ ssid type. ssid ++ b'/' ∷ type;
  short_sha1 = λ s. text "000000000000";
}

abbrev sta : (section ssid : Text) → (disabled : Bool) → WifiIface
sta section ssid disabled = record {
  section = section;
  device = text "radio0";
  mode = text "sta";
  ssid = ssid;
  encryption = text "sae";
  key = text "12345678";
  network = text "wwan";
  bssid = [];
  disabled = disabled;
}

abbrev two : List WifiIface
two = sta (text "s0") (text "cafe") false ∷ sta (text "s1") (text "home") true ∷ []

abbrev home : Text
home = text "home/psk"

abbrev home_active : Active
home_active = record {
  id = home;
  iface = text "phy0-sta0";
  profile_id = home;
  ssid = text "home";
  bssid = text "aa:bb:cc:00:00:01";
}

abbrev switched : List WifiIface
switched = sta (text "s0") (text "cafe") true ∷ sta (text "s1") (text "home") false ∷ []

activates :
    ubus_activate config memory (text "wlan0") home [] (two, 0) ≡ (ok home_active, (switched, 0))
unfolding runs
activates = refl

ubus_activate-IsActivated_example :
    IsActivated config memory home [] home_active (two, 0) (switched, 0)
ubus_activate-IsActivated_example =
    ubus_activate-IsActivated config memory (text "wlan0") home [] (two, 0) (switched, 0)
      home_active activates

wait_associated-enough_example :
    wait_loop config memory 60 (text "none") (0 + 25000) (two, 0)
    ≡ wait_associated config memory (text "none") (two, 0)
wait_associated-enough_example =
    wait_associated-enough config memory memory-IsTimed 60 (text "none") (two, 0) (omega arith)

abbrev no_patch : ProfilePatch
no_patch = record {
  name = none;
  ssid = none;
  hidden = none;
  autoconnect = none;
  security = none;
  ipv4 = none;
  ipv6 = none;
}

abbrev turned_on : ProfilePatch
turned_on = record no_patch { autoconnect = some true }

-- The encryption of the station was `sae`.
abbrev patched : List WifiIface
patched =
    sta (text "s0") (text "cafe") false
    ∷ record (sta (text "s1") (text "home") false) { encryption = text "psk2" }
    ∷ []

abbrev home_profile : Profile
home_profile = to_profile config.derive_id (sta (text "s1") (text "home") false)

abbrev lab : ProfileSpec
lab = record {
  name = [];
  ssid = text "lab";
  hidden = false;
  autoconnect = true;
  security = record { kind = sec_psk; passphrase = text "abcdefgh" };
  ipv4 = none;
  ipv6 = none;
}

abbrev lab_station : WifiIface
lab_station = record {
  section = text "wfm_000000000000";
  device = text "radio0";
  mode = text "sta";
  ssid = text "lab";
  encryption = text "psk2";
  key = text "abcdefgh";
  network = text "wwan";
  bssid = [];
  disabled = false;
}

abbrev lab_profile : Profile
lab_profile = to_profile config.derive_id lab_station

-- A device that has no link: the watch gives up behind 30 seconds, of which each tick here takes 11.
abbrev unlinked : Wireless Store
unlinked = record memory {
  wireless_status = λ s. (ok (λ section. []), s);
  tick = λ (ws, t). (ws, t + 11000);
}

abbrev gave_up : List Status
gave_up = status_in state_associating ∷ timed_out ∷ []

watches : ubus_watch config unlinked home (switched, 0) ≡ (ok gave_up, (switched, 33000))
unfolding runs
watches = refl

ubus_watch-Follows_example : Follows none gave_up
ubus_watch-Follows_example =
    ubus_watch-Follows config unlinked home (switched, 0) (switched, 33000) gave_up watches
