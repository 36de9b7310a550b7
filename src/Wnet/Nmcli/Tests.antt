-- ===== src/Wnet/Nmcli/Tests.antt =====
-- Runs of the nmcli backend on a machine with one station, and instances of what is proved of it.
use wfm.Prelude.{
  ℕ, suc, Bool, true, false, List, [], ◌∷◌, ◌++◌, none, some, ◌≡◌, inl, inr, refl, Text, text,
  text_eq, nat_eq, ◌==◌, ltb, if◌then◌else◌, any, trim_left, trim_right, trim_space, is_space,
  has_prefix, has_suffix, join, contains, to_lower, lower_byte, to_upper, upper_byte, arith,
}
use wfm.Prelude.Int.{pos, int_eq}
use wfm.Prelude.Splitting.{
  split_if, split_on, fields, drop_cr, drop_last_empty, lines, cut, trim_suffix, atoi?, atoi_value,
  digits, number,
}
use wfm.Wnet.Types.{
  IpConfig, ip_manual, ip_auto, ConnState, ConnError, state_authenticating, state_failed,
  conn_state_eq, err_c_none, err_c_auth_failed, Status, key_wpa_psk, key_sae, key_none, key_mgmt_eq,
}
use wfm.Wnet.Backend.{ok}
use wfm.Wnet.Nmcli.Host.{Host, run, run_nmcli}
use wfm.Wnet.Nmcli.Terse.{
  split_terse, parse_detail, detail_pairs, detail_get, detail_prefix, state_code,
}
use wfm.Wnet.Nmcli.Terse.RoundTrip.{row, split_terse-row}
use wfm.Wnet.Nmcli.Devices.{device_fields, device_info, device_of, device_ip4, link_up}
use wfm.Wnet.Nmcli.Scanning.{
  listed_aps, parse_ap_list, count_scannable, list_aps, scan_loop, scan, current_ap, parse_key_mgmt,
  key_mgmts_of,
}
use wfm.Wnet.Nmcli.Scanning.Attempts.{Scanned, scan-Scanned}
use wfm.Wnet.Nmcli.Saved.{active_wifi_connections, listed_actives}
use wfm.Wnet.Nmcli.Settings.{ip_config_from_detail, ip_args}
use wfm.Wnet.Nmcli.Settings.RoundTrip.{pairs_of}
use wfm.Wnet.Nmcli.Settings.Families.{config, IsWritable, ip_config-args}
use wfm.Wnet.Nmcli.Connections.{device_for_active}
use wfm.Wnet.Nmcli.Watching.{
  map_state, needs_auth, failure, status_of, is_final, changed, status_for_device, watch_loop,
  nmcli_watch,
}
use wfm.Wnet.Nmcli.Watching.Polling.{IsPolled, nmcli_watch-IsPolled}
use wfm.Wnet.Nmcli.Watching.Following.{Follows, nmcli_watch-Follows}

runs : Unit {0}
unfolding trim_left trim_right trim_space is_space text_eq nat_eq has_prefix has_suffix join
    contains to_lower lower_byte to_upper upper_byte int_eq split_if split_on fields drop_cr
    drop_last_empty lines cut trim_suffix atoi? atoi_value digits number run_nmcli split_terse
    parse_detail detail_pairs detail_get detail_prefix state_code device_info device_of device_ip4
    link_up listed_aps parse_ap_list count_scannable list_aps scan_loop scan current_ap
    active_wifi_connections listed_actives device_for_active map_state needs_auth failure status_of
    is_final changed status_for_device watch_loop nmcli_watch conn_state_eq run parse_key_mgmt
    key_mgmts_of key_mgmt_eq
runs = tt

split_terse-row_example :
    split_terse (row (text "a:b" ∷ [] ∷ text "c\\" ∷ [])) ≡ text "a:b" ∷ [] ∷ text "c\\" ∷ []
split_terse-row_example = split_terse-row (text "a:b") ([] ∷ text "c\\" ∷ [])

abbrev lan : IpConfig
lan =
    config ip_manual (text "10.0.0.2/24" ∷ text "10.0.0.3/24" ∷ []) (text "10.0.0.1")
      (text "1.1.1.1" ∷ []) []

abbrev automatic : IpConfig
automatic = config ip_auto [] [] [] []

lan-IsWritable : IsWritable lan
unfolding runs
lan-IsWritable = (
  ((ground arith, refl, ground arith), ((ground arith, refl, ground arith), tt)),
  ((ground arith, refl, ground arith), tt),
  tt,
  inl refl,
)

automatic-IsWritable : IsWritable automatic
automatic-IsWritable = (tt, tt, tt, inr (inl refl, refl, refl, refl, refl))

ip_config-args_example :
    (ip_config_from_detail
        (pairs_of (ip_args (text "ipv4") (some lan) ++ ip_args (text "ipv6") (some automatic)))
        (text "ipv4")
      ≡ lan)
    × (ip_config_from_detail
          (pairs_of (ip_args (text "ipv4") (some lan) ++ ip_args (text "ipv6") (some automatic)))
          (text "ipv6")
        ≡ automatic)
unfolding runs
ip_config-args_example = ip_config-args lan automatic lan-IsWritable automatic-IsWritable

-- The lines of an output.
abbrev output_of : List Text → Text
output_of [] = []
output_of (line ∷ rest) = line ++ b'\n' ∷ output_of rest

-- The machine counts the commands run: its first lists show only the access point in use, and the
-- connection fails behind its authentication.
abbrev has : Text → List Text → Bool
has word args = any (λ a. a == word) args

abbrev answer : List Text → ℕ → Text
answer args w =
    if has (text "list") args
    then output_of (
        text "*:net:AA\\:01:6:2437 MHz:60:WPA2"
        ∷ (if ltb w 3 then [] else text " :far:AA\\:02:1:2412 MHz:30:WPA2 WPA3" ∷ []))
    else if has (text "--active") args
    then output_of
        (text "home:11111111-2222-3333-4444-555555555555:wlan0:802-11-wireless:activated" ∷ [])
    else if has device_fields args
    then output_of (
        text "GENERAL.DEVICE:wlan0"
        ∷ (if ltb w 8
            then text "GENERAL.STATE:60 (need authentication)"
            else text "GENERAL.STATE:120 (failed)")
        ∷ [])
    else []

abbrev machine : Host ℕ
machine = record {
  exec = λ name args w. (some (answer args w), suc w);
  sleep = λ w. (true, w);
  readlink = λ w path. none;
  polls = 5;
  sends = 4;
}

scanned : (scan machine (text "wlan0") 0).1 ≡ 4
unfolding runs
scanned = refl

scan-Scanned_example : Scanned machine (text "wlan0") 0 (scan machine (text "wlan0") 0)
scan-Scanned_example = scan-Scanned machine (text "wlan0") 0

abbrev home : Text
home = text "11111111-2222-3333-4444-555555555555"

abbrev seen : ConnState → ConnError → Status
seen state error = record {
  state = state;
  error = error;
  detail = [];
  bssid = text "AA:01";
  signal = pos 60;
  addresses = [];
  gateway = [];
  dns = [];
}

abbrev followed : List Status
followed = seen state_authenticating err_c_none ∷ seen state_failed err_c_auth_failed ∷ []

watched : nmcli_watch machine home 0 ≡ (ok followed, 13)
unfolding runs
watched = refl

nmcli_watch-Follows_example : Follows none false followed
nmcli_watch-Follows_example = nmcli_watch-Follows machine home 0 13 followed watched

key_mgmt_tests :
    (parse_key_mgmt (text "wpa2 WPA3 ") ≡ key_sae ∷ key_wpa_psk ∷ [])
    × (parse_key_mgmt (text " ") ≡ key_none ∷ [])
    × (parse_key_mgmt (text "WEP") ≡ key_wpa_psk ∷ [])
unfolding runs
key_mgmt_tests = (refl, refl, refl)

nmcli_watch-IsPolled_example : IsPolled machine home 0 followed
nmcli_watch-IsPolled_example = nmcli_watch-IsPolled machine home 0 13 followed watched
