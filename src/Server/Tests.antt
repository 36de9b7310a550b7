-- ===== src/Server/Tests.antt =====
-- The UUID package, a radio and data for runs of the handlers of internal/server.
mod Handlers
mod Caching
use wfm.Prelude.{
  ℕ, suc, Bool, true, false, List, [], ◌∷◌, ◌+◌, map, Option, none, some, ◌≡◌, ◌≢◌, ◌⊎◌, refl, ap,
  ap₂, sym, ◌∙◌, arith, Text, text, text_eq, nat_eq, length, ◌==◌, if◌then◌else◌, leb,
}
use wfm.Prelude.Int.{pos, to_int32}
use wfm.Wnet.Types.{
  Interface, Ap, Profile, Active, Status, err_not_found, err_unsupported, err_other,
  state_connected, err_c_none, sec_psk, ip_auto, IpConfig, key_sae,
}
use wfm.Wnet.Backend.{ok, Backend, return, fail}
use wfm.Server.Messages.{
  AccessPoint, ProfileAddRequest, ProfilePatchRequest, ConnectionAddRequest, ConnectionStatus,
  InterfaceScan, psk_case, key_management_sae,
}
use wfm.Server.Convert.{
  invalid_argument, not_found, internal, reply, status, UuidLib, IsUuidLib, uuid_to_bytes,
  uuid_from_bytes, pb_ip_config, req_ip_config, pb_security, req_security, pb_access_point,
  pb_key_mgmts, pb_key_mgmt, pb_profile, err_to_status, pb_status, pb_state, pb_conn_error,
  err_to_status_list, pb_interface,
}
use wfm.Server.Interfaces.{interface_list, interface_get, interface_set_power, Rpc}
use wfm.Server.Profiles.{
  profile_get, profile_list, profile_add, profile_patch_rpc, profile_erase, profile_spec,
  profile_patch,
}
use wfm.Server.Connections.{
  connection_list, connection_watch, connection_add, connection_get, connection_erase,
  connection_get_status, pb_connections, pb_connection, connection_ap, send_all,
}
use wfm.Server.ScanCache.{
  ScanCache, new_scan_cache, fresh, find_scan, replace_or_append, put_scan, get, ReadFile, blob,
  not_exist, Storage, load, put,
}
use wfm.Server.ScanCache.Entries.{
  HasDistinctIds, get-put, put-HasDistinctIds, load-served, IsStorage, load-put,
}
use wfm.Server.AccessPoints.{access_point_scan}
use wfm.Server.AccessPoints.Serving.{access_point_scan_twice, access_point_scan_failed}
use wfm.Server.Codes.{
  RejectsIf, IsBadRef, Relays, handlers-RejectsIf, handlers-Relays, lists-Internal,
}
use wfm.Server.Secrets.{redacting, without_passphrase, handlers-redacting, settings_round_trip}
use wfm.Server.Watching.{Delivered, connection_watch-Delivered}

-- A stand-in for the UUID package: the text of 16 bytes is `u` and the bytes.
abbrev after_mark : Text → Option Text
after_mark [] = none
after_mark (c ∷ b) = some b

abbrev pub uuids : UuidLib
uuids = record {
  parse = after_mark;
  from_bytes = λ b. if length b == 16 then some b else none;
  string = λ b. b'u' ∷ b;
}

pub uuids-IsUuidLib : IsUuidLib uuids
uuids-IsUuidLib = record {
  from_bytes_16 = λ b h. ground arith;
  from_bytes_other = λ b h. ground arith;
  string-ne-nil = λ b e. cc;
  parse-string = λ b h. refl;
}

abbrev pub ref : Text
ref = text "0123456789abcdef"

abbrev pub dhcp : IpConfig
dhcp = record { method = ip_auto; addresses = []; gateway = []; dns = []; dns_search = [] }

abbrev pub home : Profile
home = record {
  id = b'u' ∷ ref;
  name = text "home";
  ssid = text "home";
  hidden = false;
  autoconnect = true;
  security = record { kind = sec_psk; passphrase = text "secret" };
  ipv4 = dhcp;
  ipv6 = dhcp;
}

abbrev pub wlan : Interface
wlan = record { name = text "wlan0"; mac = []; pci = []; powered = true; up = true; desc = [] }

abbrev pub connected : Status
connected = record {
  state = state_connected;
  error = err_c_none;
  detail = [];
  bssid = text "aa";
  signal = pos 70;
  addresses = [];
  gateway = [];
  dns = [];
}

abbrev pub radio_ap : Ap
radio_ap = record {
  ssid = text "home";
  bssid = text "aa";
  signal = pos 70;
  freq_mhz = 5180;
  key_mgmt = key_sae ∷ [];
}

abbrev pub active : Active
active = record {
  id = b'u' ∷ ref;
  iface = text "wlan0";
  profile_id = b'u' ∷ ref;
  ssid = text "home";
  bssid = text "aa";
}

-- The world counts the calls that change it.
abbrev pub radio : Backend ℕ
radio = record {
  interfaces = return (wlan ∷ []);
  interface = λ name. return wlan;
  set_power = λ name on w. (ok wlan, suc w);
  scan = λ name w. (ok (radio_ap ∷ []), suc w);
  profiles = return (home ∷ []);
  profile = λ id. return home;
  add_profile = λ spec w. (ok home, suc w);
  patch_profile = λ id patch w. (ok home, suc w);
  delete_profile = λ id. fail err_not_found;
  activate = λ name profile_id bssid w. (ok active, suc w);
  deactivate = λ id. fail err_unsupported;
  connections = return (active ∷ []);
  connection = λ id. return active;
  status = λ id. return connected;
  watch = λ id. return (connected ∷ connected ∷ []);
  close = return tt;
}

pub run : Unit {0}
unfolding uuid_to_bytes uuid_from_bytes err_to_status err_to_status_list pb_key_mgmt pb_key_mgmts
    pb_access_point pb_interface pb_ip_config pb_security pb_profile req_security req_ip_config
    pb_state pb_conn_error pb_status interface_list interface_get interface_set_power profile_spec
    profile_patch profile_list profile_get profile_add profile_patch_rpc profile_erase connection_ap
    pb_connection connection_add connection_get pb_connections connection_list connection_erase
    connection_get_status send_all connection_watch new_scan_cache fresh find_scan replace_or_append
    put_scan get load put access_point_scan text_eq nat_eq to_int32
run = tt
