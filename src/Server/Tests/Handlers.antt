-- ===== src/Server/Tests/Handlers.antt =====
-- Runs of the handlers of internal/server, and their theorems at concrete requests.
use wfm.Prelude.{
  ℕ, suc, true, false, [], ◌∷◌, map, none, some, ◌≡◌, ◌⊎◌, refl, text, text_eq, nat_eq,
  if◌then◌else◌, leb,
}
use wfm.Wnet.Types.{sec_psk}
use wfm.Server.Messages.{
  ProfileAddRequest, ProfilePatchRequest, ConnectionAddRequest, ConnectionStatus, psk_case,
}
use wfm.Server.Convert.{
  invalid_argument, not_found, internal, reply, status, uuid_to_bytes, uuid_from_bytes,
  pb_ip_config, req_ip_config, pb_security, req_security, pb_profile, pb_status,
}
use wfm.Server.Interfaces.{interface_get, interface_set_power, Rpc}
use wfm.Server.Profiles.{
  profile_get, profile_list, profile_add, profile_patch_rpc, profile_erase, profile_spec,
  profile_patch,
}
use wfm.Server.Connections.{
  connection_list, connection_watch, connection_add, connection_get, connection_erase,
  connection_get_status,
}
use wfm.Server.Codes.{RejectsIf, IsBadRef, Relays, handlers-RejectsIf, handlers-Relays}
use wfm.Server.Secrets.{redacting, without_passphrase, handlers-redacting, settings_round_trip}
use wfm.Server.Watching.{Delivered, connection_watch-Delivered}
use wfm.Server.Tests.{uuids, uuids-IsUuidLib, ref, dhcp, home, connected, radio, run}

secret_stays :
    (profile_get uuids radio ref 0).0
    ≡ reply
        (pb_profile uuids (record home { security = record { kind = sec_psk; passphrase = [] } }))
unfolding run
secret_stays = refl

bad_ref : profile_get uuids radio (text "short") 0 ≡ (status invalid_argument, 0)
unfolding run
bad_ref = refl

erase_missing : profile_erase uuids radio ref 0 ≡ (status not_found, 0)
unfolding run
erase_missing = refl

abbrev new_profile : ProfileAddRequest
new_profile = record {
  name = text "home";
  ssid = text "home";
  hidden = false;
  autoconnect = true;
  security = some (psk_case (text "secret"));
  ipv4 = none;
  ipv6 = none;
}

abbrev rename : ProfilePatchRequest
rename = record {
  ref = ref;
  name = some (text "work");
  ssid = none;
  hidden = none;
  autoconnect = none;
  security = none;
  ipv4 = none;
  ipv6 = none;
}

abbrev connect : ConnectionAddRequest
connect = record {
  interface_id = text "wlan0";
  profile_id = ref;
  access_point_id = some (text "aa");
}

handlers-RejectsIf_example :
    RejectsIf (text "wlan0" ≡ []) (interface_get radio (text "wlan0")) 0
    × RejectsIf (text "wlan0" ≡ []) (interface_set_power radio (text "wlan0") true) 0
    × RejectsIf (IsBadRef ref) (profile_get uuids radio ref) 0
    × RejectsIf (text "home" ≡ []) (profile_add uuids radio new_profile) 0
    × RejectsIf (IsBadRef ref) (profile_patch_rpc uuids radio rename) 0
    × RejectsIf (IsBadRef ref) (profile_erase uuids radio ref) 0
    × RejectsIf ((text "wlan0" ≡ []) ⊎ IsBadRef ref) (connection_add uuids radio connect) 0
    × RejectsIf (IsBadRef ref) (connection_get uuids radio ref) 0
    × RejectsIf (IsBadRef ref) (connection_erase uuids radio ref) 0
    × RejectsIf (IsBadRef ref) (connection_get_status uuids radio ref) 0
handlers-RejectsIf_example =
    handlers-RejectsIf uuids uuids-IsUuidLib radio (text "wlan0") ref true new_profile rename
      connect 0

handlers-Relays_example :
    let id = uuid_from_bytes uuids ref in
    Relays (interface_get radio (text "wlan0") 0).0 (radio.interface (text "wlan0") 0).0
    × Relays
        (interface_set_power radio (text "wlan0") true 0).0
        (radio.set_power (text "wlan0") true 0).0
    × Relays (profile_get uuids radio ref 0).0 (radio.profile id 0).0
    × Relays
        (profile_add uuids radio new_profile 0).0
        (radio.add_profile (profile_spec new_profile) 0).0
    × Relays
        (profile_patch_rpc uuids radio rename 0).0
        (radio.patch_profile id (profile_patch rename) 0).0
    × Relays (profile_erase uuids radio ref 0).0 (radio.delete_profile id 0).0
    × Relays (connection_get uuids radio ref 0).0 (radio.connection id 0).0
    × Relays (connection_erase uuids radio ref 0).0 (radio.deactivate id 0).0
    × Relays (connection_get_status uuids radio ref 0).0 (radio.status id 0).0
handlers-Relays_example =
    handlers-Relays uuids uuids-IsUuidLib radio (text "wlan0") ref true new_profile rename 0
      (λ e. cc) refl (λ e. cc) refl

handlers-redacting_example :
    (profile_list uuids (redacting radio) 0 ≡ profile_list uuids radio 0)
    × (profile_get uuids (redacting radio) ref 0 ≡ profile_get uuids radio ref 0)
    × (profile_add uuids (redacting radio) new_profile 0 ≡ profile_add uuids radio new_profile 0)
    × (profile_patch_rpc uuids (redacting radio) rename 0 ≡ profile_patch_rpc uuids radio rename 0)
    × (connection_add uuids (redacting radio) connect 0 ≡ connection_add uuids radio connect 0)
    × (connection_get uuids (redacting radio) ref 0 ≡ connection_get uuids radio ref 0)
    × (connection_list uuids (redacting radio) [] 0 ≡ connection_list uuids radio [] 0)
handlers-redacting_example = handlers-redacting uuids radio ref [] new_profile rename connect 0

settings_round_trip_example :
    (req_ip_config (some (pb_ip_config dhcp)) ≡ some dhcp)
    × (req_security (some (pb_security home.security)) ≡ without_passphrase home.security)
    × (uuid_to_bytes uuids (uuid_from_bytes uuids ref) ≡ ref)
settings_round_trip_example = settings_round_trip uuids uuids-IsUuidLib dhcp home.security ref refl

-- A client that takes one status and then goes away.
abbrev one_then_gone : ConnectionStatus → Rpc ℕ (Unit {0})
one_then_gone st w = if leb 1 w then (status internal, w) else (reply tt, suc w)

connection_watch-Delivered_example :
    Delivered one_then_gone
      (map pb_status (connected ∷ connected ∷ []))
      0
      (connection_watch uuids radio one_then_gone ref 0)
unfolding run
connection_watch-Delivered_example =
    connection_watch-Delivered one_then_gone uuids radio ref (connected ∷ connected ∷ []) 0 0
      (λ e. cc) refl
