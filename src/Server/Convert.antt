-- ===== src/Server/Convert.antt =====
-- internal/server/conv.go and the mappings of the other files of internal/server between the
-- domain and the messages. `github.com/google/uuid` is a parameter.
use wfm.Prelude.{
  List, [], map, Option, none, some, ◌≡◌, ◌≢◌, Text, text_eq, ◌!=◌, if◌then◌else◌, length,
}
use wfm.Prelude.Int.{to_int32}
use wfm.Wnet.Types.{
  Error, err_not_found, err_unsupported, err_other, KeyMgmt, key_none, key_wpa_psk, key_sae,
  key_wpa_eap, key_owe, Security, sec_open, sec_psk, sec_enterprise, IpConfig, ip_unspecified,
  ip_auto, ip_manual, ip_disabled, Interface, Ap, Profile, ConnState, state_unspecified, state_idle,
  state_associating, state_authenticating, state_configuring, state_connected, state_failed,
  state_disconnecting, ConnError, err_c_none, err_c_unknown, err_c_auth_failed, Status,
}
use wfm.Server.Messages.{
  KeyManagement, key_management_none, key_management_wpa_psk, key_management_sae,
  key_management_wpa_eap, key_management_owe, AccessPoint, PbInterface, method_unspecified,
  method_auto, method_manual, method_disabled, PbIpConfig, PbSecurity, open_case, enterprise_case,
  psk_case, PbProfile, ConnectionState, connection_state_unspecified, connection_state_idle,
  connection_state_associating, connection_state_authenticating, connection_state_configuring,
  connection_state_connected, connection_state_failed, connection_state_disconnecting,
  ConnectionError, connection_error_none, connection_error_unknown, connection_error_auth_failed,
  ConnectionStatus,
}

-- The gRPC status codes that the server answers with.
pub data Code : Type 0 where
  invalid_argument not_found unimplemented internal : Code

-- What a handler returns.
pub data Reply {ℓ} (A : Type ℓ) : Type ℓ where
  reply : A → Reply A
  status : Code → Reply A

pub record UuidLib : Type 0 where
  -- The 16 bytes of a textual UUID.
  pub parse : Text → Option Text
  -- A UUID of 16 bytes, unchanged; fails on another length.
  pub from_bytes : Text → Option Text
  -- The canonical text of 16 bytes.
  pub string : Text → Text

-- What the package documents.
pub record IsUuidLib (u : UuidLib) : Type 0 where
  pub from_bytes_16 : (b : Text) → length b ≡ 16 → u.from_bytes b ≡ some b
  pub from_bytes_other : (b : Text) → length b ≢ 16 → u.from_bytes b ≡ none
  pub string-ne-nil : (b : Text) → u.string b ≢ []
  pub parse-string : (b : Text) → length b ≡ 16 → u.parse (u.string b) ≡ some b

module _ (u : UuidLib) where
  unfoldable pub uuid_to_bytes : Text → Text
  uuid_to_bytes s = elim (u.parse s) [ none ↦ [] | some b ↦ b ]

  unfoldable pub uuid_from_bytes : Text → Text
  uuid_from_bytes b = elim (u.from_bytes b) [ none ↦ [] | some c ↦ u.string c ]

unfoldable pub err_to_status : Error → Code
err_to_status err_not_found = not_found
err_to_status err_unsupported = unimplemented
err_to_status err_other = internal

unfoldable pub err_to_status_list : Error → Code
err_to_status_list e = internal

unfoldable pub pb_key_mgmt : KeyMgmt → KeyManagement
pb_key_mgmt key_wpa_psk = key_management_wpa_psk
pb_key_mgmt key_sae = key_management_sae
pb_key_mgmt key_wpa_eap = key_management_wpa_eap
pb_key_mgmt key_owe = key_management_owe
pb_key_mgmt key_none = key_management_none

unfoldable pub pb_key_mgmts : List KeyMgmt → List KeyManagement
pb_key_mgmts ks = map pb_key_mgmt ks

unfoldable pub pb_access_point : Ap → AccessPoint
pb_access_point ap = record {
  id = ap.bssid;
  ssid = ap.ssid;
  bssid = ap.bssid;
  signal = to_int32 ap.signal;
  frequency = ap.freq_mhz;
  key_management = pb_key_mgmts ap.key_mgmt;
}

unfoldable pub pb_interface : Interface → PbInterface
pb_interface it = record {
  id = it.name;
  name = it.name;
  desc = it.desc;
  mac = it.mac;
  powered = it.powered;
  up = it.up;
}

unfoldable pub pb_ip_config : IpConfig → PbIpConfig
pb_ip_config c = record {
  method = elim c.method [
    | ip_auto ↦ method_auto
    | ip_manual ↦ method_manual
    | ip_disabled ↦ method_disabled
    | _ ↦ method_unspecified
  ];
  addresses = c.addresses;
  gateway = c.gateway;
  dns = c.dns;
  dns_search = c.dns_search;
}

-- The passphrase is not read back.
unfoldable pub pb_security : Security → PbSecurity
pb_security s = elim s.kind [
  | sec_enterprise ↦ enterprise_case
  | sec_psk ↦ psk_case []
  | _ ↦ open_case
]

unfoldable pub pb_profile : UuidLib → Profile → PbProfile
pb_profile u p = record {
  id = uuid_to_bytes u p.id;
  name = p.name;
  ssid = p.ssid;
  hidden = p.hidden;
  autoconnect = p.autoconnect;
  security = pb_security p.security;
  ipv4 = pb_ip_config p.ipv4;
  ipv6 = pb_ip_config p.ipv6;
}

unfoldable pub req_security : Option PbSecurity → Security
req_security none = record { kind = sec_open; passphrase = [] }
req_security (some (psk_case passphrase)) = record { kind = sec_psk; passphrase = passphrase }
req_security (some enterprise_case) = record { kind = sec_enterprise; passphrase = [] }
req_security (some _) = record { kind = sec_open; passphrase = [] }

unfoldable pub req_ip_config : Option PbIpConfig → Option IpConfig
req_ip_config none = none
req_ip_config (some c) = some (record {
  method = elim c.method [
    | method_auto ↦ ip_auto
    | method_manual ↦ ip_manual
    | method_disabled ↦ ip_disabled
    | _ ↦ ip_unspecified
  ];
  addresses = c.addresses;
  gateway = c.gateway;
  dns = c.dns;
  dns_search = c.dns_search;
})

unfoldable pub pb_state : ConnState → ConnectionState
pb_state state_idle = connection_state_idle
pb_state state_associating = connection_state_associating
pb_state state_authenticating = connection_state_authenticating
pb_state state_configuring = connection_state_configuring
pb_state state_connected = connection_state_connected
pb_state state_failed = connection_state_failed
pb_state state_disconnecting = connection_state_disconnecting
pb_state state_unspecified = connection_state_unspecified

unfoldable pub pb_conn_error : ConnError → ConnectionError
pb_conn_error err_c_auth_failed = connection_error_auth_failed
pb_conn_error err_c_unknown = connection_error_unknown
pb_conn_error err_c_none = connection_error_none

unfoldable pub pb_status : Status → ConnectionStatus
pb_status st = record {
  state = pb_state st.state;
  error = pb_conn_error st.error;
  detail = if st.detail != [] then some st.detail else none;
  bssid = if st.bssid != [] then some st.bssid else none;
  signal = if st.bssid != [] then some (to_int32 st.signal) else none;
  addresses = st.addresses;
  gateway = st.gateway;
  dns = st.dns;
}
