-- ===== src/Server/Messages.antt =====
-- internal/wifi (generated from proto/wifi): the messages, by the fields that the server and the
-- terminal interface read and set. A field with presence is an `Option`; where the code only calls
-- the getter, an absent field is the zero value, as the getter gives it.
use wfm.Prelude.{ℕ, Bool, Option, List, Text}
use wfm.Prelude.Int.{ℤ}

pub data KeyManagement : Type 0 where
  key_management_none key_management_wpa_psk key_management_sae : KeyManagement
  key_management_wpa_eap key_management_owe : KeyManagement

pub record AccessPoint : Type 0 where
  pub id : Text
  pub ssid : Text
  pub bssid : Text
  pub signal : ℤ
  pub frequency : ℕ
  pub key_management : List KeyManagement

pub record PbInterface : Type 0 where
  pub id : Text
  pub name : Text
  pub desc : Text
  pub mac : Text
  pub powered : Bool
  pub up : Bool

pub data Method : Type 0 where
  method_unspecified method_auto method_manual method_disabled : Method

pub record PbIpConfig : Type 0 where
  pub method : Method
  pub addresses : List Text
  pub gateway : Text
  pub dns : List Text
  pub dns_search : List Text

-- The oneof `credential`.
pub data PbSecurity : Type 0 where
  credential_not_set open_case enterprise_case : PbSecurity
  psk_case : Text → PbSecurity

pub record PbProfile : Type 0 where
  pub id : Text
  pub name : Text
  pub ssid : Text
  pub hidden : Bool
  pub autoconnect : Bool
  pub security : PbSecurity
  pub ipv4 : PbIpConfig
  pub ipv6 : PbIpConfig

pub record ProfileAddRequest : Type 0 where
  pub name : Text
  pub ssid : Text
  pub hidden : Bool
  pub autoconnect : Bool
  pub security : Option PbSecurity
  pub ipv4 : Option PbIpConfig
  pub ipv6 : Option PbIpConfig

pub record ProfilePatchRequest : Type 0 where
  pub ref : Text
  pub name : Option Text
  pub ssid : Option Text
  pub hidden : Option Bool
  pub autoconnect : Option Bool
  pub security : Option PbSecurity
  pub ipv4 : Option PbIpConfig
  pub ipv6 : Option PbIpConfig

pub data ConnectionState : Type 0 where
  connection_state_unspecified connection_state_idle connection_state_associating : ConnectionState
  connection_state_authenticating connection_state_configuring : ConnectionState
  connection_state_connected connection_state_failed : ConnectionState
  connection_state_disconnecting : ConnectionState

pub data ConnectionError : Type 0 where
  connection_error_none connection_error_unknown connection_error_auth_failed : ConnectionError

pub record ConnectionStatus : Type 0 where
  pub state : ConnectionState
  pub error : ConnectionError
  pub detail : Option Text
  pub bssid : Option Text
  pub signal : Option ℤ
  pub addresses : List Text
  pub gateway : Text
  pub dns : List Text

-- The access point of a connection has an id, an SSID and a BSSID only.
pub record Connection : Type 0 where
  pub id : Text
  pub interface : Option PbInterface
  pub profile : Option PbProfile
  pub access_point : Option AccessPoint

pub record ConnectionAddRequest : Type 0 where
  pub interface_id : Text
  pub profile_id : Text
  pub access_point_id : Option Text

pub record InterfaceScan : Type 0 where
  pub interface_id : Text
  pub scanned_at : Option ℕ
  pub access_points : List AccessPoint
