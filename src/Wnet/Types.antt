-- ===== src/Wnet/Types.antt =====
-- internal/wnet/backend.go: the domain model. Pointers to optional values are `Option`.
use wfm.Prelude.{ℕ, Bool, Option, List, Text, Eq}
use wfm.Prelude.Int.{ℤ}

-- Errors by what `errors.Is` tells apart; their texts are not modelled.
pub data Error : Type 0 where
  err_not_found err_unsupported err_other : Error

pub data KeyMgmt : Type 0 where
  key_none key_wpa_psk key_sae key_wpa_eap key_owe : KeyMgmt

pub data SecurityKind : Type 0 where
  sec_open sec_psk sec_enterprise : SecurityKind

pub record Security : Type 0 where
  pub kind : SecurityKind
  pub passphrase : Text

pub data IpMethod : Type 0 where
  ip_unspecified ip_auto ip_manual ip_disabled : IpMethod

pub record IpConfig : Type 0 where
  pub method : IpMethod
  pub addresses : List Text
  pub gateway : Text
  pub dns : List Text
  pub dns_search : List Text

pub record Interface : Type 0 where
  pub name : Text
  pub mac : Text
  pub pci : Text
  pub powered : Bool
  pub up : Bool
  pub desc : Text

-- A scanned access point.
pub record Ap : Type 0 where
  pub ssid : Text
  pub bssid : Text
  pub signal : ℤ
  pub freq_mhz : ℕ
  pub key_mgmt : List KeyMgmt

pub record Profile : Type 0 where
  pub id : Text
  pub name : Text
  pub ssid : Text
  pub hidden : Bool
  pub autoconnect : Bool
  pub security : Security
  pub ipv4 : IpConfig
  pub ipv6 : IpConfig

pub record ProfileSpec : Type 0 where
  pub name : Text
  pub ssid : Text
  pub hidden : Bool
  pub autoconnect : Bool
  pub security : Security
  pub ipv4 : Option IpConfig
  pub ipv6 : Option IpConfig

pub record ProfilePatch : Type 0 where
  pub name : Option Text
  pub ssid : Option Text
  pub hidden : Option Bool
  pub autoconnect : Option Bool
  pub security : Option Security
  pub ipv4 : Option IpConfig
  pub ipv6 : Option IpConfig

pub record Active : Type 0 where
  pub id : Text
  pub iface : Text
  pub profile_id : Text
  pub ssid : Text
  pub bssid : Text

pub data ConnState : Type 0 where
  state_unspecified state_idle state_associating state_authenticating : ConnState
  state_configuring state_connected state_failed state_disconnecting : ConnState

pub data ConnError : Type 0 where
  err_c_none err_c_unknown err_c_auth_failed : ConnError

pub record Status : Type 0 where
  pub state : ConnState
  pub error : ConnError
  pub detail : Text
  pub bssid : Text
  pub signal : ℤ
  pub addresses : List Text
  pub gateway : Text
  pub dns : List Text

SecurityKind-discrete : Discrete SecurityKind
SecurityKind-discrete = hlevel

instance unfoldable pub security_kind_eq : Eq SecurityKind
unfolding SecurityKind-discrete
security_kind_eq = record { dec = SecurityKind-discrete }

KeyMgmt-discrete : Discrete KeyMgmt
KeyMgmt-discrete = hlevel

instance unfoldable pub key_mgmt_eq : Eq KeyMgmt
unfolding KeyMgmt-discrete
key_mgmt_eq = record { dec = KeyMgmt-discrete }

ConnState-discrete : Discrete ConnState
ConnState-discrete = hlevel

instance unfoldable pub conn_state_eq : Eq ConnState
unfolding ConnState-discrete
conn_state_eq = record { dec = ConnState-discrete }

IpMethod-discrete : Discrete IpMethod
IpMethod-discrete = hlevel

instance unfoldable pub ip_method_eq : Eq IpMethod
unfolding IpMethod-discrete
ip_method_eq = record { dec = IpMethod-discrete }
