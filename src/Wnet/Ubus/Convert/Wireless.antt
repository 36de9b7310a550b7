-- ===== src/Wnet/Ubus/Convert/Wireless.antt =====
-- internal/wnet/ubus/convert.go: the sections of /etc/config/wireless and the status of netifd.
use wfm.Prelude.{
  suc, Bool, false, not, ◌&&◌, ◌||◌, List, [], ◌∷◌, ◌++◌, Option, none, some, Text, text, text_eq,
  ◌==◌, ◌!=◌, if◌then◌else◌, to_lower, trim_space,
}
use wfm.Prelude.Int.{ℤ, pos, negsuc, int_eq}
use wfm.Wnet.Types.{IpConfig, ip_unspecified, Profile}
use wfm.Wnet.Iwd.Profile.{decimal}
use wfm.Wnet.Ubus.Json.{
  Json, boolean, string, array, cons, field, as_string, as_int, as_object, as_list, string_or_empty,
  items_or_none, members_or_none, ◌>>=◌,
}
use wfm.Wnet.Ubus.Convert.{sec_type, enc_str_to_sec_kind}

pub record WifiIface : Type 0 where
  pub section : Text
  pub device : Text
  pub mode : Text
  pub ssid : Text
  pub encryption : Text
  pub key : Text
  pub network : Text
  pub bssid : Text
  pub disabled : Bool

unfoldable pub uci_bool : Json → Bool
uci_bool (boolean b) = b
uci_bool (string s) =
    let t = to_lower (trim_space s) in
    t == text "1" || t == text "true" || t == text "yes" || t == text "on"
uci_bool _ = false

abbrev pub first_string : Json → Text
first_string (string s) = s
first_string (array (cons (string s) _)) = s
first_string _ = []

-- The section, if the value decodes as one and is a wifi-iface.
unfoldable pub wifi_iface : (name : Text) → Json → Option WifiIface
unfolding uci_bool
wifi_iface name raw = do
  ms ← as_object raw
  type ← as_string (field (text ".type") ms)
  device ← as_string (field (text "device") ms)
  mode ← as_string (field (text "mode") ms)
  ssid ← as_string (field (text "ssid") ms)
  encryption ← as_string (field (text "encryption") ms)
  key ← as_string (field (text "key") ms)
  bssid ← as_string (field (text "bssid") ms)
  if type == text "wifi-iface"
      then some (record {
        section = name;
        device = device;
        mode = mode;
        ssid = ssid;
        encryption = encryption;
        key = key;
        network = first_string (field (text "network") ms);
        bssid = bssid;
        disabled = uci_bool (field (text "disabled") ms);
      })
      else none

abbrev pub if_some : {A : Type 0} → Option A → List A → List A
if_some none rest = rest
if_some (some a) rest = a ∷ rest

unfoldable pub parse_wifi_ifaces : List (Text × Json) → List WifiIface
parse_wifi_ifaces [] = []
parse_wifi_ifaces ((name, raw) ∷ values) = if_some (wifi_iface name raw) (parse_wifi_ifaces values)

unfoldable pub to_profile : (derive_id : Text → Text → Text) → WifiIface → Profile
to_profile derive_id w =
    let kind = enc_str_to_sec_kind w.encryption in
    let unset : IpConfig = record {
      method = ip_unspecified;
      addresses = [];
      gateway = [];
      dns = [];
      dns_search = [];
    } in
    record {
      id = derive_id w.ssid (sec_type kind);
      name = w.ssid;
      ssid = w.ssid;
      hidden = false;
      autoconnect = not w.disabled;
      security = record { kind = kind; passphrase = [] };
      ipv4 = unset;
      ipv6 = unset;
    }

-- `out[it.Section] = it.Ifname` for each interface that has a section.
unfoldable pub section_names : List Json → List (Text × Text)
section_names [] = []
section_names (it ∷ its) =
    let ms = members_or_none it in
    let section = string_or_empty (field (text "section") ms) in
    let rest = section_names its in
    if section != [] then (section, string_or_empty (field (text "ifname") ms)) ∷ rest else rest

-- The members of the status are the radios.
unfoldable pub parse_wireless_status : List (Text × Json) → List (Text × Text)
parse_wireless_status [] = []
parse_wireless_status ((_, radio) ∷ rest) =
    section_names (items_or_none (field (text "interfaces") (members_or_none radio)))
    ++ parse_wireless_status rest

-- A later entry replaces an earlier one; the value of a missing key is empty.
unfoldable pub ifname_of : List (Text × Text) → (section : Text) → Text
ifname_of status section = go [] status
  where
    go : Text → List (Text × Text) → Text
    go acc [] = acc
    go acc ((k, v) ∷ rest) = go (if k == section then v else acc) rest

abbrev pub signed_decimal : ℤ → Text
signed_decimal (pos n) = decimal n
signed_decimal (negsuc n) = b'-' ∷ decimal (suc n)

unfoldable pub if_address : Json → Option Text
if_address j = do
  ms ← as_object j
  address ← as_string (field (text "address") ms)
  mask ← as_int (field (text "mask") ms)
  some (address ++ b'/' ∷ signed_decimal mask)

unfoldable pub if_route : Json → Option (Text × ℤ × Text)
if_route j = do
  ms ← as_object j
  target ← as_string (field (text "target") ms)
  mask ← as_int (field (text "mask") ms)
  nexthop ← as_string (field (text "nexthop") ms)
  some (target, mask, nexthop)

-- The next hop of the first default route that has one.
unfoldable pub gateway_of : List (Text × ℤ × Text) → Text
gateway_of [] = []
gateway_of ((target, mask, nexthop) ∷ routes) =
    let later = gateway_of routes in
    if target == text "0.0.0.0" && mask == pos 0 && nexthop != [] then nexthop else later

unfoldable pub parse_if_status : Json → Option (List Text × Text × List Text)
parse_if_status raw = do
  ms ← as_object raw
  addrs ← as_list if_address (field (text "ipv4-address") ms)
  routes ← as_list if_route (field (text "route") ms)
  dns ← as_list as_string (field (text "dns-server") ms)
  some (addrs, gateway_of routes, dns)
