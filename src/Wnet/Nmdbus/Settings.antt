-- ===== src/Wnet/Nmdbus/Settings.antt =====
-- internal/wnet/nmdbus/settings.go: settings of profiles, built and read.
pub mod Addresses
pub mod Sections
pub mod RoundTrip
use wfm.Prelude.{
  ℕ, Bool, true, false, List, [], ◌∷◌, ◌++◌, Option, none, some, Text, text, text_eq, nat_eq, ◌==◌,
  if◌then◌else◌, length,
}
use wfm.Wnet.Types.{
  SecurityKind, sec_psk, security_kind_eq, IpMethod, IpConfig, ip_unspecified, ip_auto, ip_manual,
  ip_disabled, Profile, ProfileSpec,
}
use wfm.Wnet.Nmdbus.Convert.{AddressLib, security_from_key_mgmt, cidr, u32_to_ip4, ip4_to_u32}
use wfm.Wnet.Nmdbus.Variants.{
  Basic, str, uint32, other, Variant, boolean, bytes, uint32s, byte_arrays, strings, dicts, Group,
  NmSettings, lookup, in_group, s_get, as_string, as_bool, as_bytes, s_string, s_bool, s_bytes,
}

abbrev pub if_some : {A : Type 0} → Option A → List A → List A
if_some none rest = rest
if_some (some a) rest = a ∷ rest

-- An option of a group, if it is set.
abbrev pub entry : (key : Text) → Option Variant → Group
entry key none = []
entry key (some v) = (key, v) ∷ []

-- The variant of a list, if the list is not empty.
abbrev pub unless_empty : {A : Type 0} → (List A → Variant) → List A → Option Variant
unless_empty variant [] = none
unless_empty variant (x ∷ xs) = some (variant (x ∷ xs))

-- An address with its prefix, where it parses.
abbrev pub address_dict : Option (Text × ℕ) → Option (List (Text × Basic))
address_dict none = none
address_dict (some (ip, prefix)) =
    some ((text "address", str ip) ∷ (text "prefix", uint32 prefix) ∷ [])

abbrev pub basic_string : Option Basic → Text
basic_string (some (str x)) = x
basic_string _ = []

abbrev pub basic_uint32 : Option Basic → ℕ
basic_uint32 (some (uint32 n)) = n
basic_uint32 _ = 0

-- The text of an address in `address-data`.
abbrev pub address_text : List (Text × Basic) → List Text
address_text e =
    let address = basic_string (lookup (text "address") e) in
    if address == [] then [] else cidr address (basic_uint32 (lookup (text "prefix") e)) ∷ []

unfoldable pub address_texts : List (List (Text × Basic)) → List Text
address_texts [] = []
address_texts (e ∷ es) = address_text e ++ address_texts es

abbrev pub addresses_of : Option Variant → List Text
addresses_of (some (dicts es)) = address_texts es
addresses_of _ = []

abbrev pub search_of : Option Variant → List Text
search_of (some (strings xs)) = xs
search_of _ = []

unfoldable pub u32_texts : List ℕ → List Text
u32_texts [] = []
u32_texts (u ∷ us) = u32_to_ip4 u ∷ u32_texts us

module _ (net : AddressLib) where
  -- The loop over the addresses of `ipSection`.
  unfoldable pub address_dicts : List Text → List (List (Text × Basic))
  address_dicts [] = []
  address_dicts (c ∷ cs) = if_some (address_dict (net.parse_cidr c)) (address_dicts cs)

  unfoldable pub ip4_numbers : List Text → List ℕ
  ip4_numbers [] = []
  ip4_numbers (d ∷ ds) = if_some (ip4_to_u32 net d) (ip4_numbers ds)

  unfoldable pub ip6_arrays : List Text → List Text
  ip6_arrays [] = []
  ip6_arrays (d ∷ ds) = if_some (net.parse_ip6 d) (ip6_arrays ds)

  unfoldable pub ip6_texts : List Text → List Text
  ip6_texts [] = []
  ip6_texts (b ∷ bs) =
      let rest = ip6_texts bs in if length b == 16 then net.ip6_string b ∷ rest else rest

  unfoldable pub dns_variant : (group : Text) → List Text → Option Variant
  dns_variant group dns =
      if group == text "ipv6"
      then unless_empty byte_arrays (ip6_arrays dns)
      else unless_empty uint32s (ip4_numbers dns)

  abbrev pub manual_section : (group : Text) → IpConfig → Group
  manual_section group cfg =
      (text "method", str (text "manual"))
      ∷ (entry (text "address-data") (unless_empty dicts (address_dicts cfg.addresses))
          ++ (entry (text "gateway") (if cfg.gateway == [] then none else some (str cfg.gateway))
              ++ (entry (text "dns") (dns_variant group cfg.dns)
                  ++ (entry (text "dns-search") (unless_empty strings cfg.dns_search) ++ []))))

  abbrev pub method_only : Text → Group
  method_only method = (text "method", str method) ∷ []

  -- The section of a method.
  abbrev pub section_of : IpMethod → (group : Text) → IpConfig → Group
  section_of ip_manual group cfg = manual_section group cfg
  section_of ip_disabled group cfg = method_only (text "disabled")
  section_of ip_auto group cfg = method_only (text "auto")
  section_of ip_unspecified group cfg = method_only (text "auto")

  unfoldable pub ip_section : (group : Text) → Option IpConfig → Group
  ip_section group none = method_only (text "auto")
  ip_section group (some cfg) = section_of cfg.method group cfg

  -- The group of the security, for a pre-shared key.
  abbrev pub security_groups : ProfileSpec → NmSettings
  security_groups spec =
      if spec.security.kind == sec_psk
      then (
        text "802-11-wireless-security",
        (text "key-mgmt", str (text "wpa-psk")) ∷ (text "psk", str spec.security.passphrase) ∷ [],
      )
        ∷ []
      else []

  unfoldable pub build_settings : ProfileSpec → NmSettings
  build_settings spec =
      (
        text "connection",
        (text "id", str (if spec.name == [] then spec.ssid else spec.name))
            ∷ (text "type", str (text "802-11-wireless"))
            ∷ (text "autoconnect", boolean spec.autoconnect)
            ∷ [],
      )
      ∷ (
        text "802-11-wireless",
        (text "ssid", bytes spec.ssid)
            ∷ (text "mode", str (text "infrastructure"))
            ∷ (if spec.hidden then (text "hidden", boolean true) ∷ [] else []),
      )
      ∷ (text "ipv4", ip_section (text "ipv4") spec.ipv4)
      ∷ (text "ipv6", ip_section (text "ipv6") spec.ipv6)
      ∷ security_groups spec

  abbrev pub method_of : Text → IpMethod
  method_of m =
      if m == text "auto"
      then ip_auto
      else if m == text "manual"
      then ip_manual
      else if m == text "disabled"
      then ip_disabled
      else ip_unspecified

  abbrev pub dns_of : (group : Text) → Option Variant → List Text
  dns_of group (some (byte_arrays bs)) = if group == text "ipv6" then ip6_texts bs else []
  dns_of group (some (uint32s us)) = if group == text "ipv6" then [] else u32_texts us
  dns_of group _ = []

  unfoldable pub ip_config_from_settings : NmSettings → (group : Text) → IpConfig
  unfolding s_get s_string
  ip_config_from_settings s group = record {
    method = method_of (s_string s group (text "method"));
    addresses = addresses_of (s_get s group (text "address-data"));
    gateway = s_string s group (text "gateway");
    dns = dns_of group (s_get s group (text "dns"));
    dns_search = search_of (s_get s group (text "dns-search"));
  }

  unfoldable pub profile_from_settings : NmSettings → Profile
  unfolding s_string s_bool s_bytes ip_config_from_settings
  profile_from_settings s = record {
    id = s_string s (text "connection") (text "uuid");
    name = s_string s (text "connection") (text "id");
    ssid = s_bytes s (text "802-11-wireless") (text "ssid");
    hidden = s_bool s (text "802-11-wireless") (text "hidden") false;
    autoconnect = s_bool s (text "connection") (text "autoconnect") true;
    security =
        security_from_key_mgmt (s_string s (text "802-11-wireless-security") (text "key-mgmt"));
    ipv4 = ip_config_from_settings s (text "ipv4");
    ipv6 = ip_config_from_settings s (text "ipv6");
  }
