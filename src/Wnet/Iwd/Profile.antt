-- ===== src/Wnet/Iwd/Profile.antt =====
-- internal/wnet/iwd/profile.go: the content of a profile's file. The parsing of addresses by the
-- package `net` and the hash behind `wnet.DeriveID` are parameters.
pub mod Ini
pub mod Lines
pub mod Words
pub mod Written
pub mod Addresses
pub mod Lookups
pub mod Found
pub mod Sections
pub mod Values
pub mod RoundTrip
use wfm.Prelude.{
  ℕ, zero, suc, ◌+◌, ◌/◌, ◌%◌, Bool, true, false, ◌&&◌, ◌||◌, List, [], ◌∷◌, ◌++◌, map, Option,
  none, some, Text, text, text_eq, nat_eq, ◌==◌, ◌!=◌, ltb, if◌then◌else◌, length, trim_space,
  to_lower, join,
}
use wfm.Prelude.Splitting.{fields}
use wfm.Wnet.Types.{
  SecurityKind, sec_open, sec_psk, sec_enterprise, security_kind_eq, IpConfig, IpMethod, ip_auto,
  ip_manual, ip_disabled, ip_unspecified, ip_method_eq, Profile,
}
use wfm.Wnet.Iwd.Convert.{type_to_sec_kind}
use wfm.Wnet.Iwd.Profile.Ini.{IniMap, parse_ini, has_section, lookup, lookup_text}

-- What the code uses of `net`.
pub record NetLib : Type 0 where
  -- `net.ParseCIDR`: the text of the address and the bytes of the mask.
  pub parse_cidr : Text → Option (Text × List ℕ)
  -- `net.ParseIP(s) != nil`
  pub is_ip : Text → Bool
  -- `net.ParseIP(s).To4()`
  pub parse_ip4 : Text → Option (List ℕ)
  -- The ones of `net.IPMask.Size`.
  pub mask_ones : List ℕ → ℕ

-- `%d`, with as much fuel as the number.
abbrev put_decimal : ℕ → ℕ → Text → Text
put_decimal zero n rest = (b'0' + n % 10) ∷ rest
put_decimal (suc fuel) n rest =
    let more = put_decimal fuel (n / 10) ((b'0' + n % 10) ∷ rest) in
    if ltb n 10 then (b'0' + n) ∷ rest else more

unfoldable pub decimal : ℕ → Text
decimal n = put_decimal n n []

abbrev pub bool_str : Bool → Text
bool_str true = text "true"
bool_str false = text "false"

unfoldable pub parse_bool : Text → (def : Bool) → Bool
parse_bool s def =
    let v = to_lower (trim_space s) in
    if v == text "true" || v == text "yes" || v == text "1"
    then true
    else if v == text "false" || v == text "no" || v == text "0"
    then false
    else def

abbrev pub dotted : List ℕ → Text
dotted (a ∷ b ∷ c ∷ d ∷ []) =
    decimal a ++ b'.' ∷ (decimal b ++ b'.' ∷ (decimal c ++ b'.' ∷ decimal d))
dotted _ = []

-- `b.WriteString(k + "=" + v + "\n")`
abbrev pub line : Text → Text → Text
line k v = k ++ b'=' ∷ (v ++ b'\n' ∷ [])

abbrev pub header : Text → Text
header name = b'[' ∷ (name ++ b']' ∷ b'\n' ∷ [])

abbrev pub optional_line : Text → Text → Text
optional_line k v = if v != [] then line k v else []

abbrev pub dns_line : List Text → Text
dns_line [] = []
dns_line (d ∷ dns) = line (text "DNS") (join (d ∷ dns) (text " "))

abbrev pub domain_line : List Text → Text
domain_line [] = []
domain_line (d ∷ search) = line (text "DomainName") d

abbrev pub security_text : SecurityKind → Text → Text
security_text kind passphrase =
    if kind == sec_psk && passphrase != []
    then header (text "Security") ++ (line (text "Passphrase") passphrase ++ b'\n' ∷ [])
    else []

abbrev pub settings_text : Bool → Bool → Text
settings_text autoconnect hidden =
    header (text "Settings")
    ++ (line (text "AutoConnect") (bool_str autoconnect)
        ++ (if hidden then line (text "Hidden") (text "true") else []))

abbrev pub ipv4_text : IpConfig → Option (Text × Text) → Text
ipv4_text cfg none = []
ipv4_text cfg (some (addr, mask)) =
    b'\n'
    ∷ (header (text "IPv4")
        ++ (line (text "Address") addr
            ++ (optional_line (text "Netmask") mask
                ++ (optional_line (text "Gateway") cfg.gateway
                    ++ (dns_line cfg.dns ++ domain_line cfg.dns_search)))))

abbrev pub ipv6_text : IpConfig → Text → Text
ipv6_text cfg addr =
    b'\n'
    ∷ (header (text "IPv6")
        ++ (line (text "Enabled") (text "true")
            ++ (line (text "Address") addr
                ++ (optional_line (text "Gateway") cfg.gateway ++ dns_line cfg.dns))))

abbrev pub first_address : IpConfig → List Text → Option (IpConfig × Text)
first_address cfg [] = none
first_address cfg (addr ∷ more) = some (cfg, addr)

-- The first address of a manual configuration.
abbrev pub manual_address : Option IpConfig → Option (IpConfig × Text)
manual_address none = none
manual_address (some cfg) =
    if cfg.method == ip_manual then first_address cfg cfg.addresses else none

abbrev pub parsed_or : (def : Bool) → Option Text → Bool
parsed_or def none = def
parsed_or def (some v) = parse_bool v def

abbrev pub one_or_none : Text → List Text
one_or_none v = if v != [] then v ∷ [] else []

abbrev pub dns_of : Text → List Text
dns_of d = if d != [] then fields d else []

abbrev pub automatic : IpConfig
automatic = record { method = ip_auto; addresses = []; gateway = []; dns = []; dns_search = [] }

unfoldable pub read_ipv6 : IniMap → IpConfig
read_ipv6 sec =
    if has_section sec (text "IPv6")
    then record {
      method = ip_manual;
      addresses = one_or_none (lookup_text sec (text "IPv6") (text "Address"));
      gateway = lookup_text sec (text "IPv6") (text "Gateway");
      dns = dns_of (lookup_text sec (text "IPv6") (text "DNS"));
      dns_search = [];
    }
    else automatic

module _ (net : NetLib) where
  abbrev pub addr_netmask : Text → Option (Text × List ℕ) → Option (Text × Text)
  addr_netmask cidr (some (ip, mask)) = some (ip, dotted mask)
  addr_netmask cidr none = if net.is_ip cidr then some (cidr, []) else none

  unfoldable pub cidr_to_addr_netmask : Text → Option (Text × Text)
  cidr_to_addr_netmask cidr = addr_netmask cidr (net.parse_cidr cidr)

  abbrev pub with_ones : Text → Option (List ℕ) → Text
  with_ones addr none = addr
  with_ones addr (some ip) = addr ++ b'/' ∷ decimal (net.mask_ones ip)

  unfoldable pub join_addr_netmask : Text → Text → Text
  join_addr_netmask addr netmask =
      if netmask == [] then addr else with_ones addr (net.parse_ip4 netmask)

  abbrev pub ipv4_section : Option (IpConfig × Text) → Text
  ipv4_section none = []
  ipv4_section (some (cfg, addr)) = ipv4_text cfg (cidr_to_addr_netmask addr)

  abbrev pub ipv6_section : Option (IpConfig × Text) → Text
  ipv6_section none = []
  ipv6_section (some (cfg, addr)) = ipv6_text cfg addr

  unfoldable pub render_profile :
      SecurityKind
      → (passphrase : Text) → (autoconnect hidden : Bool) → (ipv4 ipv6 : Option IpConfig) → Text
  render_profile kind passphrase autoconnect hidden ipv4 ipv6 =
      security_text kind passphrase
      ++ (settings_text autoconnect hidden
          ++ (ipv4_section (manual_address ipv4) ++ ipv6_section (manual_address ipv6)))

  unfoldable pub read_ipv4 : IniMap → IpConfig
  read_ipv4 sec =
      let addr = lookup_text sec (text "IPv4") (text "Address") in
      if has_section sec (text "IPv4")
      then record {
        method = ip_manual;
        addresses =
            if addr != []
            then join_addr_netmask addr (lookup_text sec (text "IPv4") (text "Netmask")) ∷ []
            else [];
        gateway = lookup_text sec (text "IPv4") (text "Gateway");
        dns = dns_of (lookup_text sec (text "IPv4") (text "DNS"));
        dns_search = one_or_none (lookup_text sec (text "IPv4") (text "DomainName"));
      }
      else automatic

  -- `derive_id` is `wnet.DeriveID` of two parts.
  unfoldable pub parse_profile :
      (derive_id : Text → Text → Text) → (ssid type content : Text) → Profile
  parse_profile derive_id ssid type content =
      let sec = parse_ini content in
      record {
        id = derive_id ssid type;
        name = ssid;
        ssid = ssid;
        hidden = parsed_or false (lookup sec (text "Settings") (text "Hidden"));
        autoconnect = parsed_or true (lookup sec (text "Settings") (text "AutoConnect"));
        security = record { kind = type_to_sec_kind type; passphrase = [] };
        ipv4 = read_ipv4 sec;
        ipv6 = read_ipv6 sec;
      }
