-- ===== src/Wnet/Iwd/Profile/Values.antt =====
-- The values of the sections that `renderProfile` of internal/wnet/iwd/profile.go writes.
use wfm.Prelude.{
  Bool, true, false, List, [], ◌∷◌, Option, none, some, ◌≡◌, ◌≢◌, ◌∙◌, refl, ap, arith, Text, text,
  text_eq, nat_eq, ◌==◌, join, All,
}
use wfm.Wnet.Types.{IpConfig, ip_manual}
use wfm.Wnet.Iwd.Profile.{
  NetLib, join_addr_netmask, automatic, read_ipv4, read_ipv6, one_or_none, dns_of,
}
use wfm.Wnet.Iwd.Profile.Ini.{IniMap, Reading, find_entry, lookup_text, has_section}
use wfm.Wnet.Iwd.Profile.Words.{IsWord, join-IsValue, fields-join}
use wfm.Wnet.Iwd.Profile.Written.{secured}
use wfm.Wnet.Iwd.Profile.Lookups.{ipv4_past, ipv6_past, settings_past, secured_past, first_of}
use wfm.Wnet.Iwd.Profile.Found.{
  ipv4_address, ipv4_netmask, ipv4_gateway, ipv4_dns, ipv4_domain, ipv6_address, ipv6_gateway,
  ipv6_dns,
}
use wfm.Wnet.Iwd.Profile.Sections.{
  Section4, IsPlain4, IsPlain6, read4, read6, after4, after6, settled,
}

dns_of_words :
    (d : Text) (dns : List Text)
    → All IsWord (d ∷ dns)
    → dns_of (join (d ∷ dns) (text " ")) ≡ d ∷ dns
dns_of_words d dns h = ground (arith, (join-IsValue d dns h).0, fields-join d dns h)

dns_of-join : (dns : List Text) → All IsWord dns → dns_of (join dns (text " ")) ≡ dns
unfolding join text_eq
dns_of-join [] h = refl
dns_of-join (d ∷ dns) h = dns_of_words d dns h

-- The sections before those of the addresses.
module _ (autoconnect hidden : Bool) (v : Text) where
  abbrev pub base : Reading
  base = settled autoconnect hidden (secured v)

  pub base_none :
      (section key : Text)
      → (text "Settings" == section) ≡ false
      → (text "Security" == section) ≡ false
      → find_entry base.ini.entries section key ≡ none
  base_none section key h k =
      settings_past autoconnect hidden (secured v).ini.entries section key h
      ∙ secured_past v section key k

pub base_section4 :
    (autoconnect hidden : Bool) (v : Text)
    → has_section (base autoconnect hidden v).ini (text "IPv4") ≡ false
unfolding text_eq nat_eq
base_section4 autoconnect hidden [] = refl
base_section4 autoconnect hidden (c ∷ v) = refl

pub base_section6 :
    (autoconnect hidden : Bool) (v : Text)
    → has_section (base autoconnect hidden v).ini (text "IPv6") ≡ false
unfolding text_eq nat_eq
base_section6 autoconnect hidden [] = refl
base_section6 autoconnect hidden (c ∷ v) = refl

pub after6_past :
    (s6 : Option (IpConfig × Text)) (r : Reading) (section key : Text)
    → (text "IPv6" == section) ≡ false
    → find_entry (after6 s6 r).ini.entries section key ≡ find_entry r.ini.entries section key
after6_past none r section key h = refl
after6_past (some (cfg, addr)) r section key h = ipv6_past cfg addr r.ini.entries section key h

pub after4_past :
    (s4 : Section4) (r : Reading) (section key : Text)
    → (text "IPv4" == section) ≡ false
    → find_entry (after4 s4 r).ini.entries section key ≡ find_entry r.ini.entries section key
after4_past none r section key h = refl
after4_past (some (cfg, addr, mask)) r section key h =
    ipv4_past cfg addr mask r.ini.entries section key h

pub after6_section :
    (s6 : Option (IpConfig × Text)) (r : Reading)
    → has_section (after6 s6 r).ini (text "IPv4") ≡ has_section r.ini (text "IPv4")
unfolding text_eq nat_eq
after6_section none r = refl
after6_section (some (cfg, addr)) r = refl

pub after4_section :
    (s4 : Section4) (r : Reading)
    → has_section (after4 s4 r).ini (text "IPv6") ≡ has_section r.ini (text "IPv6")
unfolding text_eq nat_eq
after4_section none r = refl
after4_section (some (cfg, addr, mask)) r = refl

-- The IP section is read alike from two maps that agree in it.
pub read_ipv4_cong :
    (net : NetLib) (i j : IniMap)
    → has_section i (text "IPv4") ≡ has_section j (text "IPv4")
    → ((key : Text)
        → find_entry i.entries (text "IPv4") key ≡ find_entry j.entries (text "IPv4") key)
    → read_ipv4 net i ≡ read_ipv4 net j
unfolding read_ipv4
read_ipv4_cong net i j s h =
    rw
      (
        s,
        h (text "Address"),
        h (text "Netmask"),
        h (text "Gateway"),
        h (text "DNS"),
        h (text "DomainName"),
      )
      refl

read_ipv6_cong :
    (i j : IniMap)
    → has_section i (text "IPv6") ≡ has_section j (text "IPv6")
    → ((key : Text)
        → find_entry i.entries (text "IPv6") key ≡ find_entry j.entries (text "IPv6") key)
    → read_ipv6 i ≡ read_ipv6 j
unfolding read_ipv6
read_ipv6_cong i j s h = rw (s, h (text "Address"), h (text "Gateway"), h (text "DNS")) refl

read_ipv4_values :
    (net : NetLib) (i : IniMap) {addr mask gateway dns domain : Text}
    → has_section i (text "IPv4") ≡ true
    → addr ≢ []
    → lookup_text i (text "IPv4") (text "Address") ≡ addr
    → lookup_text i (text "IPv4") (text "Netmask") ≡ mask
    → lookup_text i (text "IPv4") (text "Gateway") ≡ gateway
    → lookup_text i (text "IPv4") (text "DNS") ≡ dns
    → lookup_text i (text "IPv4") (text "DomainName") ≡ domain
    → read_ipv4 net i ≡ record {
      method = ip_manual;
      addresses = join_addr_netmask net addr mask ∷ [];
      gateway = gateway;
      dns = dns_of dns;
      dns_search = one_or_none domain;
    }
unfolding read_ipv4
read_ipv4_values net i s n a m g d t = rw (s, a, m, g, d, t) (ground (arith, n))

read_ipv6_values :
    (i : IniMap) {addr gateway dns : Text}
    → has_section i (text "IPv6") ≡ true
    → addr ≢ []
    → lookup_text i (text "IPv6") (text "Address") ≡ addr
    → lookup_text i (text "IPv6") (text "Gateway") ≡ gateway
    → lookup_text i (text "IPv6") (text "DNS") ≡ dns
    → read_ipv6 i ≡ record {
      method = ip_manual;
      addresses = addr ∷ [];
      gateway = gateway;
      dns = dns_of dns;
      dns_search = [];
    }
unfolding read_ipv6
read_ipv6_values i s n a g d = rw (s, a, g, d) (ground (arith, n))

automatic4 :
    (net : NetLib) (i : IniMap) → has_section i (text "IPv4") ≡ false → read_ipv4 net i ≡ automatic
unfolding read_ipv4
automatic4 net i h = rw h refl

automatic6 : (i : IniMap) → has_section i (text "IPv6") ≡ false → read_ipv6 i ≡ automatic
unfolding read_ipv6
automatic6 i h = rw h refl

pub read4_written :
    (net : NetLib) (s4 : Section4) (r : Reading)
    → IsPlain4 s4
    → has_section r.ini (text "IPv4") ≡ false
    → ((key : Text) → find_entry r.ini.entries (text "IPv4") key ≡ none)
    → read_ipv4 net (after4 s4 r).ini ≡ read4 net s4
unfolding text_eq nat_eq
read4_written net none r h s clear = automatic4 net r.ini s
read4_written net (some (cfg, addr, mask)) r ((gateway, dns, search), value, netmask) s clear =
    read_ipv4_values net (after4 (some (cfg, addr, mask)) r).ini refl value.0
      (ipv4_address cfg addr mask r.ini.entries clear)
      (ipv4_netmask cfg addr mask r.ini.entries clear)
      (ipv4_gateway cfg addr mask r.ini.entries clear) (ipv4_dns cfg addr mask r.ini.entries clear)
      (ipv4_domain cfg addr mask r.ini.entries clear)
    ∙ ap
        (λ d. record {
          method = ip_manual;
          addresses = join_addr_netmask net addr mask ∷ [];
          gateway = cfg.gateway;
          dns = d;
          dns_search = one_or_none (first_of cfg.dns_search);
        })
        (dns_of-join cfg.dns dns)

pub read6_written :
    (s6 : Option (IpConfig × Text)) (r : Reading)
    → IsPlain6 s6
    → has_section r.ini (text "IPv6") ≡ false
    → ((key : Text) → find_entry r.ini.entries (text "IPv6") key ≡ none)
    → read_ipv6 (after6 s6 r).ini ≡ read6 s6
unfolding text_eq nat_eq
read6_written none r h s clear = automatic6 r.ini s
read6_written (some (cfg, addr)) r ((gateway, dns, search), value) s clear =
    read_ipv6_values (after6 (some (cfg, addr)) r).ini refl value.0
      (ipv6_address cfg addr r.ini.entries clear) (ipv6_gateway cfg addr r.ini.entries clear)
      (ipv6_dns cfg addr r.ini.entries clear)
    ∙ ap
        (λ d. record {
          method = ip_manual;
          addresses = addr ∷ [];
          gateway = cfg.gateway;
          dns = d;
          dns_search = [];
        })
        (dns_of-join cfg.dns dns)
