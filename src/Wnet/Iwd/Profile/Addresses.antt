-- ===== src/Wnet/Iwd/Profile/Addresses.antt =====
-- `parseINI` of internal/wnet/iwd/profile.go reads the IP sections that `renderProfile` writes.
use wfm.Prelude.{true, [], ◌∷◌, some, ◌≢◌, arith, Text, text, text_eq, All}
use wfm.Wnet.Types.{IpConfig}
use wfm.Wnet.Iwd.Profile.{line, header, optional_line, dns_line, ipv4_text, ipv6_text}
use wfm.Wnet.Iwd.Profile.Ini.{Reading}
use wfm.Wnet.Iwd.Profile.Words.{IsWord}
use wfm.Wnet.Iwd.Profile.Lines.{IsValue, Reads, Reads-append, Reads-blank, Reads-entry, at}
use wfm.Wnet.Iwd.Profile.Written.{
  Entries, put, IsOptional, IsFirstValue, dns_entry, domain_entry, address-IsKey, netmask-IsKey,
  gateway-IsKey, enabled-IsKey, bool_str-IsValue, optional-Reads, dns-Reads, domain-Reads,
  header_IPv4, header_IPv6,
}

-- What of a configuration can be written.
abbrev pub IsPlain : IpConfig → Type 0
IsPlain cfg = IsOptional cfg.gateway × All IsWord cfg.dns × IsFirstValue cfg.dns_search

abbrev pub ipv4_entries : IpConfig → (addr mask : Text) → Entries → Entries
ipv4_entries cfg addr mask es =
    let v4 = text "IPv4" in
    domain_entry v4 cfg.dns_search (
      dns_entry v4 cfg.dns (
        put v4 (text "Gateway") cfg.gateway
          (put v4 (text "Netmask") mask ((v4, text "Address", addr) ∷ es))))

abbrev pub ipv6_entries : IpConfig → (addr : Text) → Entries → Entries
ipv6_entries cfg addr es =
    let v6 = text "IPv6" in
    dns_entry v6 cfg.dns (
      put v6 (text "Gateway") cfg.gateway
        ((v6, text "Address", addr) ∷ (v6, text "Enabled", text "true") ∷ es))

pub ipv4-Reads :
    (cfg : IpConfig) (addr mask : Text) (r : Reading)
    → IsPlain cfg
    → IsValue addr
    → IsOptional mask
    → Reads
        (ipv4_text cfg (some (addr, mask)))
        r
        (at (text "IPv4") (text "IPv4" ∷ r.ini.sections) (ipv4_entries cfg addr mask r.ini.entries))
ipv4-Reads cfg addr mask r (gateway, dns, search) value netmask =
    let v4 = text "IPv4" in
    let named : v4 ≢ [] = ground arith in
    let opened = v4 ∷ r.ini.sections in
    Reads-append (b'\n' ∷ []) _ (Reads-blank r) (
      Reads-append (header v4) _ (header_IPv4 r) (
        Reads-append (line (text "Address") addr) _
          (Reads-entry _ addr address-IsKey value v4 opened _ named)
          (Reads-append (optional_line (text "Netmask") mask) _
            (optional-Reads v4 named opened _ mask _ netmask-IsKey netmask)
            (Reads-append (optional_line (text "Gateway") cfg.gateway) _
              (optional-Reads v4 named opened _ cfg.gateway _ gateway-IsKey gateway)
              (Reads-append (dns_line cfg.dns) _ (dns-Reads v4 named opened cfg.dns _ dns)
                (domain-Reads v4 named opened cfg.dns_search _ search))))))

pub ipv6-Reads :
    (cfg : IpConfig) (addr : Text) (r : Reading)
    → IsPlain cfg
    → IsValue addr
    → Reads
        (ipv6_text cfg addr)
        r
        (at (text "IPv6") (text "IPv6" ∷ r.ini.sections) (ipv6_entries cfg addr r.ini.entries))
ipv6-Reads cfg addr r (gateway, dns, search) value =
    let v6 = text "IPv6" in
    let named : v6 ≢ [] = ground arith in
    let opened = v6 ∷ r.ini.sections in
    Reads-append (b'\n' ∷ []) _ (Reads-blank r) (
      Reads-append (header v6) _ (header_IPv6 r) (
        Reads-append (line (text "Enabled") (text "true")) _
          (Reads-entry _ (text "true") enabled-IsKey (bool_str-IsValue true) v6 opened _ named)
          (Reads-append (line (text "Address") addr) _
            (Reads-entry _ addr address-IsKey value v6 opened _ named)
            (Reads-append (optional_line (text "Gateway") cfg.gateway) _
              (optional-Reads v6 named opened _ cfg.gateway _ gateway-IsKey gateway)
              (dns-Reads v6 named opened cfg.dns _ dns)))))
