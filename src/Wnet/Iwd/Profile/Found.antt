-- ===== src/Wnet/Iwd/Profile/Found.antt =====
-- What the IP sections written by `renderProfile` of internal/wnet/iwd/profile.go hold.
use wfm.Prelude.{◌∷◌, none, ◌≡◌, ◌∙◌, refl, ap, Text, text, text_eq, nat_eq, join}
use wfm.Wnet.Types.{IpConfig}
use wfm.Wnet.Iwd.Profile.Ini.{find_entry, or_empty}
use wfm.Wnet.Iwd.Profile.Written.{Entries, put, dns_entry}
use wfm.Wnet.Iwd.Profile.Addresses.{ipv4_entries, ipv6_entries}
use wfm.Wnet.Iwd.Profile.Lookups.{
  Other, find_past, find_here, put_past, put_here, dns_past, dns_here, domain_past, domain_here,
  first_of,
}

-- What the section of IPv4 holds for its keys, when there was nothing before.
module _ (cfg : IpConfig) (addr mask : Text) (es : Entries)
    (clear : (key : Text) → find_entry es (text "IPv4") key ≡ none) where
  abbrev v4 : Text
  v4 = text "IPv4"

  abbrev with_address : Entries
  with_address = (v4, text "Address", addr) ∷ es

  abbrev with_netmask : Entries
  with_netmask = put v4 (text "Netmask") mask with_address

  abbrev with_gateway : Entries
  with_gateway = put v4 (text "Gateway") cfg.gateway with_netmask

  lists_past :
      (key : Text)
      → Other v4 (text "DomainName") v4 key
      → Other v4 (text "DNS") v4 key
      → find_entry (ipv4_entries cfg addr mask es) v4 key ≡ find_entry with_gateway v4 key
  lists_past key n m =
      domain_past v4 cfg.dns_search (dns_entry v4 cfg.dns with_gateway) v4 key n
      ∙ dns_past v4 cfg.dns with_gateway v4 key m

  pub ipv4_address :
      or_empty (find_entry (ipv4_entries cfg addr mask es) (text "IPv4") (text "Address")) ≡ addr
  unfolding text_eq nat_eq
  ipv4_address = ap or_empty (
      lists_past (text "Address") refl refl
      ∙ put_past v4 (text "Gateway") cfg.gateway with_netmask v4 (text "Address") refl
      ∙ put_past v4 (text "Netmask") mask with_address v4 (text "Address") refl
      ∙ find_here v4 (text "Address") addr es)

  pub ipv4_netmask :
      or_empty (find_entry (ipv4_entries cfg addr mask es) (text "IPv4") (text "Netmask")) ≡ mask
  unfolding text_eq nat_eq
  ipv4_netmask =
      ap or_empty (
        lists_past (text "Netmask") refl refl
        ∙ put_past v4 (text "Gateway") cfg.gateway with_netmask v4 (text "Netmask") refl)
      ∙ put_here v4 (text "Netmask") mask with_address
          (find_past v4 (text "Address") addr es v4 (text "Netmask") refl ∙ clear (text "Netmask"))

  pub ipv4_gateway :
      or_empty (find_entry (ipv4_entries cfg addr mask es) (text "IPv4") (text "Gateway"))
      ≡ cfg.gateway
  unfolding text_eq nat_eq
  ipv4_gateway =
      ap or_empty (lists_past (text "Gateway") refl refl)
      ∙ put_here v4 (text "Gateway") cfg.gateway with_netmask (
          put_past v4 (text "Netmask") mask with_address v4 (text "Gateway") refl
          ∙ find_past v4 (text "Address") addr es v4 (text "Gateway") refl
          ∙ clear (text "Gateway"))

  below_gateway :
      (key : Text)
      → Other v4 (text "Gateway") v4 key
      → Other v4 (text "Netmask") v4 key
      → Other v4 (text "Address") v4 key
      → find_entry with_gateway v4 key ≡ none
  below_gateway key g n a =
      put_past v4 (text "Gateway") cfg.gateway with_netmask v4 key g
      ∙ put_past v4 (text "Netmask") mask with_address v4 key n
      ∙ find_past v4 (text "Address") addr es v4 key a
      ∙ clear key

  pub ipv4_dns :
      or_empty (find_entry (ipv4_entries cfg addr mask es) (text "IPv4") (text "DNS"))
      ≡ join cfg.dns (text " ")
  unfolding text_eq nat_eq
  ipv4_dns =
      ap or_empty
        (domain_past v4 cfg.dns_search (dns_entry v4 cfg.dns with_gateway) v4 (text "DNS") refl)
      ∙ dns_here v4 cfg.dns with_gateway (below_gateway (text "DNS") refl refl refl)

  pub ipv4_domain :
      or_empty (find_entry (ipv4_entries cfg addr mask es) (text "IPv4") (text "DomainName"))
      ≡ first_of cfg.dns_search
  unfolding text_eq nat_eq
  ipv4_domain = domain_here v4 cfg.dns_search (dns_entry v4 cfg.dns with_gateway) (
      dns_past v4 cfg.dns with_gateway v4 (text "DomainName") refl
      ∙ below_gateway (text "DomainName") refl refl refl)

-- What the section of IPv6 holds for its keys, when there was nothing before.
module _ (cfg : IpConfig) (addr : Text) (es : Entries)
    (clear : (key : Text) → find_entry es (text "IPv6") key ≡ none) where
  abbrev v6 : Text
  v6 = text "IPv6"

  abbrev with_enabled : Entries
  with_enabled = (v6, text "Enabled", text "true") ∷ es

  abbrev with_address6 : Entries
  with_address6 = (v6, text "Address", addr) ∷ with_enabled

  pub ipv6_address :
      or_empty (find_entry (ipv6_entries cfg addr es) (text "IPv6") (text "Address")) ≡ addr
  unfolding text_eq nat_eq
  ipv6_address = ap or_empty (
      dns_past v6 cfg.dns (put v6 (text "Gateway") cfg.gateway with_address6) v6 (text "Address")
        refl
      ∙ put_past v6 (text "Gateway") cfg.gateway with_address6 v6 (text "Address") refl
      ∙ find_here v6 (text "Address") addr with_enabled)

  pub ipv6_gateway :
      or_empty (find_entry (ipv6_entries cfg addr es) (text "IPv6") (text "Gateway")) ≡ cfg.gateway
  unfolding text_eq nat_eq
  ipv6_gateway =
      ap or_empty (
        dns_past v6 cfg.dns (put v6 (text "Gateway") cfg.gateway with_address6) v6 (text "Gateway")
          refl)
      ∙ put_here v6 (text "Gateway") cfg.gateway with_address6 (
          find_past v6 (text "Address") addr with_enabled v6 (text "Gateway") refl
          ∙ find_past v6 (text "Enabled") (text "true") es v6 (text "Gateway") refl
          ∙ clear (text "Gateway"))

  pub ipv6_dns :
      or_empty (find_entry (ipv6_entries cfg addr es) (text "IPv6") (text "DNS"))
      ≡ join cfg.dns (text " ")
  unfolding text_eq nat_eq
  ipv6_dns = dns_here v6 cfg.dns (put v6 (text "Gateway") cfg.gateway with_address6) (
      put_past v6 (text "Gateway") cfg.gateway with_address6 v6 (text "DNS") refl
      ∙ find_past v6 (text "Address") addr with_enabled v6 (text "DNS") refl
      ∙ find_past v6 (text "Enabled") (text "true") es v6 (text "DNS") refl
      ∙ clear (text "DNS"))
