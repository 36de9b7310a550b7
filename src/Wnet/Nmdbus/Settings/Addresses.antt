-- ===== src/Wnet/Nmdbus/Settings/Addresses.antt =====
-- What internal/wnet/nmdbus/settings.go reads of the addresses and servers that it writes.
use wfm.Prelude.{
  ℕ, ◌/◌, ◌%◌, ◌<◌, true, List, [], ◌∷◌, ◌++◌, none, some, ◌≡◌, ◌≢◌, ◌∙◌, ◌⊎◌, refl, ap, ap₂, arith,
  Text, text, text_eq, nat_eq, ◌==◌, if◌then◌else◌, All, length,
}
use wfm.Wnet.Types.{security_kind_eq, IpConfig, ip_auto, ip_manual, ip_disabled}
use wfm.Wnet.Nmdbus.Convert.{
  AddressLib, bytes_to_u32, u32_to_bytes, dotted, cidr, u32_to_ip4, ip4_to_u32,
}
use wfm.Wnet.Nmdbus.Variants.{Basic, str, uint32, uint32s, byte_arrays, dicts}
use wfm.Wnet.Nmdbus.Settings.{
  unless_empty, if_some, address_dict, address_text, address_texts, addresses_of, u32_texts,
  address_dicts, ip4_numbers, ip6_arrays, ip6_texts, dns_variant, dns_of,
}

literals : Unit {0}
unfolding text_eq nat_eq
literals = tt

-- An address with its prefix, and addresses of servers, that are written the way they are printed.
abbrev pub IsCidr : AddressLib → Text → Type 0
IsCidr net c =
    (ip : Text) × (prefix : ℕ) × (net.parse_cidr c ≡ some (ip, prefix))
    × (ip ≢ [])
    × (cidr ip prefix ≡ c)

abbrev pub IsIp4 : AddressLib → Text → Type 0
IsIp4 net s =
    (a : ℕ) × (b : ℕ) × (c : ℕ) × (d : ℕ) × (net.parse_ip4 s ≡ some (a, b, c, d))
    × ((a < 256) × (b < 256) × (c < 256) × (d < 256))
    × (dotted (a, b, c, d) ≡ s)

abbrev pub IsIp6 : AddressLib → Text → Type 0
IsIp6 net s = (b : Text) × (net.parse_ip6 s ≡ some b) × (length b ≡ 16) × (net.ip6_string b ≡ s)

-- A manual configuration of such addresses, or another one that has none.
abbrev pub IsWritable : AddressLib → (AddressLib → Text → Type 0) → IpConfig → Type 0
IsWritable net IsServer cfg =
    ((cfg.method ≡ ip_manual) × All (IsCidr net) cfg.addresses × All (IsServer net) cfg.dns)
    ⊎ (((cfg.method ≡ ip_auto) ⊎ (cfg.method ≡ ip_disabled))
        × (cfg.addresses ≡ [])
        × (cfg.gateway ≡ [])
        × (cfg.dns ≡ [])
        × (cfg.dns_search ≡ []))

u32_to_bytes-bytes_to_u32 :
    (a b c d : ℕ)
    → a < 256
    → b < 256
    → c < 256
    → d < 256
    → u32_to_bytes (bytes_to_u32 (a, b, c, d)) ≡ (a, b, c, d)
u32_to_bytes-bytes_to_u32 a b c d ha hb hc hd =
    let n = bytes_to_u32 (a, b, c, d) in
    let pa : n % 256 ≡ a = omega (arith, ha) in
    let pb : n / 256 % 256 ≡ b = omega (arith, ha, hb) in
    let pc : n / 65536 % 256 ≡ c = omega (arith, ha, hb, hc) in
    let pd : n / 16777216 % 256 ≡ d = omega (arith, ha, hb, hc, hd) in λ i. (pa i, pb i, pc i, pd i)

pub dicts_of :
    (es : List (List (Text × Basic))) → addresses_of (unless_empty dicts es) ≡ address_texts es
unfolding address_texts
dicts_of [] = refl
dicts_of (e ∷ es) = refl

address_text-address_dict :
    (ip : Text) (prefix : ℕ)
    → ip ≢ []
    → address_text ((text "address", str ip) ∷ (text "prefix", uint32 prefix) ∷ [])
      ≡ cidr ip prefix ∷ []
unfolding literals
address_text-address_dict [] prefix ne = absurd (ne refl)
address_text-address_dict (c ∷ ip) prefix ne = refl

module _ (net : AddressLib) where
  pub address_texts-address_dicts :
      (cs : List Text) → All (IsCidr net) cs → address_texts (address_dicts net cs) ≡ cs
  unfolding address_texts address_dicts
  address_texts-address_dicts [] h = refl
  address_texts-address_dicts (c ∷ cs) ((ip, prefix, parsed, ne, same), h) =
      ap (λ o. address_texts (if_some (address_dict o) (address_dicts net cs))) parsed
      ∙ ap₂ (◌++◌) (address_text-address_dict ip prefix ne) (address_texts-address_dicts cs h)
      ∙ ap (λ x. x ∷ cs) same

  u32_texts-ip4_numbers :
      (ds : List Text) → All (IsIp4 net) ds → u32_texts (ip4_numbers net ds) ≡ ds
  unfolding u32_texts ip4_numbers ip4_to_u32 u32_to_ip4
  u32_texts-ip4_numbers [] h = refl
  u32_texts-ip4_numbers (x ∷ ds) ((a, b, c, d, parsed, (ha, hb, hc, hd), same), h) =
      ap
        (λ o.
          u32_texts (
            if_some (elim o [ none ↦ none | some q ↦ some (bytes_to_u32 q) ]) (ip4_numbers net ds)))
        parsed
      ∙ ap₂ (◌∷◌) (ap dotted (u32_to_bytes-bytes_to_u32 a b c d ha hb hc hd) ∙ same)
          (u32_texts-ip4_numbers ds h)

  ip6_texts-ip6_arrays :
      (ds : List Text) → All (IsIp6 net) ds → ip6_texts net (ip6_arrays net ds) ≡ ds
  unfolding ip6_texts ip6_arrays
  ip6_texts-ip6_arrays [] h = refl
  ip6_texts-ip6_arrays (x ∷ ds) ((b, parsed, len, same), h) =
      let full : (length b == 16) ≡ true = ground (arith, len) in
      ap (λ o. ip6_texts net (if_some o (ip6_arrays net ds))) parsed
      ∙ ap
          (λ c.
            if c
            then net.ip6_string b ∷ ip6_texts net (ip6_arrays net ds)
            else ip6_texts net (ip6_arrays net ds))
          full
      ∙ ap₂ (◌∷◌) same (ip6_texts-ip6_arrays ds h)

  numbers_of : (us : List ℕ) → dns_of net (text "ipv4") (unless_empty uint32s us) ≡ u32_texts us
  unfolding literals u32_texts
  numbers_of [] = refl
  numbers_of (u ∷ us) = refl

  arrays_of :
      (bs : List Text) → dns_of net (text "ipv6") (unless_empty byte_arrays bs) ≡ ip6_texts net bs
  unfolding literals ip6_texts
  arrays_of [] = refl
  arrays_of (b ∷ bs) = refl

  pub dns_of-ipv4 :
      (ds : List Text)
      → All (IsIp4 net) ds
      → dns_of net (text "ipv4") (dns_variant net (text "ipv4") ds) ≡ ds
  unfolding literals dns_variant
  dns_of-ipv4 ds h = numbers_of (ip4_numbers net ds) ∙ u32_texts-ip4_numbers ds h

  pub dns_of-ipv6 :
      (ds : List Text)
      → All (IsIp6 net) ds
      → dns_of net (text "ipv6") (dns_variant net (text "ipv6") ds) ≡ ds
  unfolding literals dns_variant
  dns_of-ipv6 ds h = arrays_of (ip6_arrays net ds) ∙ ip6_texts-ip6_arrays ds h
