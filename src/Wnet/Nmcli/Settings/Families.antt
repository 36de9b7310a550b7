-- ===== src/Wnet/Nmcli/Settings/Families.antt =====
-- The IP settings that internal/wnet/nmcli/backend.go hands to nmcli are those that it reads back.
use wfm.Prelude.{
  List, [], ◌∷◌, ◌++◌, some, ◌≡◌, ◌∙◌, ◌⊎◌, inl, inr, refl, sym, ap, arith, Text, text, text_eq,
  nat_eq, join, has_prefix, All, append_assoc, append-nil,
}
use wfm.Wnet.Types.{IpConfig, IpMethod, ip_auto, ip_manual, ip_disabled, ip_unspecified}
use wfm.Wnet.Nmcli.Terse.{Pairs, detail_get, detail_prefix}
use wfm.Wnet.Nmcli.Settings.{
  split_multi, method_of, ip_config_from_detail, list_arg, text_arg, manual_args, ip_args,
}
use wfm.Wnet.Nmcli.Settings.RoundTrip.{
  IsItem, Apart, pairs_of, setting, pairs_of-list, pairs_of-text, four, four_get, four_prefix,
  four_gateway, lists, lists_addresses, lists_dns, lists_search,
}

-- What a profile can be given: well-formed list items, and no addresses for other methods.
abbrev pub IsWritable : IpConfig → Type 0
IsWritable cfg =
    All IsItem cfg.addresses
    × All IsItem cfg.dns
    × All IsItem cfg.dns_search
    × ((cfg.method ≡ ip_manual)
        ⊎ (((cfg.method ≡ ip_auto) ⊎ (cfg.method ≡ ip_disabled))
            × (cfg.addresses ≡ [])
            × (cfg.gateway ≡ [])
            × (cfg.dns ≡ [])
            × (cfg.dns_search ≡ [])))

abbrev method_name : IpMethod → Text
method_name ip_unspecified = []
method_name ip_auto = text "auto"
method_name ip_manual = text "manual"
method_name ip_disabled = text "disabled"

-- The settings of the family of addresses `p`, in front of others.
given : Text → IpConfig → Pairs → Pairs
given p cfg ps =
    lists (p ++ text ".addresses") (p ++ text ".gateway") (p ++ text ".dns")
      (p ++ text ".dns-search") cfg.gateway cfg.addresses cfg.dns cfg.dns_search ps

abbrev family : Text → IpConfig → Pairs → Pairs
family p cfg ps = (p ++ text ".method", method_name cfg.method) ∷ given p cfg ps

assoc4 : (a b c d e : List Text) → a ++ b ++ c ++ d ++ e ≡ a ++ (b ++ (c ++ (d ++ e)))
assoc4 a b c d e =
    append_assoc (a ++ b ++ c) d e
    ∙ append_assoc (a ++ b) c (d ++ e)
    ∙ append_assoc a b (c ++ (d ++ e))

manual_pairs :
    (p : Text) (cfg : IpConfig) (rest : List Text)
    → IsWritable cfg
    → pairs_of (manual_args p cfg ++ rest) ≡ given p cfg (pairs_of rest)
unfolding manual_args given lists four
manual_pairs p cfg rest (ha, hd, hs, either) =
    ap pairs_of
      (assoc4 (list_arg _ cfg.addresses) (text_arg _ cfg.gateway) (list_arg _ cfg.dns) _ rest)
    ∙ pairs_of-list _ cfg.addresses _ ha (
        pairs_of-text _ cfg.gateway _
          (pairs_of-list _ cfg.dns _ hd (pairs_of-list _ cfg.dns_search rest hs refl)))

empty_given :
    (p : Text) (cfg : IpConfig) (ps : Pairs)
    → cfg.addresses ≡ []
    → cfg.gateway ≡ []
    → cfg.dns ≡ []
    → cfg.dns_search ≡ []
    → given p cfg ps ≡ ps
unfolding given lists four setting join
empty_given p cfg ps a g d s = rw (a, g, d, s) refl

args_pairs :
    (p : Text) (cfg : IpConfig) (rest : List Text)
    → IsWritable cfg
    → pairs_of (ip_args p (some cfg) ++ rest) ≡ family p cfg (pairs_of rest)
unfolding ip_args given
args_pairs p cfg rest (ha, hd, hs, inl manual) = rw manual (
    ap (◌∷◌ (p ++ text ".method", text "manual"))
      (manual_pairs p cfg rest (ha, hd, hs, inl manual)))
args_pairs p cfg rest (ha, hd, hs, inr (inl auto, a, g, d, s)) =
    rw (auto, empty_given p cfg (pairs_of rest) a g d s) refl
args_pairs p cfg rest (ha, hd, hs, inr (inr disabled, a, g, d, s)) =
    rw (disabled, empty_given p cfg (pairs_of rest) a g d s) refl

abbrev pub config :
    (method : IpMethod) (addresses : List Text) (gateway : Text) (dns search : List Text) → IpConfig
config method addresses gateway dns search = record {
  method = method;
  addresses = addresses;
  gateway = gateway;
  dns = dns;
  dns_search = search;
}

config_eq :
    (cfg : IpConfig) {method : IpMethod} {addresses : List Text} {gateway : Text}
    {dns search : List Text}
    → method ≡ cfg.method
    → addresses ≡ cfg.addresses
    → gateway ≡ cfg.gateway
    → dns ≡ cfg.dns
    → search ≡ cfg.dns_search
    → config method addresses gateway dns search ≡ cfg
config_eq cfg m a g d s = rw (m, a, g, d, s) refl

-- No setting of `q` is read under the name `k`.
abbrev Foreign : Text → Text → Type 0
Foreign q k =
    Apart (q ++ text ".method") k
    × Apart (q ++ text ".addresses") k
    × Apart (q ++ text ".gateway") k
    × Apart (q ++ text ".dns") k
    × Apart (q ++ text ".dns-search") k

Foreign-get :
    (q k : Text) (cfg : IpConfig) (ps : Pairs)
    → Foreign q k
    → detail_get (family q cfg ps) k ≡ detail_get ps k
unfolding detail_get given lists
Foreign-get q k cfg ps (m, a, g, d, s) = ground (
  arith,
  m,
  four_get (q ++ text ".addresses") (q ++ text ".gateway") (q ++ text ".dns")
      (q ++ text ".dns-search") (join cfg.addresses (text ",")) cfg.gateway
      (join cfg.dns (text ",")) (join cfg.dns_search (text ",")) ps k a g d s,
)

Foreign-prefix :
    (q k : Text) (cfg : IpConfig) (ps : Pairs)
    → Foreign q k
    → detail_prefix (family q cfg ps) k ≡ detail_prefix ps k
unfolding detail_prefix given lists
Foreign-prefix q k cfg ps (m, a, g, d, s) = ground (
  arith,
  m,
  four_prefix (q ++ text ".addresses") (q ++ text ".gateway") (q ++ text ".dns")
      (q ++ text ".dns-search") (join cfg.addresses (text ",")) cfg.gateway
      (join cfg.dns (text ",")) (join cfg.dns_search (text ",")) ps k a g d s,
)

-- The settings of `p` are told apart.
abbrev Distinct : Text → Type 0
Distinct p =
    let m = p ++ text ".method" in
    let a = p ++ text ".addresses" in
    let g = p ++ text ".gateway" in
    let d = p ++ text ".dns" in
    let s = p ++ text ".dns-search" in
    (Apart m a × Apart m g × Apart m d × Apart m s)
    × (Apart g a × Apart d a × Apart s a)
    × (Apart a g × Apart d g × Apart s g)
    × (Apart a d × Apart g d × Apart s d)
    × (Apart a s × Apart g s × Apart d s)

abbrev Absent : Text → Pairs → Type 0
Absent p ps =
    (detail_prefix ps (p ++ text ".addresses") ≡ [])
    × (detail_get ps (p ++ text ".gateway") ≡ [])
    × (detail_prefix ps (p ++ text ".dns") ≡ [])
    × (detail_prefix ps (p ++ text ".dns-search") ≡ [])

method_name_lem : (m : IpMethod) → method_of (method_name m) ≡ m
unfolding method_of text_eq nat_eq
method_name_lem ip_unspecified = refl
method_name_lem ip_auto = refl
method_name_lem ip_manual = refl
method_name_lem ip_disabled = refl

get_head : (k v : Text) (ps : Pairs) → detail_get ((k, v) ∷ ps) k ≡ v
unfolding detail_get
get_head k v ps = ground arith

get_tail : (j k v : Text) (ps : Pairs) → Apart j k → detail_get ((j, v) ∷ ps) k ≡ detail_get ps k
unfolding detail_get
get_tail j k v ps h = ground (arith, h)

prefix_tail :
    (j k v : Text) (ps : Pairs) → Apart j k → detail_prefix ((j, v) ∷ ps) k ≡ detail_prefix ps k
unfolding detail_prefix
prefix_tail j k v ps h = ground (arith, h)

own_read :
    (p : Text) (cfg : IpConfig) (ps : Pairs)
    → Distinct p
    → IsWritable cfg
    → Absent p ps
    → ip_config_from_detail (family p cfg ps) p ≡ cfg
unfolding ip_config_from_detail given lists
own_read p cfg ps ((ma, mg, md, ms), (ga, da, sa), (ag, dg, sg), (ad, gd, sd), (a_s, gs, ds))
      (ha, hd, hs, either) (na, ng, nd, ns) =
    config_eq cfg (ap method_of (get_head _ _ _) ∙ method_name_lem cfg.method)
      (ap split_multi (prefix_tail _ _ _ _ ma) ∙ lists_addresses _ _ _ _ _ _ _ _ _ ha ga da sa na)
      (get_tail _ _ _ _ mg ∙ four_gateway _ _ _ _ _ _ _ _ _ ag dg sg ng)
      (ap split_multi (prefix_tail _ _ _ _ md) ∙ lists_dns _ _ _ _ _ _ _ _ _ hd ad gd sd nd)
      (ap split_multi (prefix_tail _ _ _ _ ms) ∙ lists_search _ _ _ _ _ _ _ _ _ hs a_s gs ds ns)

-- No setting of `q` is read among those of `p`.
abbrev ApartFamilies : Text → Text → Type 0
ApartFamilies q p =
    Foreign q (p ++ text ".method")
    × Foreign q (p ++ text ".addresses")
    × Foreign q (p ++ text ".gateway")
    × Foreign q (p ++ text ".dns")
    × Foreign q (p ++ text ".dns-search")

Absent-family : (q p : Text) (cfg : IpConfig) → ApartFamilies q p → Absent p (family q cfg [])
unfolding detail_get detail_prefix
Absent-family q p cfg (m, a, g, d, s) = (
  Foreign-prefix q _ cfg [] a,
  Foreign-get q _ cfg [] g,
  Foreign-prefix q _ cfg [] d,
  Foreign-prefix q _ cfg [] s,
)

Foreign-read :
    (q p : Text) (cfg : IpConfig) (ps : Pairs)
    → ApartFamilies q p
    → ip_config_from_detail (family q cfg ps) p ≡ ip_config_from_detail ps p
unfolding ip_config_from_detail
Foreign-read q p cfg ps (m, a, g, d, s) =
    config_eq (ip_config_from_detail ps p) (ap method_of (Foreign-get q _ cfg ps m))
      (ap split_multi (Foreign-prefix q _ cfg ps a)) (Foreign-get q _ cfg ps g)
      (ap split_multi (Foreign-prefix q _ cfg ps d)) (ap split_multi (Foreign-prefix q _ cfg ps s))

Absent-nil : (p : Text) → Absent p []
unfolding detail_get detail_prefix
Absent-nil p = (refl, refl, refl, refl)

ipv4-Distinct : Distinct (text "ipv4")
unfolding text_eq nat_eq has_prefix
ipv4-Distinct = (
  (refl, refl, refl, refl),
  (refl, refl, refl),
  (refl, refl, refl),
  (refl, refl, refl),
  (refl, refl, refl),
)

ipv6-Distinct : Distinct (text "ipv6")
unfolding text_eq nat_eq has_prefix
ipv6-Distinct = (
  (refl, refl, refl, refl),
  (refl, refl, refl),
  (refl, refl, refl),
  (refl, refl, refl),
  (refl, refl, refl),
)

ipv4_apart : ApartFamilies (text "ipv4") (text "ipv6")
unfolding text_eq nat_eq has_prefix
ipv4_apart = (
  (refl, refl, refl, refl, refl),
  (refl, refl, refl, refl, refl),
  (refl, refl, refl, refl, refl),
  (refl, refl, refl, refl, refl),
  (refl, refl, refl, refl, refl),
)

ipv6_apart : ApartFamilies (text "ipv6") (text "ipv4")
unfolding text_eq nat_eq has_prefix
ipv6_apart = (
  (refl, refl, refl, refl, refl),
  (refl, refl, refl, refl, refl),
  (refl, refl, refl, refl, refl),
  (refl, refl, refl, refl, refl),
  (refl, refl, refl, refl, refl),
)

-- The arguments that set both address families of a profile, taken as settings and values, are
-- read back as the two configurations they were made from: for automatic and disabled families
-- without addresses, and for manual ones whose items are not empty, have no white space around
-- them and no comma.
pub ip_config-args :
    (c4 c6 : IpConfig)
    → IsWritable c4
    → IsWritable c6
    → (ip_config_from_detail
          (pairs_of (ip_args (text "ipv4") (some c4) ++ ip_args (text "ipv6") (some c6)))
          (text "ipv4")
        ≡ c4)
      × (ip_config_from_detail
            (pairs_of (ip_args (text "ipv4") (some c4) ++ ip_args (text "ipv6") (some c6)))
            (text "ipv6")
          ≡ c6)
ip_config-args c4 c6 h4 h6 =
    let v4 = text "ipv4" in
    let v6 = text "ipv6" in
    let written =
      args_pairs v4 c4 (ip_args v6 (some c6)) h4
      ∙ ap (family v4 c4)
          (ap pairs_of (sym (append-nil (ip_args v6 (some c6)))) ∙ args_pairs v6 c6 [] h6) in
    (
      ap (λ ps. ip_config_from_detail ps v4) written
          ∙ own_read v4 c4 (family v6 c6 []) ipv4-Distinct h4 (Absent-family v6 v4 c6 ipv6_apart),
      ap (λ ps. ip_config_from_detail ps v6) written
          ∙ Foreign-read v4 v6 c4 (family v6 c6 []) ipv4_apart
          ∙ own_read v6 c6 [] ipv6-Distinct h6 (Absent-nil v6),
    )
