-- ===== src/Wnet/Nmdbus/Settings/Sections.antt =====
-- What internal/wnet/nmdbus/settings.go reads of the sections of address families that it builds.
use wfm.Prelude.{
  List, [], ◌∷◌, ◌++◌, Option, none, some, ◌≡◌, ◌∙◌, inl, inr, refl, sym, ap, Text, text, text_eq,
  nat_eq, ◌==◌, if◌then◌else◌, All,
}
use wfm.Wnet.Types.{security_kind_eq, IpConfig, ip_auto, ip_manual, ip_disabled}
use wfm.Wnet.Nmdbus.Convert.{AddressLib}
use wfm.Wnet.Nmdbus.Variants.{str, Variant, strings, dicts, Group, lookup, as_string}
use wfm.Wnet.Nmdbus.Settings.{
  entry, unless_empty, addresses_of, search_of, address_dicts, dns_variant, manual_section,
  section_of, ip_section, method_of, dns_of,
}
use wfm.Wnet.Nmdbus.Settings.Addresses.{IsCidr, IsWritable, dicts_of, address_texts-address_dicts}

literals : Unit {0}
unfolding text_eq nat_eq
literals = tt

-- The four options of a section behind its method.
abbrev options : (m : Text) → (a g d s : Option Variant) → Group
options m a g d s =
    (text "method", str m)
    ∷ (entry (text "address-data") a
        ++ (entry (text "gateway") g
            ++ (entry (text "dns") d ++ (entry (text "dns-search") s ++ []))))

options_at :
    (m : Text) (a g d s : Option Variant)
    → (lookup (text "method") (options m a g d s) ≡ some (str m))
      × (lookup (text "address-data") (options m a g d s) ≡ a)
      × (lookup (text "gateway") (options m a g d s) ≡ g)
      × (lookup (text "dns") (options m a g d s) ≡ d)
      × (lookup (text "dns-search") (options m a g d s) ≡ s)
unfolding literals
options_at m none none none none = (refl, refl, refl, refl, refl)
options_at m none none none (some s) = (refl, refl, refl, refl, refl)
options_at m none none (some d) none = (refl, refl, refl, refl, refl)
options_at m none none (some d) (some s) = (refl, refl, refl, refl, refl)
options_at m none (some g) none none = (refl, refl, refl, refl, refl)
options_at m none (some g) none (some s) = (refl, refl, refl, refl, refl)
options_at m none (some g) (some d) none = (refl, refl, refl, refl, refl)
options_at m none (some g) (some d) (some s) = (refl, refl, refl, refl, refl)
options_at m (some a) none none none = (refl, refl, refl, refl, refl)
options_at m (some a) none none (some s) = (refl, refl, refl, refl, refl)
options_at m (some a) none (some d) none = (refl, refl, refl, refl, refl)
options_at m (some a) none (some d) (some s) = (refl, refl, refl, refl, refl)
options_at m (some a) (some g) none none = (refl, refl, refl, refl, refl)
options_at m (some a) (some g) none (some s) = (refl, refl, refl, refl, refl)
options_at m (some a) (some g) (some d) none = (refl, refl, refl, refl, refl)
options_at m (some a) (some g) (some d) (some s) = (refl, refl, refl, refl, refl)

strings_of : (xs : List Text) → search_of (unless_empty strings xs) ≡ xs
strings_of [] = refl
strings_of (x ∷ xs) = refl

gateway_of : (g : Text) → as_string (if g == [] then none else some (str g)) ≡ g
unfolding literals
gateway_of [] = refl
gateway_of (c ∷ g) = refl

module _ (net : AddressLib) where
  methods :
      (method_of net (text "manual") ≡ ip_manual)
      × (method_of net (text "auto") ≡ ip_auto)
      × (method_of net (text "disabled") ≡ ip_disabled)
  unfolding literals
  methods = (refl, refl, refl)

  -- The configuration that a group is read as.
  abbrev pub read_group : (group : Text) → Group → IpConfig
  read_group group g = record {
    method = method_of net (as_string (lookup (text "method") g));
    addresses = addresses_of (lookup (text "address-data") g);
    gateway = as_string (lookup (text "gateway") g);
    dns = dns_of net group (lookup (text "dns") g);
    dns_search = search_of (lookup (text "dns-search") g);
  }

  read_manual :
      (group : Text) (cfg : IpConfig)
      → cfg.method ≡ ip_manual
      → All (IsCidr net) cfg.addresses
      → dns_of net group (dns_variant net group cfg.dns) ≡ cfg.dns
      → read_group group (manual_section net group cfg) ≡ cfg
  read_manual group cfg manual addresses dns =
      let (m, a, g, d, s) =
        options_at (text "manual") (unless_empty dicts (address_dicts net cfg.addresses))
          (if cfg.gateway == [] then none else some (str cfg.gateway))
          (dns_variant net group cfg.dns) (unless_empty strings cfg.dns_search) in
      let pm : method_of net (as_string (lookup (text "method") (manual_section net group cfg)))
          ≡ cfg.method =
        ap (λ o. method_of net (as_string o)) m ∙ methods.0 ∙ sym manual in
      let pa =
        ap addresses_of a
        ∙ dicts_of (address_dicts net cfg.addresses)
        ∙ address_texts-address_dicts net cfg.addresses addresses in
      let pg = ap as_string g ∙ gateway_of cfg.gateway in
      let pd = ap (dns_of net group) d ∙ dns in
      let ps = ap search_of s ∙ strings_of cfg.dns_search in
      λ i. record { method = pm i; addresses = pa i; gateway = pg i; dns = pd i; dns_search = ps i }

  read_bare :
      (group : Text) (cfg : IpConfig) (m : Text)
      → method_of net m ≡ cfg.method
      → cfg.addresses ≡ []
      → cfg.gateway ≡ []
      → cfg.dns ≡ []
      → cfg.dns_search ≡ []
      → read_group group ((text "method", str m) ∷ []) ≡ cfg
  unfolding literals
  read_bare group cfg m e a g d s = λ i. record {
    method = e i;
    addresses = sym a i;
    gateway = sym g i;
    dns = sym d i;
    dns_search = sym s i;
  }

  -- A section of a configuration is read as it.
  pub read_section :
      (group : Text) (IsServer : AddressLib → Text → Type 0) (cfg : IpConfig)
      → (All (IsServer net) cfg.dns → dns_of net group (dns_variant net group cfg.dns) ≡ cfg.dns)
      → IsWritable net IsServer cfg
      → read_group group (ip_section net group (some cfg)) ≡ cfg
  unfolding ip_section
  read_section group IsServer cfg servers (inl (manual, addresses, dns)) =
      ap (λ m. read_group group (section_of net m group cfg)) manual
      ∙ read_manual group cfg manual addresses (servers dns)
  read_section group IsServer cfg servers (inr (inl auto, a, g, d, s)) =
      ap (λ m. read_group group (section_of net m group cfg)) auto
      ∙ (read_bare group cfg (text "auto") (methods.1 ∙ sym auto) a g d s)
  read_section group IsServer cfg servers (inr (inr off, a, g, d, s)) =
      ap (λ m. read_group group (section_of net m group cfg)) off
      ∙ (read_bare group cfg (text "disabled") (methods.2 ∙ sym off) a g d s)
