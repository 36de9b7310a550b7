-- ===== src/Wnet/Iwd/Profile/Sections.antt =====
-- The sections that `renderProfile` of internal/wnet/iwd/profile.go writes, read and looked up.
use wfm.Prelude.{
  ℕ, Bool, true, false, List, ◌≢◌, ◌++◌, arith, [], ◌∷◌, Option, none, some, ◌≡◌, ◌∙◌, refl, sym,
  ap, Text, text, text_eq, nat_eq, append-nil,
}
use wfm.Prelude.Splitting.{lines, split_on, split_if, drop_last_empty}
use wfm.Wnet.Types.{IpConfig, ip_manual}
use wfm.Wnet.Iwd.Profile.{
  NetLib, dotted, decimal, addr_netmask, cidr_to_addr_netmask, join_addr_netmask, ipv4_section,
  ipv6_section, ipv4_text, automatic, one_or_none,
}
use wfm.Wnet.Iwd.Profile.Ini.{Reading, parse_ini, read_lines}
use wfm.Wnet.Iwd.Profile.Lines.{IsValue, Reads, at}
use wfm.Wnet.Iwd.Profile.Written.{IsOptional, Reads-nothing, settings_entries}
use wfm.Wnet.Iwd.Profile.Addresses.{IsPlain, ipv4_entries, ipv6_entries, ipv4-Reads, ipv6-Reads}
use wfm.Wnet.Iwd.Profile.Lookups.{first_of}

-- An IPv4 section, with the address and the netmask of the first address.
abbrev pub Section4 : Type 0
Section4 = Option (IpConfig × Text × Text)

abbrev pub with_split : IpConfig → Option (Text × Text) → Section4
with_split cfg none = none
with_split cfg (some (addr, mask)) = some (cfg, addr, mask)

abbrev pub section4 : NetLib → Option (IpConfig × Text) → Section4
section4 net none = none
section4 net (some (cfg, addr)) = with_split cfg (cidr_to_addr_netmask net addr)

abbrev pub IsPlain4 : Section4 → Type 0
IsPlain4 none = Unit
IsPlain4 (some (cfg, addr, mask)) = IsPlain cfg × IsValue addr × IsOptional mask

abbrev pub IsPlain6 : Option (IpConfig × Text) → Type 0
IsPlain6 none = Unit
IsPlain6 (some (cfg, addr)) = IsPlain cfg × IsValue addr

-- An IPv4 section that gives a configuration with one address.
abbrev pub given4 : IpConfig → Text → IpConfig
given4 cfg addr = record {
  method = ip_manual;
  addresses = addr ∷ [];
  gateway = cfg.gateway;
  dns = cfg.dns;
  dns_search = one_or_none (first_of cfg.dns_search);
}

-- What is to be read for the first address of a manual configuration: that address, where it is
-- written as an address that stands alone, or as one with the length of its prefix; and nothing
-- where it is neither.
pub data Given4 (net : NetLib) : Option (IpConfig × Text) → IpConfig → Type 0 where
  not_manual : Given4 net none automatic
  malformed :
      {cfg : IpConfig} {addr : Text}
      → net.parse_cidr addr ≡ none
      → net.is_ip addr ≡ false
      → Given4 net (some (cfg, addr)) automatic
  alone :
      {cfg : IpConfig} {addr : Text}
      → net.parse_cidr addr ≡ none
      → net.is_ip addr ≡ true
      → Given4 net (some (cfg, addr)) (given4 cfg addr)
  prefixed :
      {cfg : IpConfig} {addr ip : Text} {a b c d : ℕ}
      → net.parse_cidr addr ≡ some (ip, a ∷ b ∷ c ∷ d ∷ [])
      → net.parse_ip4 (dotted (a ∷ b ∷ c ∷ d ∷ [])) ≡ some (a ∷ b ∷ c ∷ d ∷ [])
      → addr ≡ ip ++ b'/' ∷ decimal (net.mask_ones (a ∷ b ∷ c ∷ d ∷ []))
      → Given4 net (some (cfg, addr)) (given4 cfg addr)

-- What is read back for a section.
abbrev pub read4 : NetLib → Section4 → IpConfig
read4 net none = automatic
read4 net (some (cfg, addr, mask)) = given4 cfg (join_addr_netmask net addr mask)

append-≢ : (s t : Text) (c : ℕ) → s ++ c ∷ t ≢ []
append-≢ [] t c e = absurd (ground (arith, e))
append-≢ (x ∷ s) t c e = absurd (ground (arith, e))

join_alone : (net : NetLib) (addr : Text) → join_addr_netmask net addr [] ≡ addr
unfolding join_addr_netmask text_eq
join_alone net addr = refl

join_prefixed :
    (net : NetLib) (ip mask : Text) (bytes : List ℕ)
    → mask ≢ []
    → net.parse_ip4 mask ≡ some bytes
    → join_addr_netmask net ip mask ≡ ip ++ b'/' ∷ decimal (net.mask_ones bytes)
unfolding join_addr_netmask
join_prefixed net ip mask bytes h p = ground (arith, h, p)

pub read4-section4 :
    (net : NetLib) (manual : Option (IpConfig × Text)) (cfg4 : IpConfig)
    → Given4 net manual cfg4
    → read4 net (section4 net manual) ≡ cfg4
unfolding cidr_to_addr_netmask
read4-section4 net _ _ not_manual = refl
read4-section4 net _ _ (malformed {cfg} {addr} e i) = rw (e, i) refl
read4-section4 net _ _ (alone {cfg} {addr} e i) = rw (e, i) (ap (given4 cfg) (join_alone net addr))
read4-section4 net _ _ (prefixed {cfg} {addr} {ip} {a} {b} {c} {d} e p w) =
    ap (λ s. read4 net (with_split cfg (addr_netmask net addr s))) e
    ∙ ap (given4 cfg) (
        join_prefixed net ip (dotted (a ∷ b ∷ c ∷ d ∷ [])) _ (append-≢ (decimal a) _ b'.') p
        ∙ sym w)

abbrev pub read6 : Option (IpConfig × Text) → IpConfig
read6 none = automatic
read6 (some (cfg, addr)) = record {
  method = ip_manual;
  addresses = addr ∷ [];
  gateway = cfg.gateway;
  dns = cfg.dns;
  dns_search = [];
}

abbrev pub after4 : Section4 → Reading → Reading
after4 none r = r
after4 (some (cfg, addr, mask)) r =
    at (text "IPv4") (text "IPv4" ∷ r.ini.sections) (ipv4_entries cfg addr mask r.ini.entries)

abbrev pub after6 : Option (IpConfig × Text) → Reading → Reading
after6 none r = r
after6 (some (cfg, addr)) r =
    at (text "IPv6") (text "IPv6" ∷ r.ini.sections) (ipv6_entries cfg addr r.ini.entries)

abbrev pub settled : Bool → Bool → Reading → Reading
settled autoconnect hidden r =
    at (text "Settings") (text "Settings" ∷ r.ini.sections)
      (settings_entries autoconnect hidden r.ini.entries)

pub section4-Reads :
    (net : NetLib) (manual : Option (IpConfig × Text)) (r : Reading)
    → IsPlain4 (section4 net manual)
    → Reads (ipv4_section net manual) r (after4 (section4 net manual) r)
section4-Reads net none r h = Reads-nothing r
section4-Reads net (some (cfg, a)) r h = of_split (cidr_to_addr_netmask net a) h
  where
    of_split :
        (o : Option (Text × Text))
        → IsPlain4 (with_split cfg o)
        → Reads (ipv4_text cfg o) r (after4 (with_split cfg o) r)
    of_split none h = Reads-nothing r
    of_split (some (addr, mask)) (plain, value, netmask) =
        ipv4-Reads cfg addr mask r plain value netmask

pub section6-Reads :
    (net : NetLib) (manual : Option (IpConfig × Text)) (r : Reading)
    → IsPlain6 manual
    → Reads (ipv6_section net manual) r (after6 manual r)
section6-Reads net none r h = Reads-nothing r
section6-Reads net (some (cfg, addr)) r (plain, value) = ipv6-Reads cfg addr r plain value

lines_nil : lines [] ≡ []
unfolding lines split_on split_if drop_last_empty text_eq
lines_nil = refl

pub parse_ini_of :
    (content : Text) (r : Reading) → Reads content (at [] [] []) r → parse_ini content ≡ r.ini
unfolding parse_ini read_lines
parse_ini_of content r h =
    ap (λ s. (read_lines (lines s) (at [] [] [])).ini) (sym (append-nil content))
    ∙ ap (λ x. x.ini) (h.reads [])
    ∙ ap (λ ls. (read_lines ls r).ini) lines_nil
