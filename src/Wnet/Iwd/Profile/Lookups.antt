-- ===== src/Wnet/Iwd/Profile/Lookups.antt =====
-- Values found among those that `renderProfile` of internal/wnet/iwd/profile.go writes.
use wfm.Prelude.{
  Bool, true, false, ◌&&◌, List, [], ◌∷◌, none, some, ◌≡◌, ◌∙◌, refl, ap, arith, Text, text,
  text_eq, nat_eq, ◌==◌, join,
}
use wfm.Wnet.Types.{IpConfig}
use wfm.Wnet.Iwd.Profile.{bool_str}
use wfm.Wnet.Iwd.Profile.Ini.{find_entry, or_empty}
use wfm.Wnet.Iwd.Profile.Written.{Entries, put, dns_entry, domain_entry, settings_entries, secured}
use wfm.Wnet.Iwd.Profile.Addresses.{ipv4_entries, ipv6_entries}

-- The value of one key is not that of another.
abbrev pub Other : (section key other other_key : Text) → Type 0
Other section key other other_key = (section == other && key == other_key) ≡ false

pub find_past :
    (s k v : Text) (es : Entries) (section key : Text)
    → Other s k section key
    → find_entry ((s, k, v) ∷ es) section key ≡ find_entry es section key
find_past s k v es section key h = rw h refl

pub find_here : (s k v : Text) (es : Entries) → find_entry ((s, k, v) ∷ es) s k ≡ some v
find_here s k v es = ground arith

pub put_past :
    (s k v : Text) (es : Entries) (section key : Text)
    → Other s k section key
    → find_entry (put s k v es) section key ≡ find_entry es section key
put_past s k [] es section key h = refl
put_past s k (c ∷ v) es section key h = find_past s k (c ∷ v) es section key h

pub put_here :
    (s k v : Text) (es : Entries)
    → find_entry es s k ≡ none
    → or_empty (find_entry (put s k v es) s k) ≡ v
put_here s k [] es h = ap or_empty h
put_here s k (c ∷ v) es h = ap or_empty (find_here s k (c ∷ v) es)

pub dns_past :
    (s : Text) (dns : List Text) (es : Entries) (section key : Text)
    → Other s (text "DNS") section key
    → find_entry (dns_entry s dns es) section key ≡ find_entry es section key
dns_past s [] es section key h = refl
dns_past s (d ∷ dns) es section key h =
    find_past s (text "DNS") (join (d ∷ dns) (text " ")) es section key h

pub domain_past :
    (s : Text) (search : List Text) (es : Entries) (section key : Text)
    → Other s (text "DomainName") section key
    → find_entry (domain_entry s search es) section key ≡ find_entry es section key
domain_past s [] es section key h = refl
domain_past s (d ∷ search) es section key h = find_past s (text "DomainName") d es section key h

pub dns_here :
    (s : Text) (dns : List Text) (es : Entries)
    → find_entry es s (text "DNS") ≡ none
    → or_empty (find_entry (dns_entry s dns es) s (text "DNS")) ≡ join dns (text " ")
unfolding join
dns_here s [] es h = ap or_empty h
dns_here s (d ∷ dns) es h = ap or_empty (find_here s (text "DNS") (join (d ∷ dns) (text " ")) es)

abbrev pub first_of : List Text → Text
first_of [] = []
first_of (d ∷ search) = d

pub domain_here :
    (s : Text) (search : List Text) (es : Entries)
    → find_entry es s (text "DomainName") ≡ none
    → or_empty (find_entry (domain_entry s search es) s (text "DomainName")) ≡ first_of search
domain_here s [] es h = ap or_empty h
domain_here s (d ∷ search) es h = ap or_empty (find_here s (text "DomainName") d es)

Other-section : (s k section key : Text) → (s == section) ≡ false → Other s k section key
Other-section s k section key h = rw h refl

pub ipv4_past :
    (cfg : IpConfig) (addr mask : Text) (es : Entries) (section key : Text)
    → (text "IPv4" == section) ≡ false
    → find_entry (ipv4_entries cfg addr mask es) section key ≡ find_entry es section key
ipv4_past cfg addr mask es section key h =
    let v4 = text "IPv4" in
    domain_past v4 cfg.dns_search _ section key (Other-section v4 _ section key h)
    ∙ dns_past v4 cfg.dns _ section key (Other-section v4 _ section key h)
    ∙ put_past v4 (text "Gateway") cfg.gateway _ section key (Other-section v4 _ section key h)
    ∙ put_past v4 (text "Netmask") mask _ section key (Other-section v4 _ section key h)
    ∙ find_past v4 (text "Address") addr es section key (Other-section v4 _ section key h)

pub ipv6_past :
    (cfg : IpConfig) (addr : Text) (es : Entries) (section key : Text)
    → (text "IPv6" == section) ≡ false
    → find_entry (ipv6_entries cfg addr es) section key ≡ find_entry es section key
ipv6_past cfg addr es section key h =
    let v6 = text "IPv6" in
    dns_past v6 cfg.dns _ section key (Other-section v6 _ section key h)
    ∙ put_past v6 (text "Gateway") cfg.gateway _ section key (Other-section v6 _ section key h)
    ∙ find_past v6 (text "Address") addr ((v6, text "Enabled", text "true") ∷ es) section key
        (Other-section v6 _ section key h)
    ∙ find_past v6 (text "Enabled") (text "true") es section key (Other-section v6 _ section key h)

pub settings_past :
    (autoconnect hidden : Bool) (es : Entries) (section key : Text)
    → (text "Settings" == section) ≡ false
    → find_entry (settings_entries autoconnect hidden es) section key ≡ find_entry es section key
settings_past autoconnect true es section key h =
    find_past (text "Settings") (text "Hidden") (text "true")
      ((text "Settings", text "AutoConnect", bool_str autoconnect) ∷ es) section key
      (Other-section (text "Settings") _ section key h)
    ∙ find_past (text "Settings") (text "AutoConnect") (bool_str autoconnect) es section key
        (Other-section (text "Settings") _ section key h)
settings_past autoconnect false es section key h =
    find_past (text "Settings") (text "AutoConnect") (bool_str autoconnect) es section key
      (Other-section (text "Settings") _ section key h)

pub secured_past :
    (v section key : Text)
    → (text "Security" == section) ≡ false
    → find_entry (secured v).ini.entries section key ≡ none
secured_past [] section key h = refl
secured_past (c ∷ v) section key h =
    find_past (text "Security") (text "Passphrase") (c ∷ v) [] section key
      (Other-section (text "Security") _ section key h)
