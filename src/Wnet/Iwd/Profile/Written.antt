-- ===== src/Wnet/Iwd/Profile/Written.antt =====
-- `parseINI` of internal/wnet/iwd/profile.go reads what `renderProfile` writes.
use wfm.Prelude.{
  Bool, true, false, List, [], ◌∷◌, ◌++◌, ◌≡◌, ◌≢◌, ◌⊎◌, inl, inr, refl, arith, Text, text, text_eq,
  nat_eq, if◌then◌else◌, All, trim_space, trim_left, trim_right, is_space, has_prefix, has_suffix,
  join,
}
use wfm.Wnet.Types.{SecurityKind, sec_open, sec_psk, sec_enterprise, security_kind_eq}
use wfm.Wnet.Iwd.Profile.{
  line, header, optional_line, dns_line, domain_line, security_text, settings_text, bool_str,
}
use wfm.Wnet.Iwd.Profile.Ini.{Reading, read_trimmed}
use wfm.Wnet.Iwd.Profile.Words.{IsWord, join-IsValue}
use wfm.Wnet.Iwd.Profile.Lines.{
  IsValue, IsKey, Reads, Reads-append, Reads-line, Reads-blank, Reads-entry, at,
}

abbrev pub Entries : Type 0
Entries = List (Text × Text × Text)

-- A value that is only set if there is one.
abbrev pub put : Text → Text → Text → Entries → Entries
put section k [] es = es
put section k (c ∷ v) es = (section, k, c ∷ v) ∷ es

abbrev pub IsOptional : Text → Type 0
IsOptional v = (v ≡ []) ⊎ IsValue v

-- Only the first search domain is written.
abbrev pub IsFirstValue : List Text → Type 0
IsFirstValue [] = Unit
IsFirstValue (d ∷ search) = IsValue d

abbrev pub dns_entry : Text → List Text → Entries → Entries
dns_entry section [] es = es
dns_entry section (d ∷ dns) es = (section, text "DNS", join (d ∷ dns) (text " ")) ∷ es

abbrev pub domain_entry : Text → List Text → Entries → Entries
domain_entry section [] es = es
domain_entry section (d ∷ search) es = (section, text "DomainName", d) ∷ es

keys : Unit {0}
unfolding trim_space trim_left trim_right is_space text_eq nat_eq has_prefix has_suffix
keys = tt

dns-IsKey : IsKey (text "DNS")
unfolding keys
dns-IsKey = ground arith

domain-IsKey : IsKey (text "DomainName")
unfolding keys
domain-IsKey = ground arith

passphrase-IsKey : IsKey (text "Passphrase")
unfolding keys
passphrase-IsKey = ground arith

autoconnect-IsKey : IsKey (text "AutoConnect")
unfolding keys
autoconnect-IsKey = ground arith

hidden-IsKey : IsKey (text "Hidden")
unfolding keys
hidden-IsKey = ground arith

pub address-IsKey : IsKey (text "Address")
unfolding keys
address-IsKey = ground arith

pub netmask-IsKey : IsKey (text "Netmask")
unfolding keys
netmask-IsKey = ground arith

pub gateway-IsKey : IsKey (text "Gateway")
unfolding keys
gateway-IsKey = ground arith

pub enabled-IsKey : IsKey (text "Enabled")
unfolding keys
enabled-IsKey = ground arith

pub bool_str-IsValue : (b : Bool) → IsValue (bool_str b)
unfolding keys
bool_str-IsValue true = ground arith
bool_str-IsValue false = ground arith

pub Reads-nothing : (r : Reading) → Reads [] r r
Reads-nothing r = record { reads = λ rest. refl }

module _ (section : Text) (named : section ≢ []) (opened : List Text) where
  pub optional-Reads :
      (k v : Text) (es : Entries)
      → IsKey k
      → IsOptional v
      → Reads (optional_line k v) (at section opened es) (at section opened (put section k v es))
  unfolding text_eq
  optional-Reads k [] es key h = Reads-nothing _
  optional-Reads k (c ∷ v) es key (inl e) = absurd (ground (arith, e))
  optional-Reads k (c ∷ v) es key (inr value) =
      Reads-entry k (c ∷ v) key value section opened es named

  pub dns-Reads :
      (dns : List Text) (es : Entries)
      → All IsWord dns
      → Reads (dns_line dns) (at section opened es) (at section opened (dns_entry section dns es))
  dns-Reads [] es h = Reads-nothing _
  dns-Reads (d ∷ dns) es h =
      Reads-entry (text "DNS") (join (d ∷ dns) (text " ")) dns-IsKey (join-IsValue d dns h) section
        opened es named

  pub domain-Reads :
      (search : List Text) (es : Entries)
      → IsFirstValue search
      → Reads
          (domain_line search)
          (at section opened es)
          (at section opened (domain_entry section search es))
  domain-Reads [] es h = Reads-nothing _
  domain-Reads (d ∷ search) es h =
      Reads-entry (text "DomainName") d domain-IsKey h section opened es named

header_Security :
    (r : Reading)
    → Reads
        (header (text "Security"))
        r
        (at (text "Security") (text "Security" ∷ r.ini.sections) r.ini.entries)
unfolding keys read_trimmed
header_Security r = Reads-line (text "[Security]") r (ground arith) refl refl

header_Settings :
    (r : Reading)
    → Reads
        (header (text "Settings"))
        r
        (at (text "Settings") (text "Settings" ∷ r.ini.sections) r.ini.entries)
unfolding keys read_trimmed
header_Settings r = Reads-line (text "[Settings]") r (ground arith) refl refl

pub header_IPv4 :
    (r : Reading)
    → Reads (header (text "IPv4")) r (at (text "IPv4") (text "IPv4" ∷ r.ini.sections) r.ini.entries)
unfolding keys read_trimmed
header_IPv4 r = Reads-line (text "[IPv4]") r (ground arith) refl refl

pub header_IPv6 :
    (r : Reading)
    → Reads (header (text "IPv6")) r (at (text "IPv6") (text "IPv6" ∷ r.ini.sections) r.ini.entries)
unfolding keys read_trimmed
header_IPv6 r = Reads-line (text "[IPv6]") r (ground arith) refl refl

-- The passphrase that is written.
abbrev pub stored : SecurityKind → Text → Text
stored sec_psk passphrase = passphrase
stored _ passphrase = []

abbrev pub secured : Text → Reading
secured [] = at [] [] []
secured (c ∷ p) =
    at (text "Security") (text "Security" ∷ []) ((text "Security", text "Passphrase", c ∷ p) ∷ [])

pub security-Reads :
    (kind : SecurityKind) (passphrase : Text)
    → IsOptional (stored kind passphrase)
    → Reads (security_text kind passphrase) (at [] [] []) (secured (stored kind passphrase))
unfolding security_kind_eq text_eq
security-Reads sec_open passphrase h = Reads-nothing _
security-Reads sec_enterprise passphrase h = Reads-nothing _
security-Reads sec_psk [] h = Reads-nothing _
security-Reads sec_psk (c ∷ p) (inl e) = absurd (ground (arith, e))
security-Reads sec_psk (c ∷ p) (inr value) =
    Reads-append (header (text "Security")) (line (text "Passphrase") (c ∷ p) ++ b'\n' ∷ [])
      (header_Security _)
      (Reads-append (line (text "Passphrase") (c ∷ p)) (b'\n' ∷ [])
        (Reads-entry (text "Passphrase") (c ∷ p) passphrase-IsKey value (text "Security") _ _
          (ground arith))
        (Reads-blank _))

abbrev pub hidden_entry : Bool → Entries → Entries
hidden_entry true es = (text "Settings", text "Hidden", text "true") ∷ es
hidden_entry false es = es

abbrev pub settings_entries : Bool → Bool → Entries → Entries
settings_entries autoconnect hidden es =
    hidden_entry hidden ((text "Settings", text "AutoConnect", bool_str autoconnect) ∷ es)

hidden-Reads :
    (hidden : Bool) (opened : List Text) (es : Entries)
    → Reads
        (if hidden then line (text "Hidden") (text "true") else [])
        (at (text "Settings") opened es)
        (at (text "Settings") opened (hidden_entry hidden es))
hidden-Reads true opened es =
    Reads-entry (text "Hidden") (text "true") hidden-IsKey (bool_str-IsValue true) (text "Settings")
      opened es (ground arith)
hidden-Reads false opened es = Reads-nothing _

pub settings-Reads :
    (autoconnect hidden : Bool) (r : Reading)
    → Reads (settings_text autoconnect hidden) r (
        at
          (text "Settings")
          (text "Settings" ∷ r.ini.sections)
          (settings_entries autoconnect hidden r.ini.entries))
settings-Reads autoconnect hidden r =
    Reads-append (header (text "Settings")) _ (header_Settings r) (
      Reads-append (line (text "AutoConnect") (bool_str autoconnect)) _
        (Reads-entry (text "AutoConnect") (bool_str autoconnect) autoconnect-IsKey
          (bool_str-IsValue autoconnect) (text "Settings") _ _ (ground arith))
        (hidden-Reads hidden _ _))
