-- ===== src/Wnet/Iwd/Profile/RoundTrip.antt =====
-- `parseProfile` reads the settings that `renderProfile` of internal/wnet/iwd/profile.go writes.
use wfm.Prelude.{
  Bool, true, false, [], ◌∷◌, Option, ◌≡◌, ◌∙◌, refl, ap, Text, text, text_eq, nat_eq, ◌==◌,
  to_lower, lower_byte, trim_space, trim_left, trim_right, is_space,
}
use wfm.Wnet.Types.{SecurityKind, IpConfig, Profile}
use wfm.Wnet.Iwd.Convert.{type_to_sec_kind}
use wfm.Wnet.Iwd.Profile.{
  NetLib, render_profile, parse_profile, manual_address, ipv4_section, security_text, settings_text,
  bool_str, parse_bool, parsed_or, read_ipv4, read_ipv6,
}
use wfm.Wnet.Iwd.Profile.Ini.{Reading, parse_ini, find_entry, or_empty, lookup, lookup_text}
use wfm.Wnet.Iwd.Profile.Lines.{Reads, Reads-append, at}
use wfm.Wnet.Iwd.Profile.Written.{IsOptional, stored, secured, security-Reads, settings-Reads}
use wfm.Wnet.Iwd.Profile.Lookups.{settings_past, secured_past}
use wfm.Wnet.Iwd.Profile.Sections.{
  Given4, read4-section4, Section4, section4, IsPlain4, IsPlain6, read4, read6, after4, after6,
  section4-Reads, section6-Reads, parse_ini_of,
}
use wfm.Wnet.Iwd.Profile.Values.{
  base, base_none, base_section4, base_section6, after6_past, after4_past, after6_section,
  after4_section, read_ipv4_cong, read4_written, read6_written,
}

parse_bool-bool_str : (b def : Bool) → parse_bool (bool_str b) def ≡ b
unfolding parse_bool to_lower lower_byte trim_space trim_left trim_right is_space text_eq nat_eq
parse_bool-bool_str true def = refl
parse_bool-bool_str false def = refl

-- The state behind a whole file.
abbrev written : Bool → Bool → Text → Section4 → Option (IpConfig × Text) → Reading
written autoconnect hidden v s4 s6 = after6 s6 (after4 s4 (base autoconnect hidden v))

render-Reads :
    (net : NetLib) (kind : SecurityKind) (passphrase : Text) (autoconnect hidden : Bool)
    (ipv4 ipv6 : Option IpConfig)
    → IsOptional (stored kind passphrase)
    → IsPlain4 (section4 net (manual_address ipv4))
    → IsPlain6 (manual_address ipv6)
    → Reads (render_profile net kind passphrase autoconnect hidden ipv4 ipv6) (at [] [] []) (
        written autoconnect hidden
          (stored kind passphrase)
          (section4 net (manual_address ipv4))
          (manual_address ipv6))
unfolding render_profile
render-Reads net kind passphrase autoconnect hidden ipv4 ipv6 h h4 h6 =
    Reads-append (security_text kind passphrase) _ (security-Reads kind passphrase h) (
      Reads-append (settings_text autoconnect hidden) _ (settings-Reads autoconnect hidden _) (
        Reads-append (ipv4_section net (manual_address ipv4)) _
          (section4-Reads net (manual_address ipv4) _ h4)
          (section6-Reads net (manual_address ipv6) _ h6)))

base_passphrase :
    (autoconnect hidden : Bool) (v : Text)
    → or_empty
        (find_entry (base autoconnect hidden v).ini.entries (text "Security") (text "Passphrase"))
      ≡ v
unfolding text_eq nat_eq
base_passphrase autoconnect hidden v =
    ap or_empty (
      settings_past autoconnect hidden (secured v).ini.entries (text "Security") (text "Passphrase")
        refl)
    ∙ kept v
  where
    kept :
        (v : Text)
        → or_empty (find_entry (secured v).ini.entries (text "Security") (text "Passphrase")) ≡ v
    kept [] = refl
    kept (c ∷ v) = refl

base_hidden :
    (autoconnect hidden : Bool) (v : Text)
    → parsed_or false
        (find_entry (base autoconnect hidden v).ini.entries (text "Settings") (text "Hidden"))
      ≡ hidden
unfolding text_eq nat_eq
base_hidden autoconnect true v = parse_bool-bool_str true false
base_hidden autoconnect false v =
    ap (parsed_or false) (secured_past v (text "Settings") (text "Hidden") refl)

base_autoconnect :
    (autoconnect hidden : Bool) (v : Text)
    → parsed_or true
        (find_entry (base autoconnect hidden v).ini.entries (text "Settings") (text "AutoConnect"))
      ≡ autoconnect
unfolding text_eq nat_eq
base_autoconnect autoconnect true v = parse_bool-bool_str autoconnect true
base_autoconnect autoconnect false v = parse_bool-bool_str autoconnect true

-- The settings that are read back, whatever IP sections follow.
module _ (autoconnect hidden : Bool) (v : Text) (s4 : Section4)
    (s6 : Option (IpConfig × Text)) where
  abbrev found : Text → Text → Option Text
  found section key = lookup (written autoconnect hidden v s4 s6).ini section key

  found_past :
      (section key : Text)
      → (text "IPv6" == section) ≡ false
      → (text "IPv4" == section) ≡ false
      → found section key ≡ find_entry (base autoconnect hidden v).ini.entries section key
  found_past section key h6 h4 =
      after6_past s6 (after4 s4 (base autoconnect hidden v)) section key h6
      ∙ after4_past s4 (base autoconnect hidden v) section key h4

  found_passphrase : or_empty (found (text "Security") (text "Passphrase")) ≡ v
  unfolding text_eq nat_eq
  found_passphrase =
      ap or_empty (found_past (text "Security") (text "Passphrase") refl refl)
      ∙ base_passphrase autoconnect hidden v

  found_hidden : parsed_or false (found (text "Settings") (text "Hidden")) ≡ hidden
  unfolding text_eq nat_eq
  found_hidden =
      ap (parsed_or false) (found_past (text "Settings") (text "Hidden") refl refl)
      ∙ base_hidden autoconnect hidden v

  found_autoconnect : parsed_or true (found (text "Settings") (text "AutoConnect")) ≡ autoconnect
  unfolding text_eq nat_eq
  found_autoconnect =
      ap (parsed_or true) (found_past (text "Settings") (text "AutoConnect") refl refl)
      ∙ base_autoconnect autoconnect hidden v

  found_ipv4 :
      (net : NetLib)
      → IsPlain4 s4
      → read_ipv4 net (written autoconnect hidden v s4 s6).ini ≡ read4 net s4
  unfolding text_eq nat_eq
  found_ipv4 net h =
      read_ipv4_cong net (written autoconnect hidden v s4 s6).ini
        (after4 s4 (base autoconnect hidden v)).ini
        (after6_section s6 (after4 s4 (base autoconnect hidden v)))
        (λ key. after6_past s6 (after4 s4 (base autoconnect hidden v)) (text "IPv4") key refl)
      ∙ read4_written net s4 (base autoconnect hidden v) h (base_section4 autoconnect hidden v)
          (λ key. base_none autoconnect hidden v (text "IPv4") key refl refl)

  found_ipv6 : IsPlain6 s6 → read_ipv6 (written autoconnect hidden v s4 s6).ini ≡ read6 s6
  unfolding text_eq nat_eq
  found_ipv6 h =
      read6_written s6 (after4 s4 (base autoconnect hidden v)) h
        (after4_section s4 (base autoconnect hidden v) ∙ base_section6 autoconnect hidden v)
        (λ key.
          after4_past s4 (base autoconnect hidden v) (text "IPv6") key refl
          ∙ base_none autoconnect hidden v (text "IPv6") key refl refl)

module _ (net : NetLib) (derive_id : Text → Text → Text) (ssid type : Text) (kind : SecurityKind)
    (passphrase : Text) (autoconnect hidden : Bool) (ipv4 ipv6 : Option IpConfig)
    (cfg4 : IpConfig) where
  abbrev content : Text
  content = render_profile net kind passphrase autoconnect hidden ipv4 ipv6

  -- What a file is read back as.
  abbrev pub read_back : Profile
  read_back = record {
    id = derive_id ssid type;
    name = ssid;
    ssid = ssid;
    hidden = hidden;
    autoconnect = autoconnect;
    security = record { kind = type_to_sec_kind type; passphrase = [] };
    ipv4 = cfg4;
    ipv6 = read6 (manual_address ipv6);
  }

  read_back_eq :
      {is_hidden connects : Bool} {v4 v6 : IpConfig}
      → is_hidden ≡ hidden
      → connects ≡ autoconnect
      → v4 ≡ read_back.ipv4
      → v6 ≡ read_back.ipv6
      → record read_back { hidden = is_hidden; autoconnect = connects; ipv4 = v4; ipv6 = v6 }
        ≡ read_back
  read_back_eq a b c d = rw (a, b, c, d) refl

  -- The content made for a profile is parsed with the same flags, and for each address family with
  -- the first address, the gateway and the servers, and for IPv4 the first search domain, of a
  -- manual configuration that has an address, or else as automatic; and the passphrase of a
  -- pre-shared key is found in it. An IPv4 address that is neither an address nor one with a prefix
  -- is read as automatic; one with a prefix is written as `net` prints it, and its mask is parsed as
  -- it is printed. The values are on one line without white space around them, and the servers have
  -- no white space.
  pub parse_profile-render_profile :
      IsOptional (stored kind passphrase)
      → IsPlain4 (section4 net (manual_address ipv4))
      → IsPlain6 (manual_address ipv6)
      → Given4 net (manual_address ipv4) cfg4
      → (parse_profile net derive_id ssid type
            (render_profile net kind passphrase autoconnect hidden ipv4 ipv6)
          ≡ read_back)
        × (lookup_text
              (parse_ini (render_profile net kind passphrase autoconnect hidden ipv4 ipv6))
              (text "Security")
              (text "Passphrase")
            ≡ stored kind passphrase)
  unfolding parse_profile
  parse_profile-render_profile h h4 h6 given =
      let s4 = section4 net (manual_address ipv4) in
      let s6 = manual_address ipv6 in
      let v = stored kind passphrase in
      let parsed =
        parse_ini_of content (written autoconnect hidden v s4 s6)
          (render-Reads net kind passphrase autoconnect hidden ipv4 ipv6 h h4 h6) in
      (
        read_back_eq
            (ap (λ i. parsed_or false (lookup i (text "Settings") (text "Hidden"))) parsed
              ∙ found_hidden autoconnect hidden v s4 s6)
            (ap (λ i. parsed_or true (lookup i (text "Settings") (text "AutoConnect"))) parsed
              ∙ found_autoconnect autoconnect hidden v s4 s6)
            (ap (read_ipv4 net) parsed
              ∙ found_ipv4 autoconnect hidden v s4 s6 net h4
              ∙ read4-section4 net (manual_address ipv4) cfg4 given)
            (ap read_ipv6 parsed ∙ found_ipv6 autoconnect hidden v s4 s6 h6),
        ap (λ i. lookup_text i (text "Security") (text "Passphrase")) parsed
            ∙ found_passphrase autoconnect hidden v s4 s6,
      )
