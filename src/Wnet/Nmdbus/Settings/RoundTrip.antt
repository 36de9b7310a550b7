-- ===== src/Wnet/Nmdbus/Settings/RoundTrip.antt =====
-- What internal/wnet/nmdbus/settings.go reads of the settings that it builds of a profile.
use wfm.Prelude.{
  Bool, true, false, [], some, ◌≡◌, ◌≢◌, ◌∙◌, refl, ap₂, text, text_eq, nat_eq, ◌==◌, if◌then◌else◌,
}
use wfm.Wnet.Types.{
  SecurityKind, sec_open, sec_psk, sec_enterprise, security_kind_eq, IpConfig, Profile, ProfileSpec,
}
use wfm.Wnet.Nmdbus.Convert.{AddressLib, security_from_key_mgmt}
use wfm.Wnet.Nmdbus.Variants.{s_get, s_string, s_bool, s_bytes}
use wfm.Wnet.Nmdbus.Settings.{
  ip_section, build_settings, ip_config_from_settings, profile_from_settings,
}
use wfm.Wnet.Nmdbus.Settings.Addresses.{IsIp4, IsIp6, IsWritable, dns_of-ipv4, dns_of-ipv6}
use wfm.Wnet.Nmdbus.Settings.Sections.{read_group, read_section}

literals : Unit {0}
unfolding text_eq nat_eq s_get s_string s_bool s_bytes build_settings security_from_key_mgmt
    security_kind_eq ip_config_from_settings profile_from_settings
literals = tt

-- The profile of a specification with two configurations, before it has an identifier.
abbrev pub profile_of : ProfileSpec → (ipv4 ipv6 : IpConfig) → Profile
profile_of spec ipv4 ipv6 = record {
  id = [];
  name = if spec.name == [] then spec.ssid else spec.name;
  ssid = spec.ssid;
  hidden = spec.hidden;
  autoconnect = spec.autoconnect;
  security = record { kind = spec.security.kind; passphrase = [] };
  ipv4 = ipv4;
  ipv6 = ipv6;
}

abbrev pub with_families : ProfileSpec → (ipv4 ipv6 : IpConfig) → ProfileSpec
with_families spec ipv4 ipv6 = record spec { ipv4 = some ipv4; ipv6 = some ipv6 }

module _ (net : AddressLib) where
  -- The settings, but for how the sections of the address families are read.
  read_settings :
      (spec : ProfileSpec) (ipv4 ipv6 : IpConfig) (hidden : Bool) (kind : SecurityKind)
      → kind ≢ sec_enterprise
      → let s = build_settings net (record (with_families spec ipv4 ipv6) {
        hidden = hidden;
        security = record { kind = kind; passphrase = spec.security.passphrase };
      }) in
        profile_from_settings net s
        ≡ profile_of
            (record spec {
              hidden = hidden;
              security = record { kind = kind; passphrase = spec.security.passphrase };
            })
            (read_group net (text "ipv4") (ip_section net (text "ipv4") (some ipv4)))
            (read_group net (text "ipv6") (ip_section net (text "ipv6") (some ipv6)))
  unfolding literals
  read_settings spec ipv4 ipv6 true sec_psk ne = refl
  read_settings spec ipv4 ipv6 true sec_open ne = refl
  read_settings spec ipv4 ipv6 false sec_psk ne = refl
  read_settings spec ipv4 ipv6 false sec_open ne = refl
  read_settings spec ipv4 ipv6 hidden sec_enterprise ne = absurd (ne refl)

  -- The settings built of a profile without enterprise security are read as the profile without
  -- its passphrase, named after its SSID if it has no name, for address families that are automatic
  -- or disabled and empty, or manual with addresses and servers written as they are printed.
  pub profile_from_settings-build_settings :
      (spec : ProfileSpec) (ipv4 ipv6 : IpConfig)
      → spec.security.kind ≢ sec_enterprise
      → IsWritable net IsIp4 ipv4
      → IsWritable net IsIp6 ipv6
      → profile_from_settings net (build_settings net (with_families spec ipv4 ipv6))
        ≡ profile_of spec ipv4 ipv6
  profile_from_settings-build_settings spec ipv4 ipv6 ne h4 h6 =
      read_settings spec ipv4 ipv6 spec.hidden spec.security.kind ne
      ∙ ap₂ (profile_of spec)
          (read_section net (text "ipv4") IsIp4 ipv4 (dns_of-ipv4 net ipv4.dns) h4)
          (read_section net (text "ipv6") IsIp6 ipv6 (dns_of-ipv6 net ipv6.dns) h6)
