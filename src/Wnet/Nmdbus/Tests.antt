-- ===== src/Wnet/Nmdbus/Tests.antt =====
-- Settings of concrete profiles, and instances of what is proved of them.
use wfm.Prelude.{
  true, false, [], ◌∷◌, none, some, ◌≡◌, inl, inr, refl, arith, text, text_eq, nat_eq, ◌==◌,
  if◌then◌else◌,
}
use wfm.Wnet.Types.{
  sec_psk, security_kind_eq, IpConfig, ip_auto, ip_manual, ProfileSpec, ProfilePatch, key_sae,
  key_wpa_psk, key_none, state_connected,
}
use wfm.Wnet.Iwd.Profile.{decimal}
use wfm.Wnet.Nmdbus.Convert.{AddressLib, key_mgmt_from_flags, map_device_state}
use wfm.Wnet.Nmdbus.Variants.{str, NmSettings, s_get}
use wfm.Wnet.Nmdbus.Settings.{build_settings, profile_from_settings}
use wfm.Wnet.Nmdbus.Settings.Addresses.{IsIp4, IsIp6, IsWritable}
use wfm.Wnet.Nmdbus.Settings.RoundTrip.{
  profile_of, with_families, profile_from_settings-build_settings,
}
use wfm.Wnet.Nmdbus.Patching.{patch_settings}
use wfm.Wnet.Nmdbus.Patching.Frame.{touches, s_get-patch_settings}

converts :
    (key_mgmt_from_flags 1 0 1280 ≡ key_sae ∷ key_wpa_psk ∷ [])
    × (key_mgmt_from_flags 0 0 0 ≡ key_none ∷ [])
    × (map_device_state 100 ≡ state_connected)
unfolding key_mgmt_from_flags map_device_state nat_eq
converts = (refl, refl, refl)

-- Two addresses that are known.
abbrev known : AddressLib
known = record {
  parse_cidr = λ s. if s == text "10.0.0.2/24" then some (text "10.0.0.2", 24) else none;
  parse_ip4 = λ s. if s == text "1.1.1.1" then some (1, 1, 1, 1) else none;
  parse_ip6 = λ s. none;
  ip6_string = λ b. [];
}

abbrev manual : IpConfig
manual = record {
  method = ip_manual;
  addresses = text "10.0.0.2/24" ∷ [];
  gateway = text "10.0.0.1";
  dns = text "1.1.1.1" ∷ [];
  dns_search = text "lan" ∷ [];
}

abbrev automatic : IpConfig
automatic = record { method = ip_auto; addresses = []; gateway = []; dns = []; dns_search = [] }

manual-IsWritable : IsWritable known IsIp4 manual
unfolding text_eq nat_eq decimal
manual-IsWritable = inl (
  refl,
  ((text "10.0.0.2", 24, refl, ground arith, refl), tt),
  ((1, 1, 1, 1, refl, (omega arith, omega arith, omega arith, omega arith), refl), tt),
)

automatic-IsWritable : IsWritable known IsIp6 automatic
automatic-IsWritable = inr (inl refl, refl, refl, refl, refl)

abbrev home : ProfileSpec
home = record {
  name = [];
  ssid = text "home";
  hidden = true;
  autoconnect = false;
  security = record { kind = sec_psk; passphrase = text "12345678" };
  ipv4 = none;
  ipv6 = none;
}

profile_from_settings-build_settings_example :
    profile_from_settings known (build_settings known (with_families home manual automatic))
    ≡ profile_of home manual automatic
profile_from_settings-build_settings_example =
    profile_from_settings-build_settings known home manual automatic (λ e. ground (arith, e))
      manual-IsWritable automatic-IsWritable

abbrev renamed : ProfilePatch
renamed = record {
  name = some (text "flat");
  ssid = none;
  hidden = none;
  autoconnect = none;
  security = none;
  ipv4 = none;
  ipv6 = none;
}

abbrev stored : NmSettings
stored =
    (
      text "connection",
      (text "id", str (text "home")) ∷ (text "permissions", str (text "user:a")) ∷ [],
    )
    ∷ []

untouched : touches renamed (text "connection") (text "permissions") ≡ false
unfolding text_eq nat_eq
untouched = refl

s_get-patch_settings_example :
    s_get (patch_settings known renamed [] stored) (text "connection") (text "permissions")
    ≡ s_get stored (text "connection") (text "permissions")
s_get-patch_settings_example =
    s_get-patch_settings known renamed [] stored (text "connection") (text "permissions") untouched
