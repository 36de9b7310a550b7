-- ===== src/Wnet/Nmcli/Settings.antt =====
-- internal/wnet/nmcli/backend.go: the settings of a profile as arguments and fields of nmcli.
pub mod RoundTrip
pub mod Families
use wfm.Prelude.{
  ℕ, Bool, true, false, ◌||◌, List, [], ◌∷◌, ◌++◌, map, Option, none, some, Text, text, text_eq,
  ◌==◌, ◌!=◌, if◌then◌else◌, trim_space, join, length, keep,
}
use wfm.Prelude.Splitting.{split_on}
use wfm.Wnet.Types.{
  Security, SecurityKind, sec_open, sec_psk, sec_enterprise, IpConfig, IpMethod, ip_unspecified,
  ip_auto, ip_manual, ip_disabled, Error, err_unsupported, ProfileSpec, ProfilePatch,
}
use wfm.Wnet.Backend.{Result, ok, err}
use wfm.Wnet.Nmcli.Terse.{Pairs, detail_get, detail_prefix}

abbrev pub profile_fields : List Text
profile_fields =
    text "connection.id"
    ∷ text "connection.autoconnect"
    ∷ text "802-11-wireless.ssid"
    ∷ text "802-11-wireless.hidden"
    ∷ text "802-11-wireless-security.key-mgmt"
    ∷ text "ipv4.method"
    ∷ text "ipv4.addresses"
    ∷ text "ipv4.gateway"
    ∷ text "ipv4.dns"
    ∷ text "ipv4.dns-search"
    ∷ text "ipv6.method"
    ∷ text "ipv6.addresses"
    ∷ text "ipv6.gateway"
    ∷ text "ipv6.dns"
    ∷ text "ipv6.dns-search"
    ∷ []

-- The inner loop of `splitMulti`.
unfoldable pub split_value : Text → List Text
split_value v = keep (λ part. part != []) (map trim_space (split_on b',' v))

unfoldable pub split_multi : List Text → List Text
split_multi [] = []
split_multi (v ∷ vs) = split_value v ++ split_multi vs

unfoldable pub method_of : Text → IpMethod
method_of s =
    if s == text "auto"
    then ip_auto
    else if s == text "manual"
    then ip_manual
    else if s == text "disabled"
    then ip_disabled
    else ip_unspecified

unfoldable pub ip_config_from_detail : Pairs → (prefix : Text) → IpConfig
ip_config_from_detail pairs prefix = record {
  method = method_of (detail_get pairs (prefix ++ text ".method"));
  addresses = split_multi (detail_prefix pairs (prefix ++ text ".addresses"));
  gateway = detail_get pairs (prefix ++ text ".gateway");
  dns = split_multi (detail_prefix pairs (prefix ++ text ".dns"));
  dns_search = split_multi (detail_prefix pairs (prefix ++ text ".dns-search"));
}

unfoldable pub security_from_key_mgmt : Text → Security
security_from_key_mgmt km =
    if km == [] || km == text "none"
    then record { kind = sec_open; passphrase = [] }
    else if km == text "wpa-eap"
    then record { kind = sec_enterprise; passphrase = [] }
    else record { kind = sec_psk; passphrase = [] }

abbrev pub yesno : Bool → Text
yesno true = text "yes"
yesno false = text "no"

-- A key with its value, for a list that is not empty.
abbrev pub list_arg : Text → List Text → List Text
list_arg k [] = []
list_arg k (v ∷ vs) = k ∷ join (v ∷ vs) (text ",") ∷ []

abbrev pub text_arg : Text → Text → List Text
text_arg k v = if v != [] then k ∷ v ∷ [] else []

unfoldable pub manual_args : Text → IpConfig → List Text
manual_args prefix cfg =
    list_arg (prefix ++ text ".addresses") cfg.addresses
    ++ text_arg (prefix ++ text ".gateway") cfg.gateway
    ++ list_arg (prefix ++ text ".dns") cfg.dns
    ++ list_arg (prefix ++ text ".dns-search") cfg.dns_search

unfoldable pub ip_args : Text → Option IpConfig → List Text
ip_args prefix none = []
ip_args prefix (some cfg) =
    let method = prefix ++ text ".method" in
    elim cfg.method [
      | ip_auto ↦ method ∷ text "auto" ∷ []
      | ip_manual ↦ method ∷ text "manual" ∷ manual_args prefix cfg
      | ip_disabled ↦ method ∷ text "disabled" ∷ []
      | ip_unspecified ↦ []
    ]

abbrev pub psk_args : Text → List Text
psk_args passphrase =
    text "wifi-sec.key-mgmt" ∷ text "wpa-psk" ∷ text "wifi-sec.psk" ∷ passphrase ∷ []

-- The switch of `AddProfile`.
abbrev pub add_security : Security → Result (List Text)
add_security s = elim s.kind [
  | sec_psk ↦ ok (psk_args s.passphrase)
  | sec_enterprise ↦ err err_unsupported
  | sec_open ↦ ok []
]

-- The arguments of `AddProfile` around those of the security.
unfoldable pub add_args : ProfileSpec → (security : List Text) → List Text
add_args spec security =
    let con_name = if spec.name == [] then spec.ssid else spec.name in
    text "type"
    ∷ text "wifi"
    ∷ text "con-name"
    ∷ con_name
    ∷ text "ssid"
    ∷ spec.ssid
    ∷ text "802-11-wireless.hidden"
    ∷ yesno spec.hidden
    ∷ text "connection.autoconnect"
    ∷ yesno spec.autoconnect
    ∷ (security ++ ip_args (text "ipv4") spec.ipv4 ++ ip_args (text "ipv6") spec.ipv6)

-- The switch of `PatchProfile`, which clears the passphrase for an open network.
abbrev pub patch_security : Option Security → Result (List Text)
patch_security none = ok []
patch_security (some s) = elim s.kind [
  | sec_psk ↦ ok (psk_args s.passphrase)
  | sec_open ↦ ok (text "wifi-sec.key-mgmt" ∷ text "none" ∷ text "wifi-sec.psk" ∷ [] ∷ [])
  | sec_enterprise ↦ err err_unsupported
]

abbrev pub patch_text : Text → Option Text → List Text
patch_text k none = []
patch_text k (some v) = k ∷ v ∷ []

abbrev pub patch_bool : Text → Option Bool → List Text
patch_bool k none = []
patch_bool k (some v) = k ∷ yesno v ∷ []

unfoldable pub patch_args : ProfilePatch → (security : List Text) → List Text
patch_args patch security =
    patch_text (text "connection.id") patch.name
    ++ patch_text (text "802-11-wireless.ssid") patch.ssid
    ++ patch_bool (text "802-11-wireless.hidden") patch.hidden
    ++ patch_bool (text "connection.autoconnect") patch.autoconnect
    ++ security
    ++ ip_args (text "ipv4") patch.ipv4
    ++ ip_args (text "ipv6") patch.ipv6
