-- ===== src/Wnet/Nmdbus/Convert.antt =====
-- internal/wnet/nmdbus/convert.go. The parsing of addresses by the package net is a parameter.
use wfm.Prelude.{
  ℕ, ◌+◌, ◌*◌, ◌/◌, ◌%◌, Bool, true, false, ◌||◌, List, [], ◌∷◌, ◌++◌, Option, none, some, Text,
  text, text_eq, nat_eq, ◌==◌, if◌then◌else◌,
}
use wfm.Wnet.Types.{
  KeyMgmt, key_none, key_wpa_psk, key_sae, key_wpa_eap, key_owe, sec_open, sec_psk, sec_enterprise,
  Security, ConnState, state_unspecified, state_idle, state_associating, state_authenticating,
  state_configuring, state_connected, state_failed, state_disconnecting,
}
use wfm.Wnet.Iwd.Profile.{decimal}

pub record AddressLib : Type 0 where
  -- `net.ParseCIDR`: the address as a text and the length of the prefix.
  pub parse_cidr : Text → Option (Text × ℕ)
  -- `net.ParseIP` of an IPv4 address: its four bytes.
  pub parse_ip4 : Text → Option (ℕ × ℕ × ℕ × ℕ)
  -- `net.ParseIP` of an address that is no IPv4 one: its 16 bytes.
  pub parse_ip6 : Text → Option Text
  -- `net.IP.String` of 16 bytes.
  pub ip6_string : Text → Text

-- `x & bit != 0`
abbrev pub has_bit : (x bit : ℕ) → Bool
has_bit x bit = x / bit % 2 == 1

abbrev pub if_set : Bool → KeyMgmt → List KeyMgmt
if_set true k = k ∷ []
if_set false k = []

abbrev pub or_default : (privacy : Bool) → List KeyMgmt → List KeyMgmt
or_default privacy [] = if privacy then key_wpa_psk ∷ [] else key_none ∷ []
or_default privacy (k ∷ ks) = k ∷ ks

unfoldable pub key_mgmt_from_flags : (flags wpa rsn : ℕ) → List KeyMgmt
key_mgmt_from_flags flags wpa rsn = or_default (has_bit flags 1) (
    if_set (has_bit rsn 1024) key_sae
    ++ if_set (has_bit rsn 512 || has_bit wpa 512) key_wpa_eap
    ++ if_set (has_bit rsn 2048 || has_bit rsn 4096) key_owe
    ++ if_set (has_bit rsn 256 || has_bit wpa 256) key_wpa_psk)

unfoldable pub map_device_state : ℕ → ConnState
map_device_state code =
    if code == 40 || code == 50
    then state_associating
    else if code == 60
    then state_authenticating
    else if code == 70 || code == 80 || code == 90
    then state_configuring
    else if code == 100
    then state_connected
    else if code == 110
    then state_disconnecting
    else if code == 120
    then state_failed
    else if code == 30
    then state_idle
    else state_unspecified

unfoldable pub security_from_key_mgmt : Text → Security
security_from_key_mgmt km =
    if km == [] || km == text "none"
    then record { kind = sec_open; passphrase = [] }
    else if km == text "wpa-eap"
    then record { kind = sec_enterprise; passphrase = [] }
    else record { kind = sec_psk; passphrase = [] }

-- The bytes in the order of a little-endian machine.
abbrev pub bytes_to_u32 : ℕ × ℕ × ℕ × ℕ → ℕ
bytes_to_u32 (a, b, c, d) = a + 256 * b + 65536 * c + 16777216 * d

abbrev pub u32_to_bytes : ℕ → ℕ × ℕ × ℕ × ℕ
u32_to_bytes u = (u % 256, u / 256 % 256, u / 65536 % 256, u / 16777216 % 256)

abbrev pub dotted : ℕ × ℕ × ℕ × ℕ → Text
dotted (a, b, c, d) = decimal a ++ b'.' ∷ (decimal b ++ b'.' ∷ (decimal c ++ b'.' ∷ decimal d))

-- `fmt.Sprintf("%s/%d", ...)`
abbrev pub cidr : Text → ℕ → Text
cidr address prefix = address ++ b'/' ∷ decimal prefix

unfoldable pub u32_to_ip4 : ℕ → Text
u32_to_ip4 u = dotted (u32_to_bytes u)

unfoldable pub ip4_to_u32 : AddressLib → Text → Option ℕ
ip4_to_u32 net s = elim (net.parse_ip4 s) [ none ↦ none | some q ↦ some (bytes_to_u32 q) ]
