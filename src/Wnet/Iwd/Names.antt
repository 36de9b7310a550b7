-- ===== src/Wnet/Iwd/Names.antt =====
-- internal/wnet/iwd/profile.go: the file names of profiles.
pub mod RoundTrip
use wfm.Prelude.{
  ℕ, ◌+◌, ◌-◌, ◌*◌, ◌/◌, ◌%◌, Bool, true, false, ◌||◌, ◌&&◌, List, [], ◌∷◌, ◌++◌, Option, none,
  some, Text, text, text_eq, nat_eq, ◌==◌, leb, ltb, if◌then◌else◌,
}

abbrev pub simple_byte : ℕ → Bool
simple_byte c =
    (leb b'A' c && leb c b'Z')
    || (leb b'a' c && leb c b'z')
    || (leb b'0' c && leb c b'9')
    || c == b' '
    || c == b'_'
    || c == b'-'

-- The loop of `simpleSSID`.
unfoldable pub all_simple : Text → Bool
all_simple [] = true
all_simple (c ∷ s) = simple_byte c && all_simple s

unfoldable pub simple_ssid : Text → Bool
simple_ssid [] = false
simple_ssid (c ∷ s) = all_simple (c ∷ s)

abbrev pub hex_digit : ℕ → ℕ
hex_digit n = if ltb n 10 then b'0' + n else b'a' + (n - 10)

-- `hex.EncodeToString`
unfoldable pub encode_hex : Text → Text
encode_hex [] = []
encode_hex (c ∷ s) = hex_digit (c / 16) ∷ hex_digit (c % 16) ∷ encode_hex s

unfoldable pub hex_value : ℕ → Option ℕ
hex_value c =
    if leb b'0' c && leb c b'9'
    then some (c - b'0')
    else if leb b'a' c && leb c b'f'
    then some (c - b'a' + 10)
    else if leb b'A' c && leb c b'F'
    then some (c - b'A' + 10)
    else none

abbrev pub hex_byte : Option ℕ → Option ℕ → Option Text → Option Text
hex_byte (some a) (some b) (some s) = some ((a * 16 + b) ∷ s)
hex_byte (some a) (some b) none = none
hex_byte (some a) none s = none
hex_byte none b s = none

-- `hex.DecodeString`, `none` on an error.
unfoldable pub decode_hex : Text → Option Text
decode_hex [] = some []
decode_hex (c ∷ []) = none
decode_hex (c ∷ d ∷ s) = hex_byte (hex_value c) (hex_value d) (decode_hex s)

unfoldable pub encode_ssid : Text → Text
unfolding simple_ssid
encode_ssid ssid = if simple_ssid ssid then ssid else b'=' ∷ encode_hex ssid

-- `none` is `ok == false`.
unfoldable pub decode_ssid : Text → Option Text
decode_ssid [] = some []
decode_ssid (c ∷ name) = if c == b'=' then decode_hex name else some (c ∷ name)

unfoldable pub profile_filename : Text → (type : Text) → Text
profile_filename ssid type = encode_ssid ssid ++ b'.' ∷ type

-- The text around the last of a byte (`strings.LastIndexByte`).
unfoldable pub cut_last : ℕ → Text → Option (Text × Text)
cut_last sep [] = none
cut_last sep (c ∷ s) = elim (cut_last sep s) [
  | some (before, behind) ↦ some (c ∷ before, behind)
  | none ↦ if c == sep then some ([], s) else none
]

abbrev pub is_profile_type : Text → Bool
is_profile_type type = type == text "open" || type == text "psk" || type == text "8021x"

abbrev pub with_type : Text → Option Text → Option (Text × Text)
with_type type none = none
with_type type (some ssid) = some (ssid, type)

abbrev pub named : Option (Text × Text) → Option (Text × Text)
named none = none
named (some (name, type)) = if is_profile_type type then with_type type (decode_ssid name) else none

-- The SSID and the type.
unfoldable pub parse_profile_filename : Text → Option (Text × Text)
parse_profile_filename name = named (cut_last b'.' name)
