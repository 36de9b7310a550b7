-- ===== src/Wnet/Iwd/Names/RoundTrip.antt =====
-- A profile's file name tells its network: internal/wnet/iwd/profile.go.
use wfm.Prelude.{
  ℕ, ◌/◌, ◌%◌, ◌<◌, [], ◌∷◌, ◌++◌, none, some, ◌≡◌, ◌≢◌, ◌∙◌, refl, ap, arith, Text, text_eq,
  nat_eq, All,
}
use wfm.Wnet.Types.{SecurityKind, sec_open, sec_psk, sec_enterprise}
use wfm.Wnet.Iwd.Convert.{sec_kind_to_type, type_to_sec_kind}
use wfm.Wnet.Iwd.Names.{
  all_simple, simple_ssid, hex_digit, encode_hex, hex_value, decode_hex, encode_ssid, decode_ssid,
  profile_filename, cut_last, with_type, named, parse_profile_filename,
}

hex_value-hex_digit : (n : ℕ) → n < 16 → hex_value (hex_digit n) ≡ some n
unfolding hex_value
hex_value-hex_digit n h = ground arith

decode_hex-encode_hex : (s : Text) → All (λ c. c < 256) s → decode_hex (encode_hex s) ≡ some s
unfolding decode_hex encode_hex
decode_hex-encode_hex [] h = refl
decode_hex-encode_hex (c ∷ s) (lt, h) =
    rw
      (
        hex_value-hex_digit (c / 16) (omega (arith, lt)),
        hex_value-hex_digit (c % 16) (omega arith),
        decode_hex-encode_hex s h,
      )
      (ap (λ x. some (x ∷ s)) (omega arith))

decode_ssid-encode_ssid : (s : Text) → All (λ c. c < 256) s → decode_ssid (encode_ssid s) ≡ some s
unfolding decode_ssid encode_ssid simple_ssid all_simple
decode_ssid-encode_ssid [] h = ground (arith, decode_hex-encode_hex [] h)
decode_ssid-encode_ssid (c ∷ s) h = ground (arith, decode_hex-encode_hex (c ∷ s) h)

cut_last-none : (sep : ℕ) (s : Text) → All (λ c. c ≢ sep) s → cut_last sep s ≡ none
unfolding cut_last
cut_last-none sep [] h = refl
cut_last-none sep (c ∷ s) (n, h) = ground (arith, n, cut_last-none sep s h)

cut_last-append :
    (sep : ℕ) (s t : Text) → All (λ c. c ≢ sep) t → cut_last sep (s ++ sep ∷ t) ≡ some (s, t)
unfolding cut_last
cut_last-append sep [] t h = ground (arith, cut_last-none sep t h)
cut_last-append sep (c ∷ s) t h = ground (arith, cut_last-append sep s t h)

plain : (k : SecurityKind) → All (λ c. c ≢ b'.') (sec_kind_to_type k)
plain sec_open = ground arith
plain sec_psk = ground arith
plain sec_enterprise = ground arith

named_lem :
    (k : SecurityKind) (name : Text)
    → named (some (name, sec_kind_to_type k)) ≡ with_type (sec_kind_to_type k) (decode_ssid name)
unfolding text_eq nat_eq
named_lem sec_open name = refl
named_lem sec_psk name = refl
named_lem sec_enterprise name = refl

type_to_sec_kind-sec_kind_to_type : (k : SecurityKind) → type_to_sec_kind (sec_kind_to_type k) ≡ k
unfolding type_to_sec_kind text_eq nat_eq
type_to_sec_kind-sec_kind_to_type sec_open = refl
type_to_sec_kind-sec_kind_to_type sec_psk = refl
type_to_sec_kind-sec_kind_to_type sec_enterprise = refl

-- The file name made for an SSID, of any bytes, and a kind of security is parsed as that SSID and
-- the type of that kind, which is read as the kind again.
pub parse_profile_filename-profile_filename :
    (ssid : Text) (k : SecurityKind)
    → All (λ c. c < 256) ssid
    → (parse_profile_filename (profile_filename ssid (sec_kind_to_type k))
        ≡ some (ssid, sec_kind_to_type k))
      × (type_to_sec_kind (sec_kind_to_type k) ≡ k)
unfolding parse_profile_filename profile_filename
parse_profile_filename-profile_filename ssid k h = (
  ap named (cut_last-append b'.' (encode_ssid ssid) (sec_kind_to_type k) (plain k))
      ∙ named_lem k (encode_ssid ssid)
      ∙ ap (with_type (sec_kind_to_type k)) (decode_ssid-encode_ssid ssid h),
  type_to_sec_kind-sec_kind_to_type k,
)
