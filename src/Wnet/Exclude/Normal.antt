-- ===== src/Wnet/Exclude/Normal.antt =====
-- `normalizeMac`: case and separators do not count.
use wfm.Prelude.{
  ℕ, ◌≤◌, Bool, leb, ◌&&◌, ◌||◌, [], ◌∷◌, ◌++◌, ◌≡◌, ◌∙◌, ◌⊎◌, refl, arith, Text, lower_byte,
  to_lower, keep, All, All-append, append_assoc, ap, ap₂,
}
use wfm.Wnet.Exclude.{mac_digits, normalize_mac}

-- A lower-case hexadecimal digit.
abbrev pub IsDigit : ℕ → Type 0
IsDigit c = ((b'0' ≤ c) × (c ≤ b'9')) ⊎ ((b'a' ≤ c) × (c ≤ b'f'))

-- A byte that is a hexadecimal digit in neither case.
abbrev pub IsSeparator : ℕ → Type 0
IsSeparator c =
    ¬ ((b'0' ≤ c) × (c ≤ b'9')) × ¬ ((b'a' ≤ c) × (c ≤ b'f')) × ¬ ((b'A' ≤ c) × (c ≤ b'F'))

-- A hexadecimal digit in either case.
abbrev pub hex_digit : ℕ → Bool
hex_digit c = (leb b'0' c && leb c b'9') || (leb b'a' c && leb c b'f') || (leb b'A' c && leb c b'F')

mac_digits-All : (c : ℕ) → All IsDigit (mac_digits c)
unfolding mac_digits
mac_digits-All c = ground arith

mac_digits-lower_byte : (c : ℕ) → mac_digits (lower_byte c) ≡ mac_digits c
unfolding mac_digits lower_byte
mac_digits-lower_byte c = ground arith

mac_digits-IsSeparator : (c : ℕ) → IsSeparator c → mac_digits c ≡ []
unfolding mac_digits
mac_digits-IsSeparator c h = ground arith

mac_digits_of_IsDigit : (c : ℕ) → IsDigit c → mac_digits c ≡ c ∷ []
unfolding mac_digits
mac_digits_of_IsDigit c h = ground arith

pub normalize_mac-IsDigit : (s : Text) → All IsDigit (normalize_mac s)
unfolding normalize_mac
normalize_mac-IsDigit [] = tt
normalize_mac-IsDigit (c ∷ s) =
    All-append IsDigit (mac_digits c) (normalize_mac s) (mac_digits-All c) (normalize_mac-IsDigit s)

normalize_mac-append : (s t : Text) → normalize_mac (s ++ t) ≡ normalize_mac s ++ normalize_mac t
unfolding normalize_mac
normalize_mac-append [] t = refl
normalize_mac-append (c ∷ s) t = rw (normalize_mac-append s t) (rw append_assoc)

normalize_mac-to_lower : (s : Text) → normalize_mac (to_lower s) ≡ normalize_mac s
unfolding normalize_mac to_lower
normalize_mac-to_lower [] = refl
normalize_mac-to_lower (c ∷ s) = ap₂ ◌++◌ (mac_digits-lower_byte c) (normalize_mac-to_lower s)

normalize_mac-insert :
    (s t : Text) (c : ℕ) → IsSeparator c → normalize_mac (s ++ c ∷ t) ≡ normalize_mac (s ++ t)
unfolding normalize_mac
normalize_mac-insert s t c h =
    rw (normalize_mac-append s (c ∷ t), normalize_mac-append s t) (rw (mac_digits-IsSeparator c h))

normalize_mac_of_digits : (s : Text) → All IsDigit s → normalize_mac s ≡ s
unfolding normalize_mac
normalize_mac_of_digits [] h = refl
normalize_mac_of_digits (c ∷ s) (p, h) =
    rw (mac_digits_of_IsDigit c p) (ap (◌∷◌ c) (normalize_mac_of_digits s h))

mac_digits-keep :
    (c : ℕ) (s : Text)
    → mac_digits c ++ to_lower (keep hex_digit s) ≡ to_lower (keep hex_digit (c ∷ s))
unfolding mac_digits to_lower lower_byte
mac_digits-keep c s = ground arith

normalize_mac-keep : (s : Text) → normalize_mac s ≡ to_lower (keep hex_digit s)
unfolding normalize_mac to_lower
normalize_mac-keep [] = refl
normalize_mac-keep (c ∷ s) = ap (◌++◌ (mac_digits c)) (normalize_mac-keep s) ∙ mac_digits-keep c s

-- The normal form is the hexadecimal digits, in either case and in their order, in lower case. So
-- a separator at any place and the case of the letters make no difference to it, it holds nothing
-- but lower-case hexadecimal digits, and it is its own normal form.
pub normalize_mac_lem :
    (s t : Text) (c : ℕ)
    → IsSeparator c
    → (normalize_mac s ≡ to_lower (keep hex_digit s))
      × (normalize_mac (s ++ c ∷ t) ≡ normalize_mac (s ++ t))
      × (normalize_mac (to_lower s) ≡ normalize_mac s)
      × All IsDigit (normalize_mac s)
      × (normalize_mac (normalize_mac s) ≡ normalize_mac s)
normalize_mac_lem s t c h = (
  normalize_mac-keep s,
  normalize_mac-insert s t c h,
  normalize_mac-to_lower s,
  normalize_mac-IsDigit s,
  normalize_mac_of_digits (normalize_mac s) (normalize_mac-IsDigit s),
)
