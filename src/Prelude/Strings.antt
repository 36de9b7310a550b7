-- ===== src/Prelude/Strings.antt =====
-- Go strings as lists of bytes, and the functions of Go's `strings` package that the source calls.
-- Letters and spaces are those of ASCII: Go's `ToLower` also maps letters above U+007F and its
-- `TrimSpace` also trims the Unicode spaces, which this model leaves as they are.
use Prim.Native.Nat.{ℕ, ◌+◌, ◌-◌}
use Prim.Native.Char.{code}
use Prim.Native.String.{String}
use mathlib.Core.Path.{◌≡◌, refl, ap, sym}
use mathlib.Core.Logic.{◌↔◌}
use mathlib.Core.Bool.{Bool, true, false, ◌&&◌, ◌||◌}
use mathlib.Core.List.{List, [], ◌∷◌, ◌++◌, map, cons≢nil, tail-eq_of_cons-eq, head-eq_of_cons-eq}
use native.Mathlib.Omega.{arith}
use native.Mathlib.Decide.{ℕ_discrete}
use wfm.Prelude.Tests.{leb, if◌then◌else◌, Eq, ◌==◌, nat_eq}

abbrev pub Text : Type 0
Text = List ℕ

-- A string literal.
abbrev pub text : String → Text
text String.[] = []
text (String.◌∷◌ c s) = code c ∷ text s

both_parts :
    {c d : ℕ} {s t : Text} → Dec (c ≡ d) → Dec (s ≡ t) → Dec (◌≡◌ {A = Text} (c ∷ s) (d ∷ t))
both_parts (yes p) (yes q) = yes (λ i. p i ∷ q i)
both_parts (yes p) (no n) = no (λ e. n (tail-eq_of_cons-eq e))
both_parts (no n) q = no (λ e. n (head-eq_of_cons-eq e))

text_discrete : Discrete Text
text_discrete [] [] = yes refl
text_discrete [] (d ∷ t) = no (λ e. cons≢nil (sym e))
text_discrete (c ∷ s) [] = no (λ e. cons≢nil e)
text_discrete (c ∷ s) (d ∷ t) = both_parts (ℕ_discrete c d) (text_discrete s t)

instance unfoldable pub text_eq : Eq Text
unfolding text_discrete both_parts ℕ_discrete
text_eq = record { dec = text_discrete }

pub eq_iff : (s t : Text) → ((s == t) ≡ true) ↔ (s ≡ t)
eq_iff s t = ground arith

unfoldable pub lower_byte : ℕ → ℕ
lower_byte c = if leb b'A' c && leb c b'Z' then c + 32 else c

-- `strings.ToLower`
unfoldable pub to_lower : Text → Text
unfolding lower_byte
to_lower s = map lower_byte s

unfoldable pub upper_byte : ℕ → ℕ
upper_byte c = if leb b'a' c && leb c b'z' then c - 32 else c

-- `strings.ToUpper`
unfoldable pub to_upper : Text → Text
unfolding upper_byte
to_upper s = map upper_byte s

-- `strings.EqualFold`
unfoldable pub equal_fold : Text → Text → Bool
unfolding to_lower
equal_fold s t = to_lower s == to_lower t

unfoldable pub is_space : ℕ → Bool
is_space c = c == b' ' || (leb 9 c && leb c 13)

unfoldable pub trim_left : Text → Text
unfolding is_space
trim_left [] = []
trim_left (c ∷ s) = if is_space c then trim_left s else c ∷ s

unfoldable pub trim_right : Text → Text
unfolding is_space
trim_right [] = []
trim_right (c ∷ s) = elim (trim_right s) [
  | [] ↦ if is_space c then [] else c ∷ []
  | d ∷ r ↦ c ∷ d ∷ r
]

-- `strings.TrimSpace`
unfoldable pub trim_space : Text → Text
unfolding trim_left trim_right
trim_space s = trim_right (trim_left s)

-- `strings.HasPrefix`
unfoldable pub has_prefix : Text → Text → Bool
has_prefix s [] = true
has_prefix [] (d ∷ t) = false
has_prefix (c ∷ s) (d ∷ t) = c == d && has_prefix s t

-- `strings.HasSuffix`
unfoldable pub has_suffix : Text → Text → Bool
has_suffix [] t = [] == t
has_suffix (c ∷ s) t = (c ∷ s) == t || has_suffix s t

-- `strings.Contains`
unfoldable pub contains : Text → Text → Bool
unfolding has_prefix
contains [] t = has_prefix [] t
contains (c ∷ s) t = has_prefix (c ∷ s) t || contains s t

-- `strings.Join`
unfoldable pub join : List Text → Text → Text
join [] sep = []
join (s ∷ []) sep = s
join (s ∷ t ∷ rest) sep = s ++ sep ++ join (t ∷ rest) sep

pub has_prefix_iff : (s t : Text) → (has_prefix s t ≡ true) ↔ ((r : Text) × (s ≡ t ++ r))
unfolding has_prefix
has_prefix_iff s [] = (λ _. (s, refl), λ _. refl)
has_prefix_iff [] (d ∷ t) = (λ h. cc, λ (r, e). cc)
has_prefix_iff (c ∷ s) (d ∷ t) = (
  λ h. let (r, e) = (has_prefix_iff s t).0 (ground arith) in (r, ground arith),
  λ (r, e).
      let h : has_prefix s t ≡ true = (has_prefix_iff s t).1 (r, tail-eq_of_cons-eq e) in
      ground arith,
)

suffix_of_has_suffix : (s t : Text) → has_suffix s t ≡ true → (r : Text) × (s ≡ r ++ t)
unfolding has_suffix
suffix_of_has_suffix [] t h = ([], (eq_iff [] t).0 h)
suffix_of_has_suffix (c ∷ s) t h = elim (text_eq.dec (c ∷ s) t) [
  | yes e ↦ ([], e)
  | no n ↦ let (r, e) = suffix_of_has_suffix s t (ground arith) in (c ∷ r, ap (◌∷◌ c) e)
]

pub has_suffix-append : (r t : Text) → has_suffix (r ++ t) t ≡ true
unfolding has_suffix
has_suffix-append [] [] = ground arith
has_suffix-append [] (d ∷ t) = ground arith
has_suffix-append (c ∷ r) t = ground (arith, has_suffix-append r t)

pub has_suffix_iff : (s t : Text) → (has_suffix s t ≡ true) ↔ ((r : Text) × (s ≡ r ++ t))
has_suffix_iff s t = (suffix_of_has_suffix s t, λ (r, e). rw e (has_suffix-append r t))
