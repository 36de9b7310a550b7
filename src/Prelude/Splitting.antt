-- ===== src/Prelude/Splitting.antt =====
-- Go's splitting of strings: `strings.Split` and `strings.Fields`, the lines of `bufio.Scanner` (of
-- less than its limit of 64 KB), and `strconv.Atoi`.
use Prim.Native.Nat.{ℕ, ◌+◌, ◌-◌, ◌*◌}
use mathlib.Core.Path.{◌≡◌, refl}
use mathlib.Core.Bool.{Bool, true, false, ◌&&◌}
use mathlib.Core.Option.{Option, none, some}
use mathlib.Core.List.{List, [], ◌∷◌, ◌++◌, map}
use wfm.Prelude.Tests.{leb, if◌then◌else◌, ◌==◌, ◌!=◌, nat_eq}
use wfm.Prelude.Lists.{keep, All}
use wfm.Prelude.Strings.{Text, text_eq, is_space, has_suffix}
use wfm.Prelude.Int.{ℤ, pos, negated, fits_int64, clamp_int64}

-- Puts a byte in front of the first piece.
abbrev pub cons_head : ℕ → List Text → List Text
cons_head c [] = (c ∷ []) ∷ []
cons_head c (piece ∷ pieces) = (c ∷ piece) ∷ pieces

-- The pieces between the bytes that meet the test.
unfoldable pub split_if : (ℕ → Bool) → Text → List Text
split_if p [] = [] ∷ []
split_if p (c ∷ s) = let rest = split_if p s in if p c then [] ∷ rest else cons_head c rest

-- `strings.Split` at one byte
unfoldable pub split_on : ℕ → Text → List Text
unfolding split_if
split_on sep s = split_if (λ c. c == sep) s

-- The piece in front of a byte that meets the test, when none in it does.
pub split_if-append :
    (p : ℕ → Bool) (v : Text) (c : ℕ) (rest : Text)
    → All (λ b. p b ≡ false) v
    → p c ≡ true
    → split_if p (v ++ c ∷ rest) ≡ v ∷ split_if p rest
unfolding split_if
split_if-append p [] c rest h e = rw e refl
split_if-append p (b ∷ v) c rest (n, h) e = rw (n, split_if-append p v c rest h e) refl

-- One piece, when no byte meets the test.
pub split_if_whole : (p : ℕ → Bool) (v : Text) → All (λ b. p b ≡ false) v → split_if p v ≡ v ∷ []
unfolding split_if
split_if_whole p [] h = refl
split_if_whole p (b ∷ v) (n, h) = rw (n, split_if_whole p v h) refl

-- `strings.Fields`
unfoldable pub fields : Text → List Text
unfolding split_if is_space
fields s = keep (λ piece. piece != []) (split_if is_space s)

-- Without a carriage return at the end.
unfoldable pub drop_cr : Text → Text
drop_cr [] = []
drop_cr (c ∷ []) = if c == b'\r' then [] else c ∷ []
drop_cr (c ∷ d ∷ s) = c ∷ drop_cr (d ∷ s)

-- Without an empty piece at the end.
unfoldable pub drop_last_empty : List Text → List Text
drop_last_empty [] = []
drop_last_empty (l ∷ []) = if l == [] then [] else l ∷ []
drop_last_empty (l ∷ m ∷ rest) = l ∷ drop_last_empty (m ∷ rest)

-- The lines of a `bufio.Scanner`.
unfoldable pub lines : Text → List Text
unfolding drop_last_empty split_on drop_cr
lines s = map drop_cr (drop_last_empty (split_on b'\n' s))

abbrev pub cut_cons : ℕ → Option (Text × Text) → Option (Text × Text)
cut_cons c none = none
cut_cons c (some (before, behind)) = some (c ∷ before, behind)

-- What stands before and behind the first such byte, as `strings.IndexByte` finds it.
unfoldable pub cut : ℕ → Text → Option (Text × Text)
cut sep [] = none
cut sep (c ∷ s) = let rest = cut sep s in if c == sep then some ([], s) else cut_cons c rest

-- `strings.TrimSuffix`
unfoldable pub trim_suffix : Text → Text → Text
unfolding has_suffix
trim_suffix [] suffix = []
trim_suffix (c ∷ s) suffix = if (c ∷ s) == suffix then [] else c ∷ trim_suffix s suffix

unfoldable pub digits : ℕ → Text → Option ℕ
digits acc [] = some acc
digits acc (c ∷ s) =
    let rest = digits (acc * 10 + (c - b'0')) s in if leb b'0' c && leb c b'9' then rest else none

abbrev pub signed : (ℕ → ℤ) → Text → Option ℤ
signed sign [] = none
signed sign (c ∷ s) = elim (digits 0 (c ∷ s)) [ none ↦ none | some n ↦ some (sign n) ]

-- The number that a text writes in base 10, of any size.
unfoldable pub number : Text → Option ℤ
unfolding digits
number [] = none
number (c ∷ s) =
    if c == b'-' then signed negated s else if c == b'+' then signed pos s else signed pos (c ∷ s)

abbrev pub in_range : Option ℤ → Option ℤ
in_range none = none
in_range (some v) = if fits_int64 v then some v else none

abbrev pub or_clamped : Option ℤ → ℤ
or_clamped none = pos 0
or_clamped (some v) = clamp_int64 v

-- `strconv.Atoi`, where an error is told
unfoldable pub atoi? : Text → Option ℤ
unfolding number
atoi? s = in_range (number s)

-- `strconv.Atoi`, where the error is ignored: the value is 0, or the nearest in range
unfoldable pub atoi_value : Text → ℤ
unfolding number clamp_int64
atoi_value s = or_clamped (number s)
