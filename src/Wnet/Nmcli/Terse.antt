-- ===== src/Wnet/Nmcli/Terse.antt =====
-- internal/wnet/nmcli/nm.go: the output of `nmcli -t`.
pub mod RoundTrip
use wfm.Prelude.{
  ℕ, Bool, ◌||◌, List, [], ◌∷◌, ◌++◌, map, Option, none, some, Text, text, text_eq, nat_eq, ◌==◌,
  ◌!=◌, if◌then◌else◌, has_prefix, find,
}
use wfm.Prelude.Int.{ℤ, negsuc}
use wfm.Prelude.Splitting.{cons_head, cut, lines, fields, atoi?}

-- The loop of `splitTerse`, over the bytes left; the builder `b` is the head of the result.
unfoldable pub split_terse : Text → List Text
split_terse [] = [] ∷ []
split_terse (c ∷ []) = if c == b':' then [] ∷ [] ∷ [] else (c ∷ []) ∷ []
split_terse (c ∷ d ∷ line) =
    let escaped = cons_head d (split_terse line) in
    let rest = split_terse (d ∷ line) in
    if c == b'\\' then escaped else if c == b':' then [] ∷ rest else cons_head c rest

abbrev pub Pairs : Type 0
Pairs = List (Text × Text)

-- One round of the loop of `parseDetail`.
abbrev pub add_pair : Option (Text × Text) → Pairs → Pairs
add_pair none pairs = pairs
add_pair (some pair) pairs = pair ∷ pairs

unfoldable pub detail_pairs : List Text → Pairs
detail_pairs [] = []
detail_pairs (line ∷ rest) = add_pair (cut b':' line) (detail_pairs rest)

unfoldable pub parse_detail : Text → Pairs
unfolding detail_pairs
parse_detail out = detail_pairs (lines out)

unfoldable pub detail_get : Pairs → Text → Text
detail_get [] k = []
detail_get ((j, v) ∷ pairs) k = if j == k then v else detail_get pairs k

unfoldable pub detail_prefix : Pairs → Text → List Text
detail_prefix [] base = []
detail_prefix ((j, v) ∷ pairs) base =
    let vs = detail_prefix pairs base in
    if j == base || has_prefix j (base ++ text "[") then (if v != [] then v ∷ vs else vs) else vs

abbrev pub or_minus_one : Option ℤ → ℤ
or_minus_one none = negsuc 0
or_minus_one (some n) = n

abbrev pub first_number : List Text → ℤ
first_number [] = negsuc 0
first_number (f ∷ rest) = or_minus_one (atoi? f)

unfoldable pub state_code : Text → ℤ
state_code s = first_number (fields s)
