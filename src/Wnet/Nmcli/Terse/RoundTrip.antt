-- ===== src/Wnet/Nmcli/Terse/RoundTrip.antt =====
-- `splitTerse` of internal/wnet/nmcli/nm.go reads what nmcli's terse mode writes.
use wfm.Prelude.{
  ℕ, true, ◌||◌, List, [], ◌∷◌, ◌++◌, ◌≡◌, ◌≢◌, ◌∙◌, refl, ap, arith, Text, text_eq, nat_eq, ◌==◌,
  if◌then◌else◌, append-nil,
}
use wfm.Prelude.Splitting.{cons_head}
use wfm.Wnet.Nmcli.Terse.{split_terse}

-- A value as nmcli's terse mode writes it: colons and backslashes are escaped.
pub escape : Text → Text
escape [] = []
escape (c ∷ s) = if c == b':' || c == b'\\' then b'\\' ∷ c ∷ escape s else c ∷ escape s

-- A row: the values with colons between them.
pub row : List Text → Text
row [] = []
row (f ∷ []) = escape f
row (f ∷ g ∷ fs) = escape f ++ b':' ∷ row (g ∷ fs)

split_terse_plain :
    (c : ℕ) (line : Text)
    → c ≢ b':'
    → c ≢ b'\\'
    → split_terse (c ∷ line) ≡ cons_head c (split_terse line)
unfolding split_terse
split_terse_plain c [] n m = ground arith
split_terse_plain c (d ∷ line) n m = ground arith

split_terse_escaped :
    (c : ℕ) (line : Text) → split_terse (b'\\' ∷ c ∷ line) ≡ cons_head c (split_terse line)
unfolding split_terse
split_terse_escaped c line = ground arith

split_terse_colon : (line : Text) → split_terse (b':' ∷ line) ≡ [] ∷ split_terse line
unfolding split_terse
split_terse_colon [] = ground arith
split_terse_colon (d ∷ line) = ground arith

escape_special :
    (c : ℕ) (s : Text) → (c == b':' || c == b'\\') ≡ true → escape (c ∷ s) ≡ b'\\' ∷ c ∷ escape s
unfolding escape
escape_special c s e = ground arith

split_terse-escape :
    (f line : Text) (fs : List Text)
    → split_terse line ≡ [] ∷ fs
    → split_terse (escape f ++ line) ≡ f ∷ fs
unfolding escape
split_terse-escape [] line fs e = e
split_terse-escape (c ∷ f) line fs e =
    let ih = split_terse-escape f line fs e in
    ground
      (arith, split_terse_plain c (escape f ++ line), split_terse_escaped c (escape f ++ line), ih)

split_terse_nil : split_terse [] ≡ [] ∷ []
unfolding split_terse
split_terse_nil = refl

-- A row of at least one value is split into its values again, whatever bytes they hold.
pub split_terse-row : (f : Text) (fs : List Text) → split_terse (row (f ∷ fs)) ≡ f ∷ fs
unfolding row
split_terse-row f [] = rw append-nil at (split_terse-escape f [] [] split_terse_nil)
split_terse-row f (g ∷ fs) =
    split_terse-escape f (b':' ∷ row (g ∷ fs)) (g ∷ fs)
      (split_terse_colon (row (g ∷ fs)) ∙ ap (◌∷◌ []) (split_terse-row g fs))
