-- ===== src/Wnet/Iwd/Profile/Lines.antt =====
-- `parseINI` of internal/wnet/iwd/profile.go, line by line.
use wfm.Prelude.{
  ℕ, Bool, false, List, [], ◌∷◌, ◌++◌, map, ◌≡◌, ◌≢◌, ◌∙◌, refl, some, subst, ap, arith, Text,
  text_eq, nat_eq, ◌==◌, if◌then◌else◌, All, All-append, append_assoc, trim_space, trim_left,
  trim_right, is_space, has_prefix,
}
use wfm.Prelude.Splitting.{
  split_if, split_on, split_if-append, drop_cr, drop_last_empty, lines, cut,
}
use wfm.Wnet.Iwd.Profile.{line}
use wfm.Wnet.Iwd.Profile.Ini.{Reading, read_trimmed, read_lines, read_entry}

-- A value that survives in a file: not empty, on one line, without white space around it.
abbrev pub IsValue : Text → Type 0
IsValue v = (v ≢ []) × (trim_left v ≡ v) × (trim_right v ≡ v) × All (λ c. c ≢ b'\n') v

split_if_cons : (p : ℕ → Bool) (s : Text) → split_if p s ≢ []
unfolding split_if
split_if_cons p [] e = ground (arith, e)
split_if_cons p (c ∷ s) e = ground (arith, e, split_if_cons p s)

drop_last_empty_cons :
    (l : Text) (rest : List Text)
    → rest ≢ []
    → drop_last_empty (l ∷ rest) ≡ l ∷ drop_last_empty rest
unfolding drop_last_empty
drop_last_empty_cons l [] n = absurd (n refl)
drop_last_empty_cons l (m ∷ rest) n = refl

newline_free : (l : Text) → All (λ c. c ≢ b'\n') l → All (λ c. (c == b'\n') ≡ false) l
newline_free [] h = tt
newline_free (c ∷ l) (n, h) = (ground (arith, n), newline_free l h)

lines-append :
    (l rest : Text) → All (λ c. c ≢ b'\n') l → lines (l ++ b'\n' ∷ rest) ≡ drop_cr l ∷ lines rest
unfolding lines split_on
lines-append l rest h =
    ap (λ pieces. map drop_cr (drop_last_empty pieces))
      (split_if-append (λ c. c == b'\n') l b'\n' rest (newline_free l h) (ground arith))
    ∙ ap (map drop_cr)
        (drop_last_empty_cons l (split_if (λ c. c == b'\n') rest) (split_if_cons _ rest))

trim_right_tail : (c : ℕ) (s : Text) → s ≢ [] → trim_right (c ∷ s) ≡ c ∷ s → trim_right s ≡ s
unfolding trim_right
trim_right_tail c s n h = by_tail (trim_right s) h
  where
    by_tail :
        (r : Text)
        → (elim r [ [] ↦ if is_space c then [] else c ∷ [] | d ∷ t ↦ c ∷ d ∷ t ]) ≡ c ∷ s
        → r ≡ s
    by_tail [] e = absurd (ground (arith, n, e))
    by_tail (d ∷ t) e = ground (arith, e)

last_kept : (c : ℕ) → trim_right (c ∷ []) ≡ c ∷ [] → drop_cr (c ∷ []) ≡ c ∷ []
unfolding drop_cr trim_right is_space
last_kept c h = ground (arith, h)

drop_cr-trimmed : (l : Text) → trim_right l ≡ l → drop_cr l ≡ l
unfolding drop_cr
drop_cr-trimmed [] h = refl
drop_cr-trimmed (c ∷ []) h = last_kept c h
drop_cr-trimmed (c ∷ d ∷ l) h =
    ap (◌∷◌ c) (drop_cr-trimmed (d ∷ l) (trim_right_tail c (d ∷ l) (ground arith) h))

pub trim_right-append : (xs v : Text) → v ≢ [] → trim_right v ≡ v → trim_right (xs ++ v) ≡ xs ++ v
unfolding trim_right
trim_right-append [] v n h = h
trim_right-append (c ∷ xs) v n h = rw (trim_right-append xs v n h) (kept c xs v n)
  where
    kept :
        (c : ℕ) (xs v : Text)
        → v ≢ []
        → (elim (xs ++ v) [ [] ↦ if is_space c then [] else c ∷ [] | d ∷ t ↦ c ∷ d ∷ t ])
          ≡ c ∷ (xs ++ v)
    kept c [] [] n = absurd (n refl)
    kept c [] (d ∷ v) n = refl
    kept c (x ∷ xs) v n = refl

cut-append : (sep : ℕ) (k v : Text) → All (λ c. c ≢ sep) k → cut sep (k ++ sep ∷ v) ≡ some (k, v)
unfolding cut
cut-append sep [] v h = ground arith
cut-append sep (c ∷ k) v (n, h) = ground (arith, n, cut-append sep k v h)

-- The text is read from one state to the other, whatever stands behind it.
pub record Reads (t : Text) (r r2 : Reading) : Type 0 where
  pub reads : (rest : Text) → read_lines (lines (t ++ rest)) r ≡ read_lines (lines rest) r2

pub Reads-append :
    (a b : Text) {r r1 r2 : Reading} → Reads a r r1 → Reads b r1 r2 → Reads (a ++ b) r r2
Reads-append a b {r} h k = record {
  reads = λ rest.
      ap (λ s. read_lines (lines s) r) (append_assoc a b rest) ∙ h.reads (b ++ rest) ∙ k.reads rest;
}

pub Reads-line :
    (l : Text) (r : Reading)
    → All (λ c. c ≢ b'\n') l
    → trim_left l ≡ l
    → trim_right l ≡ l
    → Reads (l ++ b'\n' ∷ []) r (read_trimmed l r)
unfolding read_lines trim_space
Reads-line l r h left right = record {
  reads = λ rest.
      ap (λ s. read_lines (lines s) r) (append_assoc l (b'\n' ∷ []) rest)
      ∙ ap (λ ls. read_lines ls r)
          (lines-append l rest h ∙ ap (λ x. x ∷ lines rest) (drop_cr-trimmed l right))
      ∙ ap (λ x. read_lines (lines rest) (read_trimmed x r)) (ap trim_right left ∙ right);
}

-- A blank line changes nothing.
pub Reads-blank : (r : Reading) → Reads (b'\n' ∷ []) r r
unfolding read_trimmed text_eq trim_left trim_right
Reads-blank r = Reads-line [] r tt refl refl

-- A key as the code writes it.
abbrev pub IsKey : Text → Type 0
IsKey [] = ⊥
IsKey (c ∷ k) =
    (is_space c ≡ false)
    × (c ≢ b'#')
    × (c ≢ b';')
    × (c ≢ b'[')
    × All (λ x. x ≢ b'=') (c ∷ k)
    × All (λ x. x ≢ b'\n') (c ∷ k)
    × (trim_space (c ∷ k) ≡ c ∷ k)

-- The state behind some lines: the section, those opened, and the values set.
abbrev pub at : Text → List Text → List (Text × Text × Text) → Reading
at section opened entries = record {
  cur = section;
  ini = record { sections = opened; entries = entries };
}

module _ (k v : Text) (key : IsKey k) (value : IsValue v) where
  one_line : (k : Text) → IsKey k → All (λ c. c ≢ b'\n') (k ++ b'=' ∷ v)
  one_line [] key = absurd key
  one_line (c ∷ k) (a1, a2, a3, a4, a5, lined, a7) =
      All-append (λ c. c ≢ b'\n') (c ∷ k) (b'=' ∷ v) lined (ground arith, value.3)

  left_trimmed : (k : Text) → IsKey k → trim_left (k ++ b'=' ∷ v) ≡ k ++ b'=' ∷ v
  unfolding trim_left
  left_trimmed [] key = absurd key
  left_trimmed (c ∷ k) (space, a2, a3, a4, a5, a6, a7) = rw space refl

  right_trimmed : trim_right (k ++ b'=' ∷ v) ≡ k ++ b'=' ∷ v
  right_trimmed =
      trim_right-append k (b'=' ∷ v) (ground arith)
        (trim_right-append (b'=' ∷ []) v value.0 value.2)

  value_trimmed : trim_space v ≡ v
  unfolding trim_space
  value_trimmed = ap trim_right value.1 ∙ value.2

  as_entry :
      (k : Text)
      → IsKey k
      → (r : Reading) → read_trimmed (k ++ b'=' ∷ v) r ≡ read_entry (cut b'=' (k ++ b'=' ∷ v)) r
  unfolding read_trimmed has_prefix
  as_entry [] key r = absurd key
  as_entry (c ∷ k) (space, hash, semicolon, bracket, a5, a6, a7) r =
      ground (arith, hash, semicolon, bracket)

  key_trimmed : (k : Text) → IsKey k → trim_space k ≡ k
  key_trimmed [] key = absurd key
  key_trimmed (c ∷ k) (a1, a2, a3, a4, a5, a6, trimmed) = trimmed

  key_cut : (k : Text) → IsKey k → cut b'=' (k ++ b'=' ∷ v) ≡ some (k, v)
  key_cut [] key = absurd key
  key_cut (c ∷ k) (a1, a2, a3, a4, free, a6, a7) = cut-append b'=' (c ∷ k) v free

  set_entry :
      (section : Text) (opened : List Text) (es : List (Text × Text × Text))
      → section ≢ []
      → read_entry (some (k, v)) (at section opened es) ≡ at section opened ((section, k, v) ∷ es)
  set_entry section opened es n = rw (key_trimmed k key, value_trimmed) (ground (arith, n))

  read_line :
      (section : Text) (opened : List Text) (es : List (Text × Text × Text))
      → section ≢ []
      → read_trimmed (k ++ b'=' ∷ v) (at section opened es)
        ≡ at section opened ((section, k, v) ∷ es)
  read_line section opened es n =
      as_entry k key (at section opened es)
      ∙ ap (λ x. read_entry x (at section opened es)) (key_cut k key)
      ∙ set_entry section opened es n

  -- A line with a key and a value sets the value.
  pub Reads-entry :
      (section : Text) (opened : List Text) (es : List (Text × Text × Text))
      → section ≢ []
      → Reads (line k v) (at section opened es) (at section opened ((section, k, v) ∷ es))
  Reads-entry section opened es n =
      subst (λ t. Reads t (at section opened es) (at section opened ((section, k, v) ∷ es)))
        (append_assoc k (b'=' ∷ v) (b'\n' ∷ []))
        (subst (Reads (k ++ b'=' ∷ v ++ b'\n' ∷ []) (at section opened es))
          (read_line section opened es n)
          (Reads-line (k ++ b'=' ∷ v) (at section opened es) (one_line k key) (left_trimmed k key)
            right_trimmed))
