-- ===== src/Wnet/Iwd/Profile/Words.antt =====
-- The DNS servers of a file of internal/wnet/iwd/profile.go: words on one line.
use wfm.Prelude.{
  true, false, List, [], ◌∷◌, ◌++◌, ◌≡◌, ◌≢◌, ◌∙◌, refl, ap, sym, subst, append-nil, nat_eq, arith,
  Text, text, text_eq, ◌!=◌, All, All-append, append_assoc, trim_left, trim_right, is_space, join,
  keep,
}
use wfm.Prelude.Splitting.{split_if, split_if-append, split_if_whole, fields}
use wfm.Wnet.Iwd.Profile.Lines.{IsValue, trim_right-append}

-- Not empty and without white space.
abbrev pub IsWord : Text → Type 0
IsWord d = (d ≢ []) × All (λ c. is_space c ≡ false) d

join_words :
    (d e : Text) (dns : List Text)
    → join (d ∷ e ∷ dns) (text " ") ≡ d ++ b' ' ∷ join (e ∷ dns) (text " ")
unfolding join
join_words d e dns = append_assoc d (text " ") (join (e ∷ dns) (text " "))

word_left : (d x : Text) → IsWord d → trim_left (d ++ x) ≡ d ++ x
unfolding trim_left
word_left [] x (n, h) = absurd (n refl)
word_left (c ∷ d) x (n, (s, h)) = rw s refl

word_right : (d : Text) → All (λ c. is_space c ≡ false) d → trim_right d ≡ d
unfolding trim_right
word_right [] h = refl
word_right (c ∷ []) (s, h) = rw s refl
word_right (c ∷ e ∷ d) (s, h) = rw (word_right (e ∷ d) h) refl

newline_free : (d : Text) → All (λ c. is_space c ≡ false) d → All (λ c. c ≢ b'\n') d
unfolding is_space
newline_free [] h = tt
newline_free (c ∷ d) (s, h) = (ground (arith, s), newline_free d h)

word_kept : (d x : Text) → d ≢ [] → d ++ x ≢ []
word_kept [] x n e = n refl
word_kept (c ∷ d) x n e = ground (arith, e)

blank : is_space b' ' ≡ true
unfolding is_space nat_eq
blank = refl

pub join-IsValue :
    (d : Text) (dns : List Text) → All IsWord (d ∷ dns) → IsValue (join (d ∷ dns) (text " "))
unfolding join
join-IsValue d [] ((n, w), h) = (
  n,
  subst (λ x. trim_left x ≡ x) (append-nil d) (word_left d [] (n, w)),
  word_right d w,
  newline_free d w,
)
join-IsValue d (e ∷ dns) ((n, w), h) =
    let (n2, left, right, lined) = join-IsValue e dns h in
    subst IsValue (sym (join_words d e dns)) (
      word_kept d (b' ' ∷ join (e ∷ dns) (text " ")) n,
      word_left d (b' ' ∷ join (e ∷ dns) (text " ")) (n, w),
      trim_right-append d (b' ' ∷ join (e ∷ dns) (text " ")) (ground arith)
          (trim_right-append (b' ' ∷ []) (join (e ∷ dns) (text " ")) n2 right),
      All-append (λ c. c ≢ b'\n') d (b' ' ∷ join (e ∷ dns) (text " ")) (newline_free d w)
          (ground arith, lined),
    )

split_words :
    (d : Text) (dns : List Text)
    → All IsWord (d ∷ dns)
    → split_if is_space (join (d ∷ dns) (text " ")) ≡ d ∷ dns
unfolding join
split_words d [] ((n, w), h) = split_if_whole is_space d w
split_words d (e ∷ dns) ((n, w), h) =
    ap (split_if is_space) (join_words d e dns)
    ∙ split_if-append is_space d b' ' (join (e ∷ dns) (text " ")) w blank
    ∙ ap (◌∷◌ d) (split_words e dns h)

keep_words : (dns : List Text) → All IsWord dns → keep (λ piece. piece != []) dns ≡ dns
keep_words [] h = refl
keep_words (d ∷ dns) ((n, w), h) = ground (arith, n, keep_words dns h)

pub fields-join :
    (d : Text) (dns : List Text)
    → All IsWord (d ∷ dns)
    → fields (join (d ∷ dns) (text " ")) ≡ d ∷ dns
unfolding fields
fields-join d dns h = rw (split_words d dns h) (keep_words (d ∷ dns) h)
