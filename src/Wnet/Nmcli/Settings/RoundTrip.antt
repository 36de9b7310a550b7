-- ===== src/Wnet/Nmcli/Settings/RoundTrip.antt =====
-- Reading single settings of nmcli that internal/wnet/nmcli/backend.go has written.
use wfm.Prelude.{
  false, ◌||◌, List, [], ◌∷◌, ◌++◌, map, ◌≡◌, ◌≢◌, ◌∙◌, refl, ap, arith, Text, text, text_eq,
  nat_eq, ◌==◌, ◌!=◌, trim_space, join, has_prefix, keep, All, append_assoc, append-nil,
}
use wfm.Prelude.Splitting.{split_if, split_on}
use wfm.Wnet.Nmcli.Terse.{Pairs, detail_get, detail_prefix}
use wfm.Wnet.Nmcli.Settings.{split_value, split_multi, list_arg, text_arg}

-- A value of a list setting: not empty, without white space around it and without a comma.
abbrev pub IsItem : Text → Type 0
IsItem v = (v ≢ []) × (trim_space v ≡ v) × All (λ c. c ≢ b',') v

split_on_plain : (v : Text) → All (λ c. c ≢ b',') v → split_on b',' v ≡ v ∷ []
unfolding split_on split_if
split_on_plain [] h = refl
split_on_plain (c ∷ v) (n, h) = ground (arith, n, split_on_plain v h)

split_on_comma :
    (v rest : Text)
    → All (λ c. c ≢ b',') v
    → split_on b',' (v ++ b',' ∷ rest) ≡ v ∷ split_on b',' rest
unfolding split_on split_if
split_on_comma [] rest h = ground arith
split_on_comma (c ∷ v) rest (n, h) = ground (arith, n, split_on_comma v rest h)

join_cons :
    (v u : Text) (vs : List Text)
    → join (v ∷ u ∷ vs) (text ",") ≡ v ++ b',' ∷ join (u ∷ vs) (text ",")
unfolding join
join_cons v u vs = append_assoc v (text ",") (join (u ∷ vs) (text ","))

split_on-join :
    (v : Text) (vs : List Text)
    → All IsItem (v ∷ vs)
    → split_on b',' (join (v ∷ vs) (text ",")) ≡ v ∷ vs
unfolding join
split_on-join v [] ((n, t, c), h) = split_on_plain v c
split_on-join v (u ∷ vs) ((n, t, c), h) =
    ap (split_on b',') (join_cons v u vs)
    ∙ split_on_comma v (join (u ∷ vs) (text ",")) c
    ∙ ap (◌∷◌ v) (split_on-join u vs h)

keep-map : (vs : List Text) → All IsItem vs → keep (λ part. part != []) (map trim_space vs) ≡ vs
keep-map [] h = refl
keep-map (v ∷ vs) ((n, t, c), h) = ground (arith, n, t, keep-map vs h)

split_value-join :
    (v : Text) (vs : List Text)
    → All IsItem (v ∷ vs)
    → split_value (join (v ∷ vs) (text ",")) ≡ v ∷ vs
unfolding split_value
split_value-join v vs h = rw (split_on-join v vs h) (keep-map (v ∷ vs) h)

join-≢ : (v : Text) (vs : List Text) → All IsItem (v ∷ vs) → join (v ∷ vs) (text ",") ≢ []
unfolding join
join-≢ v [] ((n, t, c), h) e = n e
join-≢ [] (u ∷ vs) ((n, t, c), h) e = n refl
join-≢ (x ∷ v) (u ∷ vs) h e = ground (arith, e)

-- The keys and values among the arguments.
abbrev pub pairs_of : List Text → Pairs
pairs_of [] = []
pairs_of (k ∷ []) = []
pairs_of (k ∷ v ∷ rest) = (k, v) ∷ pairs_of rest

-- A setting that is given only if it has a value.
unfoldable pub setting : Text → Text → Pairs
setting k [] = []
setting k (c ∷ v) = (k, c ∷ v) ∷ []

setting_cons : (k v : Text) (ps : Pairs) → v ≢ [] → (k, v) ∷ ps ≡ setting k v ++ ps
unfolding setting
setting_cons k [] ps n = absurd (n refl)
setting_cons k (c ∷ v) ps n = refl

pub pairs_of-list :
    (k : Text) (vs rest : List Text) {ps : Pairs}
    → All IsItem vs
    → pairs_of rest ≡ ps
    → pairs_of (list_arg k vs ++ rest) ≡ setting k (join vs (text ",")) ++ ps
unfolding setting join
pairs_of-list k [] rest h e = e
pairs_of-list k (v ∷ vs) rest h e =
    ap (◌∷◌ (k, join (v ∷ vs) (text ","))) e
    ∙ setting_cons k (join (v ∷ vs) (text ",")) _ (join-≢ v vs h)

pub pairs_of-text :
    (k v : Text) (rest : List Text) {ps : Pairs}
    → pairs_of rest ≡ ps
    → pairs_of (text_arg k v ++ rest) ≡ setting k v ++ ps
unfolding setting
pairs_of-text k [] rest e = ground (arith, e)
pairs_of-text k (c ∷ v) rest e = ground (arith, e)

-- A setting `j` is not among those read under the name `k`.
abbrev pub Apart : Text → Text → Type 0
Apart j k = (j == k || has_prefix j (k ++ text "[")) ≡ false

-- Reading a setting that is there, and past one that is not asked for.
get_here : (k v : Text) (ps : Pairs) → detail_get ps k ≡ [] → detail_get (setting k v ++ ps) k ≡ v
unfolding setting detail_get
get_here k [] ps e = e
get_here k (c ∷ v) ps e = ground arith

get_past :
    (j k v : Text) (ps : Pairs) → Apart j k → detail_get (setting j v ++ ps) k ≡ detail_get ps k
unfolding setting detail_get
get_past j k [] ps e = refl
get_past j k (c ∷ v) ps e = ground (arith, e)

prefix_here :
    (k v : Text) (ps : Pairs)
    → v ≢ []
    → detail_prefix ps k ≡ []
    → detail_prefix (setting k v ++ ps) k ≡ v ∷ []
unfolding setting detail_prefix
prefix_here k [] ps n e = absurd (n refl)
prefix_here k (c ∷ v) ps n e = ground (arith, e)

prefix_past :
    (j k v : Text) (ps : Pairs)
    → Apart j k
    → detail_prefix (setting j v ++ ps) k ≡ detail_prefix ps k
unfolding setting detail_prefix
prefix_past j k [] ps e = refl
prefix_past j k (c ∷ v) ps e = ground (arith, e)

-- A list setting, read.
list_here :
    (k : Text) (vs : List Text) (ps : Pairs)
    → All IsItem vs
    → detail_prefix ps k ≡ []
    → split_multi (detail_prefix (setting k (join vs (text ",")) ++ ps) k) ≡ vs
unfolding split_multi setting join
list_here k [] ps h e = ap split_multi e
list_here k (v ∷ vs) ps h e =
    ap split_multi (prefix_here k (join (v ∷ vs) (text ",")) ps (join-≢ v vs h) e)
    ∙ append-nil _
    ∙ split_value-join v vs h

-- The settings of one address family in front of others.
module _ (ka kg kd ks a g d s : Text) (ps : Pairs) where
  unfoldable pub four : Pairs
  four = setting ka a ++ (setting kg g ++ (setting kd d ++ (setting ks s ++ ps)))

  pub four_get :
      (k : Text)
      → Apart ka k
      → Apart kg k
      → Apart kd k
      → Apart ks k
      → detail_get four k ≡ detail_get ps k
  unfolding four
  four_get k na ng nd ns =
      get_past ka k a _ na ∙ get_past kg k g _ ng ∙ get_past kd k d _ nd ∙ get_past ks k s _ ns

  pub four_prefix :
      (k : Text)
      → Apart ka k
      → Apart kg k
      → Apart kd k
      → Apart ks k
      → detail_prefix four k ≡ detail_prefix ps k
  unfolding four
  four_prefix k na ng nd ns =
      prefix_past ka k a _ na
      ∙ prefix_past kg k g _ ng
      ∙ prefix_past kd k d _ nd
      ∙ prefix_past ks k s _ ns

  pub four_gateway :
      Apart ka kg → Apart kd kg → Apart ks kg → detail_get ps kg ≡ [] → detail_get four kg ≡ g
  unfolding four
  four_gateway na nd ns e =
      get_past ka kg a _ na ∙ get_here kg g _ (get_past kd kg d _ nd ∙ get_past ks kg s _ ns ∙ e)

module _ (ka kg kd ks g : Text) (addresses dns search : List Text) (ps : Pairs) where
  unfoldable pub lists : Pairs
  lists =
      four ka kg kd ks (join addresses (text ",")) g (join dns (text ",")) (join search (text ","))
        ps

  pub lists_addresses :
      All IsItem addresses
      → Apart kg ka
      → Apart kd ka
      → Apart ks ka
      → detail_prefix ps ka ≡ []
      → split_multi (detail_prefix lists ka) ≡ addresses
  unfolding lists four
  lists_addresses h ng nd ns e =
      list_here ka addresses _ h
        (prefix_past kg ka g _ ng ∙ prefix_past kd ka _ _ nd ∙ prefix_past ks ka _ _ ns ∙ e)

  pub lists_dns :
      All IsItem dns
      → Apart ka kd
      → Apart kg kd
      → Apart ks kd
      → detail_prefix ps kd ≡ []
      → split_multi (detail_prefix lists kd) ≡ dns
  unfolding lists four
  lists_dns h na ng ns e =
      ap split_multi (prefix_past ka kd _ _ na ∙ prefix_past kg kd g _ ng)
      ∙ list_here kd dns _ h (prefix_past ks kd _ _ ns ∙ e)

  pub lists_search :
      All IsItem search
      → Apart ka ks
      → Apart kg ks
      → Apart kd ks
      → detail_prefix ps ks ≡ []
      → split_multi (detail_prefix lists ks) ≡ search
  unfolding lists four
  lists_search h na ng nd e =
      ap split_multi
        (prefix_past ka ks _ _ na ∙ prefix_past kg ks g _ ng ∙ prefix_past kd ks _ _ nd)
      ∙ list_here ks search _ h e
