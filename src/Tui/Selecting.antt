-- ===== src/Tui/Selecting.antt =====
-- `applyScan` of internal/tui/model.go: the order of the access points and the cursor after a scan.
use wfm.Prelude.{
  ℕ, suc, ◌+◌, ◌-◌, ◌≤◌, ◌<◌, List, [], ◌∷◌, some, ◌≡◌, ◌≢◌, ◌∙◌, refl, arith, Text, text_eq,
  nat_eq, ◌==◌, ◌!=◌, ltb, if◌then◌else◌, length, get_elem?, keep, All, Any, inl, inr, Bool-cases,
}
use wfm.Prelude.Int.{ℤ, ◌≤ℤ◌, ltbℤ, ltbℤ-ne, int_eq}
use wfm.Server.Messages.{AccessPoint}
use wfm.Tui.Model.{
  Model, selected_ap, visible_rows, still, scroll, insert_ap, sort_aps, index_of, ap_id, apply_scan,
}
use wfm.Tui.Scrolling.{scroll_lem, scroll_aps}
use wfm.Tui.Wellformed.{rows_of_height-pos}

-- Every access point is at least as strong as those behind it.
abbrev pub Descends : List AccessPoint → Type 0
Descends [] = Unit
Descends (x ∷ xs) = All (λ y. y.signal ≤ℤ x.signal) xs × Descends xs

insert_ap-All :
    (P : AccessPoint → Type 0) (x : AccessPoint) (ys : List AccessPoint)
    → P x
    → All P ys
    → All P (insert_ap x ys)
unfolding insert_ap
insert_ap-All P x [] p h = (p, tt)
insert_ap-All P x (y ∷ ys) p (q, h) = ground (arith, insert_ap-All P x ys p h)

weaken :
    (a b : ℤ) (ys : List AccessPoint)
    → a ≤ℤ b
    → All (λ y. y.signal ≤ℤ a) ys
    → All (λ y. y.signal ≤ℤ b) ys
weaken a b [] h k = tt
weaken a b (y ∷ ys) h (p, k) = (omega arith, weaken a b ys h k)

insert_ap-Descends :
    (x : AccessPoint) (ys : List AccessPoint) → Descends ys → Descends (insert_ap x ys)
unfolding insert_ap
insert_ap-Descends x [] d = (tt, tt)
insert_ap-Descends x (y ∷ ys) (h, d) = elim (Bool-cases (ltbℤ x.signal y.signal)) [
  | inl weaker ↦
      let le : x.signal ≤ℤ y.signal = ground arith in
      rw (weaker, insert_ap)
        (insert_ap-All (λ z. z.signal ≤ℤ y.signal) x ys le h, insert_ap-Descends x ys d)
  | inr stronger ↦
      let le : y.signal ≤ℤ x.signal = ground arith in
      let all : Descends (x ∷ y ∷ ys) = ((le, weaken y.signal x.signal ys le h), (h, d)) in
      rw (stronger, insert_ap) all
]

sort_aps-Descends : (items : List AccessPoint) → Descends (sort_aps items)
unfolding sort_aps
sort_aps-Descends [] = tt
sort_aps-Descends (x ∷ xs) = insert_ap-Descends x (sort_aps xs) (sort_aps-Descends xs)

-- The access points of one strength, in their order.
abbrev pub of_signal : ℤ → List AccessPoint → List AccessPoint
of_signal s aps = keep (λ ap. ap.signal == s) aps

of_signal-insert_ap :
    (s : ℤ) (x : AccessPoint) (ys : List AccessPoint)
    → of_signal s (insert_ap x ys) ≡ of_signal s (x ∷ ys)
unfolding insert_ap
of_signal-insert_ap s x [] = refl
of_signal-insert_ap s x (y ∷ ys) =
    ground (arith, of_signal-insert_ap s x ys, ltbℤ-ne x.signal y.signal)

of_signal-sort_aps :
    (s : ℤ) (items : List AccessPoint) → of_signal s (sort_aps items) ≡ of_signal s items
unfolding sort_aps
of_signal-sort_aps s [] = refl
of_signal-sort_aps s (x ∷ xs) =
    of_signal-insert_ap s x (sort_aps xs) ∙ ground (arith, of_signal-sort_aps s xs)

-- The index of the first access point of an id that is there.
index_of_lem :
    (id : Text) (i idx : ℕ) (items : List AccessPoint)
    → Any (λ ap. ap.id ≡ id) items
    → (k : ℕ) × (ap : AccessPoint) × (index_of id i idx items ≡ i + k)
      × (k < length items)
      × (get_elem? items k ≡ some ap)
      × (ap.id ≡ id)
unfolding index_of
index_of_lem id i idx [] h = absurd h
index_of_lem id i idx (x ∷ items) h = elim (text_eq.dec x.id id) [
  | yes same ↦ (0, x, ground arith, omega arith, refl, same)
  | no differ ↦
      let there : Any (λ ap. ap.id ≡ id) items = ground arith in
      let (k, ap, e, l, g, p) = index_of_lem id (suc i) idx items there in
      (suc k, ap, ground arith, omega (arith, l), g, p)
]

Any-insert_ap :
    (id : Text) (x : AccessPoint) (ys : List AccessPoint)
    → Any (λ ap. ap.id ≡ id) (x ∷ ys)
    → Any (λ ap. ap.id ≡ id) (insert_ap x ys)
unfolding insert_ap
Any-insert_ap id x [] h = h
Any-insert_ap id x (y ∷ ys) h = ground (arith, Any-insert_ap id x ys)

Any-sort_aps :
    (id : Text) (items : List AccessPoint)
    → Any (λ ap. ap.id ≡ id) items
    → Any (λ ap. ap.id ≡ id) (sort_aps items)
unfolding sort_aps
Any-sort_aps id [] h = h
Any-sort_aps id (x ∷ xs) h =
    Any-insert_ap id x (sort_aps xs) (elim h [ inl p ↦ inl p | inr q ↦ inr (Any-sort_aps id xs q) ])

apply_scan-aps : (m : Model) (items : List AccessPoint) → (apply_scan m items).aps ≡ sort_aps items
unfolding apply_scan
apply_scan-aps m items =
    let sel_id = ap_id (selected_ap m) in
    let sorted = sort_aps items in
    let idx = if sel_id != [] then index_of sel_id 0 m.ap_index sorted else m.ap_index in
    let idx' = if ltb (length sorted - 1) idx then length sorted - 1 else idx in
    scroll_aps (visible_rows m) still (record m { aps = sorted; ap_index = idx' })

-- A scan result is shown strongest first, with those of equal strength in the order in which the
-- scan gave them, so that nothing is lost or added.
pub apply_scan-Descends :
    (m : Model) (items : List AccessPoint)
    → let aps = (apply_scan m items).aps in
      Descends aps × ((s : ℤ) → of_signal s aps ≡ of_signal s items)
apply_scan-Descends m items =
    rw (apply_scan-aps m items) (sort_aps-Descends items, λ s. of_signal-sort_aps s items)

apply_scan-found :
    (m : Model) (items : List AccessPoint) (id : Text) (k : ℕ)
    → ap_id (selected_ap m) ≡ id
    → id ≢ []
    → index_of id 0 m.ap_index (sort_aps items) ≡ k
    → k < length (sort_aps items)
    → apply_scan m items
      ≡ scroll (visible_rows m) still (record m { aps = sort_aps items; ap_index = k })
unfolding apply_scan
apply_scan-found m items id k e n f l = rw e (ground arith)

length-some : (aps : List AccessPoint) (k : ℕ) → k < length aps → aps ≢ []
length-some [] k h e = omega arith
length-some (x ∷ aps) k h e = cc

selected_at :
    (m : Model) (rows : ℕ) (ap : AccessPoint)
    → 1 ≤ rows
    → m.ap_index < length m.aps
    → get_elem? m.aps m.ap_index ≡ some ap
    → selected_ap (scroll rows still m) ≡ some ap
unfolding selected_ap
selected_at m rows ap r l g =
    let (a, i, v, margin) = scroll_lem rows still m (length-some m.aps m.ap_index l) r in
    let same : (scroll rows still m).ap_index ≡ m.ap_index = i ∙ omega arith in rw (a, same) g

-- The cursor follows the selected access point: if the new result has its id, the access point
-- that is selected afterwards has that id too.
pub apply_scan-selected :
    (m : Model) (items : List AccessPoint) (ap : AccessPoint)
    → selected_ap m ≡ some ap
    → ap.id ≢ []
    → Any (λ x. x.id ≡ ap.id) items
    → (ap' : AccessPoint) × (selected_ap (apply_scan m items) ≡ some ap') × (ap'.id ≡ ap.id)
apply_scan-selected m items ap e n h =
    let sorted = sort_aps items in
    let (k, ap', f, l, g, p) =
      index_of_lem ap.id 0 m.ap_index sorted (Any-sort_aps ap.id items h) in
    let found = apply_scan-found m items ap.id k (rw e refl) n (f ∙ omega arith) l in
    (
      ap',
      rw found (
          selected_at (record m { aps = sorted; ap_index = k }) (visible_rows m) ap'
            (rows_of_height-pos m.height) l g),
      p,
    )
