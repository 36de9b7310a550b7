-- ===== src/Wnet/Exclude/Lookup.antt =====
-- `excludedName`: what is decided from a name alone, and when the backend is asked.
use wfm.Prelude.{
  true, false, not, ◌||◌, ◌&&◌, List, [], ◌∷◌, ◌≡◌, ◌≢◌, ◌↔◌, ◌⊎◌, ◌∙◌, ap, inl, inr, refl, arith,
  Text, text_eq, nat_eq, ◌==◌, ◌!=◌, Any, All, any, length,
}
use wfm.Wnet.Types.{Interface}
use wfm.Wnet.Exclude.{
  ExcludeRule, ExcludeSet, normalize_mac, validate, new_exclude_set, match, matches, excluded_iface,
}
use wfm.Wnet.Exclude.Spec.{Matches, Hidden, HiddenByName, IsValidRule}
use wfm.Wnet.Exclude.Rules.{excluded_iface_iff, match_iff, need_mac-foldl, need_pci-foldl}

-- A rule that validation accepts has no address that normalises to nothing.
mac_of_IsValidRule : (r : ExcludeRule) → IsValidRule r → normalize_mac r.mac ≡ [] → r.mac ≡ []
unfolding validate
mac_of_IsValidRule r v e = ground (arith)

-- Some rule sets a field, and the interface has every attribute that the rule sets and agrees in it.
abbrev pub HiddenPresent : List ExcludeRule → Interface → Type 0
HiddenPresent rules it =
    Any
      (λ r.
        Matches r it.name it.mac it.pci
        × ((r.mac ≡ []) ⊎ (it.mac ≢ []))
        × ((r.pci ≡ []) ⊎ (it.pci ≢ [])))
      rules

present_of_Matches :
    (r : ExcludeRule) (it : Interface)
    → IsValidRule r
    → Matches r it.name it.mac it.pci
    → ((r.mac ≡ []) ⊎ (it.mac ≢ [])) × ((r.pci ≡ []) ⊎ (it.pci ≢ []))
unfolding normalize_mac
present_of_Matches r it v m = (
  elim (text_eq.dec r.mac []) [
    | yes e ↦ inl e
    | no n ↦ inr (λ e. n (mac_of_IsValidRule r v (m.same_mac n ∙ ap normalize_mac e)))
  ],
  elim (text_eq.dec r.pci []) [ yes e ↦ inl e | no n ↦ inr ((m.same_pci n).0) ],
)

HiddenPresent-Hidden :
    (rules : List ExcludeRule) (it : Interface) → HiddenPresent rules it → Hidden rules it
HiddenPresent-Hidden [] it h = h
HiddenPresent-Hidden (r ∷ rules) it (inl (m, mac, pci)) = inl m
HiddenPresent-Hidden (r ∷ rules) it (inr h) = inr (HiddenPresent-Hidden rules it h)

Hidden-HiddenPresent :
    (rules : List ExcludeRule) (it : Interface)
    → All IsValidRule rules
    → Hidden rules it
    → HiddenPresent rules it
Hidden-HiddenPresent [] it v h = h
Hidden-HiddenPresent (r ∷ rules) it (v, vs) (inl m) =
    let (mac, pci) = present_of_Matches r it v m in inl (m, mac, pci)
Hidden-HiddenPresent (r ∷ rules) it (v, vs) (inr h) = inr (Hidden-HiddenPresent rules it vs h)

-- Of rules that validation accepts, the compiled form excludes an interface exactly when some rule
-- sets a field and the interface agrees in every field that the rule sets, the MAC and the PCI
-- address among them only if the interface has one.
pub excluded_iface_validated :
    (rules : List ExcludeRule) (it : Interface)
    → All IsValidRule rules
    → (excluded_iface (new_exclude_set rules) it ≡ true) ↔ HiddenPresent rules it
excluded_iface_validated rules it valid = (
  λ e. Hidden-HiddenPresent rules it valid ((excluded_iface_iff rules it).0 e),
  λ h. (excluded_iface_iff rules it).1 (HiddenPresent-Hidden rules it h),
)

by_name_of_Matches :
    (r : ExcludeRule) (name : Text)
    → IsValidRule r
    → Matches r name [] []
    → (r.name ≡ name) × (r.name ≢ []) × (r.mac ≡ []) × (r.pci ≡ [])
unfolding normalize_mac
by_name_of_Matches r name v m =
    let no_mac : r.mac ≡ [] = elim (text_eq.dec r.mac []) [
      | yes e ↦ e
      | no n ↦ mac_of_IsValidRule r v (m.same_mac n)
    ] in
    let no_pci : r.pci ≡ [] = elim (text_eq.dec r.pci []) [
      | yes e ↦ e
      | no n ↦ absurd ((m.same_pci n).0 refl)
    ] in
    ground arith

Matches-of_by_name :
    (r : ExcludeRule) (name mac pci : Text)
    → (r.name ≡ name) × (r.name ≢ []) × (r.mac ≡ []) × (r.pci ≡ [])
    → Matches r name mac pci
Matches-of_by_name r name mac pci h = ground arith

Any-map :
    {A : Type 0} {P Q : A → Type 0} (xs : List A) → ((x : A) → P x → Q x) → Any P xs → Any Q xs
Any-map [] f a = a
Any-map (x ∷ xs) f (inl p) = inl (f x p)
Any-map (x ∷ xs) f (inr a) = inr (Any-map xs f a)

-- For valid rules the match on a name alone finds the rules that set only the name.
pub match-name_iff :
    (rules : List ExcludeRule) (name : Text)
    → All IsValidRule rules
    → (match (new_exclude_set rules) name [] [] ≡ true) ↔ HiddenByName rules name
match-name_iff rules name v = (
  λ h. by_name rules v ((match_iff rules name [] []).0 h),
  λ h. (match_iff rules name [] []).1 (Any-map rules (λ r. Matches-of_by_name r name [] []) h),
)
  where
    by_name :
        (rules : List ExcludeRule)
        → All IsValidRule rules
        → Any (λ r. Matches r name [] []) rules
        → HiddenByName rules name
    by_name [] v a = a
    by_name (r ∷ rules) (v, vs) (inl m) = inl (by_name_of_Matches r name v m)
    by_name (r ∷ rules) (v, vs) (inr a) = inr (by_name rules vs a)

pub Hidden-of_HiddenByName :
    (rules : List ExcludeRule) (it : Interface) → HiddenByName rules it.name → Hidden rules it
Hidden-of_HiddenByName rules it h =
    Any-map rules (λ r. Matches-of_by_name r it.name it.mac it.pci) h

-- A rule that needs no address of the interface matches its name; any other sets an address.
needs_of_Matches :
    (r : ExcludeRule) (name mac pci : Text)
    → Matches r name mac pci
    → Matches r name [] [] ⊎ (((r.mac != []) ≡ true) ⊎ ((r.pci != []) ≡ true))
needs_of_Matches r name mac pci m = elim (text_eq.dec r.mac []) [
  | yes e ↦ elim (text_eq.dec r.pci []) [
    | yes f ↦ inl (Matches-of_by_name r name [] [] (ground arith))
    | no n ↦ inr (inr (ground arith))
  ]
  | no n ↦ inr (inl (ground arith))
]

needs_of_Any :
    (rules : List ExcludeRule) (name mac pci : Text)
    → Any (λ r. Matches r name mac pci) rules
    → Any (λ r. Matches r name [] []) rules
      ⊎ (any (λ r. r.mac != []) rules || any (λ r. r.pci != []) rules) ≡ true
needs_of_Any [] name mac pci a = absurd a
needs_of_Any (r ∷ rules) name mac pci (inl m) = ground (arith, needs_of_Matches r name mac pci m)
needs_of_Any (r ∷ rules) name mac pci (inr a) = ground (arith, needs_of_Any rules name mac pci a)

-- A hidden interface is matched by its name, or the flags ask for a lookup.
pub lookup_of_Hidden :
    (rules : List ExcludeRule) (it : Interface)
    → Hidden rules it
    → let s = new_exclude_set rules in
      (match s it.name [] [] ≡ true) ⊎ ((not s.need_mac && not s.need_pci) ≡ false)
unfolding new_exclude_set
lookup_of_Hidden rules it h = elim (needs_of_Any rules it.name it.mac it.pci h) [
  | inl a ↦ inl ((match_iff rules it.name [] []).1 a)
  | inr n ↦ inr (rw (need_mac-foldl, need_pci-foldl) (ground arith))
]

-- A set that matches something has rules.
pub rules_of_match :
    (s : ExcludeSet) (name mac pci : Text)
    → match s name mac pci ≡ true
    → (length s.rules == 0) ≡ false
unfolding match
rules_of_match s name mac pci h = go s.rules h
  where
    go :
        (rules : List ExcludeRule)
        → any (λ r. matches r name (normalize_mac mac) pci) rules ≡ true
        → (length rules == 0) ≡ false
    go [] h = cc
    go (r ∷ rules) h = ground arith
