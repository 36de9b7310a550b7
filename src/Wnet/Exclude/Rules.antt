-- ===== src/Wnet/Exclude/Rules.antt =====
-- The compiled rule set decides `Hidden` (`newExcludeSet`, `match`, `pciMatch`).
use mathlib.Core.List.{foldl}
use wfm.Prelude.{
  Bool, true, not, ◌||◌, List, [], ◌∷◌, ◌++◌, ◌≡◌, ◌↔◌, inl, inr, refl, arith, Text, text_eq, ◌!=◌,
  has_suffix_iff, to_lower, trim_space, Any, any, any_iff, keep, append_assoc, append-nil,
  Bool-cases, sym, ◌∙◌,
}
use wfm.Wnet.Types.{Interface}
use wfm.Wnet.Exclude.{
  ExcludeRule, ExcludeSet, is_empty, normalize_mac, pci_match, matches, add_rule, new_exclude_set,
  match, excluded_iface,
}
use wfm.Wnet.Exclude.Spec.{SamePci, Matches, Hidden}

pub pci_match_iff : (rule actual : Text) → (pci_match rule actual ≡ true) ↔ SamePci rule actual
unfolding pci_match
pci_match_iff rule actual =
    ground (arith, has_suffix_iff (to_lower actual) (b':' ∷ to_lower (trim_space rule)))

pub matches_iff :
    (r : ExcludeRule) (name mac pci : Text)
    → (matches r name (normalize_mac mac) pci ≡ true) ↔ Matches r name mac pci
unfolding matches
matches_iff r name mac pci = ground (arith, pci_match_iff r.pci pci)

pub rules-foldl :
    (s : ExcludeSet) (rules : List ExcludeRule)
    → (foldl add_rule s rules).rules ≡ s.rules ++ keep (λ r. not (is_empty r)) rules
unfolding add_rule
rules-foldl s [] = sym (append-nil _)
rules-foldl s (r ∷ rules) =
    rules-foldl (add_rule s r) rules
    ∙ elim (Bool-cases (is_empty r)) [ inl e ↦ rw e | inr e ↦ rw e (rw append_assoc) ]

pub need_mac-foldl :
    (s : ExcludeSet) (rules : List ExcludeRule)
    → (foldl add_rule s rules).need_mac ≡ (s.need_mac || any (λ r. r.mac != []) rules)
unfolding add_rule is_empty
need_mac-foldl s [] = ground arith
need_mac-foldl s (r ∷ rules) = ground (arith, need_mac-foldl (add_rule s r) rules)

pub need_pci-foldl :
    (s : ExcludeSet) (rules : List ExcludeRule)
    → (foldl add_rule s rules).need_pci ≡ (s.need_pci || any (λ r. r.pci != []) rules)
unfolding add_rule is_empty
need_pci-foldl s [] = ground arith
need_pci-foldl s (r ∷ rules) = ground (arith, need_pci-foldl (add_rule s r) rules)

any-keep :
    {A : Type 0} (p q : A → Bool)
    → ((x : A) → p x ≡ true → q x ≡ true)
    → (xs : List A) → any p (keep q xs) ≡ any p xs
any-keep p q h [] = refl
any-keep p q h (x ∷ xs) = ground (arith, h x, any-keep p q h xs)

matches-not-empty :
    (name mac pci : Text) (r : ExcludeRule)
    → matches r name mac pci ≡ true
    → not (is_empty r) ≡ true
unfolding matches is_empty
matches-not-empty name mac pci r h = ground arith

-- Dropping the empty rules changes no answer.
pub match-new_exclude_set :
    (rules : List ExcludeRule) (name mac pci : Text)
    → match (new_exclude_set rules) name mac pci
      ≡ any (λ r. matches r name (normalize_mac mac) pci) rules
unfolding match new_exclude_set
match-new_exclude_set rules name mac pci =
    rw rules-foldl (any-keep _ _ (matches-not-empty name (normalize_mac mac) pci) rules)

-- The compiled rules match exactly the attributes that some rule matches.
pub match_iff :
    (rules : List ExcludeRule) (name mac pci : Text)
    → (match (new_exclude_set rules) name mac pci ≡ true) ↔ Any (λ r. Matches r name mac pci) rules
match_iff rules name mac pci =
    rw match-new_exclude_set (any_iff _ _ (λ r. matches_iff r name mac pci) rules)

-- The compiled rules exclude an interface exactly when some rule sets a field and the interface
-- satisfies every field that the rule sets.
pub excluded_iface_iff :
    (rules : List ExcludeRule) (it : Interface)
    → (excluded_iface (new_exclude_set rules) it ≡ true) ↔ Hidden rules it
unfolding excluded_iface
excluded_iface_iff rules it = match_iff rules it.name it.mac it.pci
