-- ===== src/Wnet/Exclude/Verdict.antt =====
-- What `excludedName` answers about an interface that a rule hides, and about one that none does.
use wfm.Prelude.{
  Bool, true, false, not, ◌&&◌, List, [], ◌∷◌, ◌≡◌, ◌≢◌, ◌↔◌, ◌⊎◌, inl, inr, arith, Text, text_eq,
  nat_eq, subst, sym, ◌==◌, All, length, keep, Bool-cases,
}
use wfm.Wnet.Types.{Interface}
use wfm.Wnet.Backend.{ok, Backend}
use wfm.Wnet.Exclude.{
  ExcludeRule, ExcludeSet, new_exclude_set, match, excluded_iface, excluded_name,
}
use wfm.Wnet.Exclude.Spec.{Hidden, HiddenByName, IsValidRule, Without, nil, drop, take}
use wfm.Wnet.Exclude.Rules.{excluded_iface_iff}
use wfm.Wnet.Exclude.Lookup.{
  match-name_iff, Hidden-of_HiddenByName, lookup_of_Hidden, rules_of_match,
}

pub Without-keep :
    {A : Type 0} {P : A → Type 0} (p : A → Bool)
    → ((x : A) → (p x ≡ true) ↔ P x)
    → (xs : List A) → Without P xs (keep (λ x. not (p x)) xs)
Without-keep p h [] = nil
Without-keep p h (x ∷ xs) = elim (Bool-cases (p x)) [
  | inl e ↦ rw e (drop ((h x).0 e) (Without-keep p h xs))
  | inr e ↦ rw e (take (λ q. cc ((h x).1 q)) (Without-keep p h xs))
]

pub Without-none : {A : Type 0} {P : A → Type 0} (xs : List A) → ((x : A) → ¬ P x) → Without P xs xs
Without-none [] h = nil
Without-none (x ∷ xs) h = take (h x) (Without-none xs h)

module _ (rules : List ExcludeRule) where
  -- Where the wrapper is left out, nothing is hidden.
  pub no_rules-Hidden :
      (it : Interface) → (length (new_exclude_set rules).rules == 0) ≡ true → ¬ Hidden rules it
  unfolding excluded_iface
  no_rules-Hidden it e h = cc (
      rules_of_match (new_exclude_set rules) it.name it.mac it.pci
        ((excluded_iface_iff rules it).1 h))

  module _ {W : Type 0} (b : Backend W) where
    module _ (name : Text) (it : Interface) (w w1 : W) where
      answered_true :
          (s : ExcludeSet)
          → b.interface name w ≡ (ok it, w1)
          → it.name ≡ name
          → name ≢ []
          → excluded_iface s it ≡ true
          → (length s.rules == 0) ≡ false
          → (match s it.name [] [] ≡ true) ⊎ ((not s.need_mac && not s.need_pci) ≡ false)
          → (excluded_name b s name w ≡ (true, w)) ⊎ (excluded_name b s name w ≡ (true, w1))
      unfolding excluded_name
      answered_true s e n p h some reason = ground arith

      pub excluded_of_Hidden :
          b.interface name w ≡ (ok it, w1)
          → it.name ≡ name
          → name ≢ []
          → Hidden rules it
          → (excluded_name b (new_exclude_set rules) name w ≡ (true, w))
            ⊎ (excluded_name b (new_exclude_set rules) name w ≡ (true, w1))
      unfolding excluded_iface
      excluded_of_Hidden e n p h =
          let same = (excluded_iface_iff rules it).1 h in
          answered_true (new_exclude_set rules) e n p same
            (rules_of_match (new_exclude_set rules) it.name it.mac it.pci same)
            (lookup_of_Hidden rules it h)

      answered_false :
          (s : ExcludeSet)
          → b.interface name w ≡ (ok it, w1)
          → match s name [] [] ≡ false
          → excluded_iface s it ≡ false
          → (excluded_name b s name w ≡ (false, w)) ⊎ (excluded_name b s name w ≡ (false, w1))
      unfolding excluded_name
      answered_false s e m h = ground arith

      pub not_by_name :
          All IsValidRule rules
          → it.name ≡ name
          → ¬ Hidden rules it
          → match (new_exclude_set rules) name [] [] ≡ false
      not_by_name v n h = elim (Bool-cases (match (new_exclude_set rules) name [] [])) [
        | inl e ↦ absurd (
            h (
              Hidden-of_HiddenByName rules it
                (subst (HiddenByName rules) (sym n) ((match-name_iff rules name v).0 e))))
        | inr e ↦ e
      ]

      pub not_excluded : ¬ Hidden rules it → excluded_iface (new_exclude_set rules) it ≡ false
      not_excluded h = elim (Bool-cases (excluded_iface (new_exclude_set rules) it)) [
        | inl e ↦ absurd (h ((excluded_iface_iff rules it).0 e))
        | inr e ↦ e
      ]

      pub not_excluded_of_visible :
          All IsValidRule rules
          → b.interface name w ≡ (ok it, w1)
          → it.name ≡ name
          → ¬ Hidden rules it
          → (excluded_name b (new_exclude_set rules) name w ≡ (false, w))
            ⊎ (excluded_name b (new_exclude_set rules) name w ≡ (false, w1))
      not_excluded_of_visible v e n h =
          answered_false (new_exclude_set rules) e (not_by_name v n h) (not_excluded h)
