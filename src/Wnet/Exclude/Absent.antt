-- ===== src/Wnet/Exclude/Absent.antt =====
-- "As if the interface were absent from the system": over a backend whose lookups agree with its
-- listing and change nothing, the wrapped backend is such a backend for the visible interfaces.
use wfm.Prelude.{
  Bool, true, false, not, List, [], ◌∷◌, ◌≡◌, ◌≢◌, ◌⊎◌, inl, inr, refl, ◌∙◌, arith, Text, text_eq,
  nat_eq, subst, ◌==◌, All, length, keep, find, Option, none, some, Bool-cases, Option-cases,
}
use wfm.Wnet.Types.{Interface, err_not_found}
use wfm.Wnet.Backend.{Result, ok, err, Backend, after}
use wfm.Wnet.Exclude.{
  ExcludeRule, ExcludeSet, new_exclude_set, match, excluded_iface, with_excluded, filtered_backend,
  filtered_interfaces, filtered_interface,
}
use wfm.Wnet.Exclude.Spec.{Hidden, IsValidRule, Without}
use wfm.Wnet.Exclude.Rules.{excluded_iface_iff}
use wfm.Wnet.Exclude.Verdict.{Without-keep, Without-none, no_rules-Hidden, not_by_name}
use wfm.Wnet.Exclude.Hiding.{filtered_interface_hidden, filtered_interface_visible}

abbrev pub named : Text → List Interface → Option Interface
named name its = find (λ it. it.name == name) its

abbrev pub answer : Option Interface → Result Interface
answer none = err err_not_found
answer (some it) = ok it

-- The listing is `listed`, a lookup finds the first interface of the name in it, and neither
-- changes the world.
pub record IsRegistry {W : Type 0} (b : Backend W) (listed : W → List Interface) : Type 0 where
  pub interfaces_eq : (w : W) → b.interfaces w ≡ (ok (listed w), w)
  pub interface_eq :
      (w : W) (name : Text) → b.interface name w ≡ (answer (named name (listed w)), w)

abbrev pub HasDistinctNames : List Interface → Type 0
HasDistinctNames [] = Unit
HasDistinctNames (it ∷ its) = All (λ other. other.name ≢ it.name) its × HasDistinctNames its

module _ (name : Text) (q : Interface → Bool) where
  named-keep-none : (its : List Interface) → named name its ≡ none → named name (keep q its) ≡ none
  named-keep-none [] e = refl
  named-keep-none (x ∷ its) e = ground (arith, named-keep-none its)

  named-keep-some :
      (its : List Interface) (it : Interface)
      → named name its ≡ some it
      → q it ≡ true
      → named name (keep q its) ≡ some it
  named-keep-some [] it e h = cc
  named-keep-some (x ∷ its) it e h = ground (arith, named-keep-some its it)

  named_of_other :
      (its : List Interface) → All (λ other. other.name ≢ name) its → named name its ≡ none
  named_of_other [] h = refl
  named_of_other (x ∷ its) h = ground (arith, named_of_other its)

  named-keep_dropped :
      (its : List Interface) (it : Interface)
      → HasDistinctNames its
      → named name its ≡ some it
      → q it ≡ false
      → named name (keep q its) ≡ none
  named-keep_dropped [] it d e h = refl
  named-keep_dropped (x ∷ its) it (other, d) e h = elim (text_eq.dec x.name name) [
    | yes same ↦
        let rest : All (λ other. other.name ≢ name) its =
          subst (λ n. All (λ other. other.name ≢ n) its) same other in
        ground (arith, named-keep-none its (named_of_other its rest))
    | no differ ↦ ground (arith, named-keep_dropped its it d)
  ]

named-name :
    (name : Text) (its : List Interface) (it : Interface)
    → named name its ≡ some it
    → it.name ≡ name
named-name name [] it e = cc
named-name name (x ∷ its) it e = ground (arith, named-name name its it)

module _ {W : Type 0} (b : Backend W) (listed : W → List Interface) (rules : List ExcludeRule) where
  abbrev compiled : ExcludeSet
  compiled = new_exclude_set rules

  -- The interfaces that no rule hides.
  abbrev pub visible : W → List Interface
  visible w = keep (λ it. not (excluded_iface compiled it)) (listed w)

  -- A lookup that finds nothing is answered as not found, whether or not the rules decide first.
  unresolved :
      (name : Text) (w : W)
      → b.interface name w ≡ (err err_not_found, w)
      → filtered_interface b compiled name w ≡ (err err_not_found, w)
  unfolding filtered_interface
  unresolved name w e = elim (Bool-cases (match compiled name [] [])) [
    | inl m ↦ rw m
    | inr m ↦ rw m (rw (e, after))
  ]

  filtered-answer :
      All IsValidRule rules
      → IsRegistry b listed
      → (name : Text) (w : W) → HasDistinctNames (listed w)
      → filtered_interface b compiled name w ≡ (answer (named name (visible w)), w)
  filtered-answer v r name w d = elim (Option-cases (named name (listed w))) [
    | inl absent ↦
        rw (named-keep-none name (λ it. not (excluded_iface compiled it)) (listed w) absent)
          (unresolved name w (r.interface_eq w name ∙ rw absent))
    | inr (it, found) ↦
        let looked : b.interface name w ≡ (ok it, w) = r.interface_eq w name ∙ rw found in
        elim (Bool-cases (excluded_iface compiled it)) [
          | inl e ↦
              rw
                (named-keep_dropped name (λ it. not (excluded_iface compiled it)) (listed w) it d
                  found (rw e))
                (both (filtered_interface_hidden rules b name it w w compiled looked e))
          | inr e ↦
              rw
                (named-keep-some name (λ it. not (excluded_iface compiled it)) (listed w) it found
                  (rw e))
                (filtered_interface_visible rules b name it w w compiled looked
                  (not_by_name rules b name it w w v (named-name name (listed w) it found)
                    (λ h. cc ((excluded_iface_iff rules it).1 h)))
                  e)
        ]
  ]
    where
      both :
          {x : Result Interface × W}
          → (x ≡ (err err_not_found, w)) ⊎ (x ≡ (err err_not_found, w))
          → x ≡ (err err_not_found, w)
      both (inl e) = e
      both (inr e) = e

  -- With valid rules and interfaces of distinct names, the wrapped backend's listing is the
  -- backend's without the hidden interfaces, and its lookup finds exactly the interfaces of that
  -- listing, as a backend's does on a system in which the hidden interfaces are absent.
  pub with_excluded-IsRegistry :
      All IsValidRule rules
      → IsRegistry b listed
      → ((w : W) → HasDistinctNames (listed w))
      → (listed' : W → List Interface) × IsRegistry (with_excluded b rules) listed'
        × ((w : W) → Without (Hidden rules) (listed w) (listed' w))
  unfolding with_excluded filtered_backend filtered_interfaces
  with_excluded-IsRegistry v r d = elim (Bool-cases (length compiled.rules == 0)) [
    | inl bare ↦ (
      listed,
      rw (bare, with_excluded) r,
      λ w. Without-none (listed w) (λ it. no_rules-Hidden rules it bare),
    )
    | inr wrapped ↦ (
      visible,
      rw (wrapped, with_excluded)
          (record {
            interfaces_eq = λ w. rw (r.interfaces_eq w, after);
            interface_eq = λ w name. filtered-answer v r name w (d w);
          }),
      λ w. Without-keep (excluded_iface compiled) (excluded_iface_iff rules) (listed w),
    )
  ]
