-- ===== src/Wnet/Exclude/Hiding.antt =====
-- What the wrapped backend of internal/wnet/exclude.go answers about hidden and visible
-- interfaces, operation by operation.
use wfm.Prelude.{
  Bool, true, false, not, List, [], ◌≡◌, ◌≢◌, ◌⊎◌, inl, inr, refl, Text, text_eq, nat_eq, ◌==◌, All,
  length, keep, Bool-cases,
}
use wfm.Wnet.Types.{Interface, err_not_found}
use wfm.Wnet.Backend.{Result, ok, err, Action, Backend, after}
use wfm.Wnet.Exclude.{
  ExcludeRule, ExcludeSet, new_exclude_set, match, excluded_iface, excluded_name, with_excluded,
  unless_excluded, filtered_backend, filtered_interfaces, filtered_interface, filtered_set_power,
  filtered_scan, filtered_activate,
}
use wfm.Wnet.Exclude.Spec.{Hidden, IsValidRule, Without}
use wfm.Wnet.Exclude.Verdict.{
  Without-keep, Without-none, no_rules-Hidden, excluded_of_Hidden, not_by_name, not_excluded,
  not_excluded_of_visible,
}
use wfm.Wnet.Exclude.Rules.{excluded_iface_iff}
use wfm.Wnet.Exclude.Lookup.{rules_of_match}

-- The call was answered by `ErrNotFound`, after a lookup of the interface at most.
abbrev pub Refused : {W A : Type 0} → W → W → Result A × W → Type 0
Refused w w1 r = (r ≡ (err err_not_found, w)) ⊎ (r ≡ (err err_not_found, w1))

-- The call reached the backend, after a lookup of the interface at most.
abbrev pub Reached : {W A : Type 0} → W → W → Action W A → Result A × W → Type 0
Reached w w1 call r = (r ≡ call w) ⊎ (r ≡ call w1)

module _ (rules : List ExcludeRule) {W : Type 0} (b : Backend W) where
  -- The list of interfaces is the backend's without those that a rule hides, in its order.
  pub interfaces-with_excluded :
      (its : List Interface) (w w' : W)
      → b.interfaces w ≡ (ok its, w')
      → (out : List Interface) × ((with_excluded b rules).interfaces w ≡ (ok out, w'))
        × Without (Hidden rules) its out
  unfolding with_excluded filtered_backend filtered_interfaces
  interfaces-with_excluded its w w' e =
      elim (Bool-cases (length (new_exclude_set rules).rules == 0)) [
        | inl none ↦ (
          its,
          rw (none, with_excluded) e,
          Without-none its (λ it. no_rules-Hidden rules it none),
        )
        | inr some ↦ (
          keep (λ it. not (excluded_iface (new_exclude_set rules) it)) its,
          rw (some, with_excluded) (rw (e, after)),
          Without-keep (excluded_iface (new_exclude_set rules)) (excluded_iface_iff rules) its,
        )
      ]

  module _ (name : Text) (it : Interface) (w w1 : W) where
    unless_excluded_hidden :
        {A : Type 0} (s : ExcludeSet) (call : Action W A)
        → (excluded_name b s name w ≡ (true, w)) ⊎ (excluded_name b s name w ≡ (true, w1))
        → Refused {A = A} w w1 (unless_excluded b s name call w)
    unfolding unless_excluded
    unless_excluded_hidden s call (inl e) = inl (rw e)
    unless_excluded_hidden s call (inr e) = inr (rw e)

    unless_excluded_visible :
        {A : Type 0} (s : ExcludeSet) (call : Action W A)
        → (excluded_name b s name w ≡ (false, w)) ⊎ (excluded_name b s name w ≡ (false, w1))
        → Reached {A = A} w w1 call (unless_excluded b s name call w)
    unfolding unless_excluded
    unless_excluded_visible s call (inl e) = inl (rw e)
    unless_excluded_visible s call (inr e) = inr (rw e)

    pub filtered_interface_hidden :
        (s : ExcludeSet)
        → b.interface name w ≡ (ok it, w1)
        → excluded_iface s it ≡ true
        → Refused {A = Interface} w w1 (filtered_interface b s name w)
    unfolding filtered_interface
    filtered_interface_hidden s e h = elim (Bool-cases (match s name [] [])) [
      | inl m ↦ inl (rw m)
      | inr m ↦ inr (rw m (rw (e, after) (rw h)))
    ]

    pub filtered_interface_visible :
        (s : ExcludeSet)
        → b.interface name w ≡ (ok it, w1)
        → match s name [] [] ≡ false
        → excluded_iface s it ≡ false
        → filtered_interface b s name w ≡ (ok it, w1)
    unfolding filtered_interface
    filtered_interface_visible s e m h = rw m (rw (e, after) (rw h))

    -- A hidden interface that the backend knows is answered as not found by every operation
    -- that names it, and none of the operations reaches the backend.
    pub with_excluded-Hidden :
        (on : Bool) (profile_id bssid : Text)
        → b.interface name w ≡ (ok it, w1)
        → it.name ≡ name
        → name ≢ []
        → Hidden rules it
        → let f = with_excluded b rules in
          Refused {A = Interface} w w1 (f.interface name w)
          × Refused w w1 (f.set_power name on w)
          × Refused w w1 (f.scan name w)
          × Refused w w1 (f.activate name profile_id bssid w)
    unfolding with_excluded filtered_backend filtered_set_power filtered_scan filtered_activate
        excluded_iface
    with_excluded-Hidden on profile_id bssid e n p h =
        let s = new_exclude_set rules in
        let same = (excluded_iface_iff rules it).1 h in
        let found = excluded_of_Hidden rules b name it w w1 e n p h in
        rw (rules_of_match s it.name it.mac it.pci same, with_excluded)
          (
            filtered_interface_hidden s e same,
            unless_excluded_hidden s (b.set_power name on) found,
            unless_excluded_hidden s (b.scan name) found,
            unless_excluded_hidden s (b.activate name profile_id bssid) found,
          )

    -- With valid rules, an interface that no rule hides is answered as the backend knows it, and
    -- every operation that names it reaches the backend.
    pub with_excluded_visible :
        (on : Bool) (profile_id bssid : Text)
        → All IsValidRule rules
        → b.interface name w ≡ (ok it, w1)
        → it.name ≡ name
        → ¬ Hidden rules it
        → let f = with_excluded b rules in
          (f.interface name w ≡ (ok it, w1))
          × Reached w w1 (b.set_power name on) (f.set_power name on w)
          × Reached w w1 (b.scan name) (f.scan name w)
          × Reached w w1 (b.activate name profile_id bssid) (f.activate name profile_id bssid w)
    unfolding with_excluded filtered_backend filtered_set_power filtered_scan filtered_activate
    with_excluded_visible on profile_id bssid v e n h =
        let s = new_exclude_set rules in
        let clear = not_excluded_of_visible rules b name it w w1 v e n h in
        elim (Bool-cases (length (new_exclude_set rules).rules == 0)) [
          | inl none ↦ rw (none, with_excluded) (e, inl refl, inl refl, inl refl)
          | inr some ↦
              rw (some, with_excluded)
                (
                  filtered_interface_visible s e (not_by_name rules b name it w w1 v n h)
                      (not_excluded rules b name it w w1 h),
                  unless_excluded_visible s (b.set_power name on) clear,
                  unless_excluded_visible s (b.scan name) clear,
                  unless_excluded_visible s (b.activate name profile_id bssid) clear,
                )
        ]
