-- ===== src/Wnet/Exclude/Connections.antt =====
-- Connections bound to hidden interfaces: the listing leaves them out, and an operation on one is
-- refused before the backend acts.
use wfm.Prelude.{
  true, false, List, [], ◌∷◌, ◌≡◌, ◌≢◌, ◌⊎◌, inl, inr, refl, Text, text_eq, nat_eq, ◌==◌, All,
  length, Bool-cases,
}
use wfm.Wnet.Types.{Interface, Active, err_not_found}
use wfm.Wnet.Backend.{ok, err, Backend, after}
use wfm.Wnet.Exclude.{
  ExcludeRule, new_exclude_set, excluded_iface, excluded_name, with_excluded, unless_excluded,
  filtered_backend, visible_connections, filtered_connections, filtered_connection,
  visible_connection, filtered_deactivate, filtered_status, filtered_watch,
}
use wfm.Wnet.Exclude.Spec.{Hidden, IsValidRule, Without, nil, drop, take}
use wfm.Wnet.Exclude.Rules.{excluded_iface_iff}
use wfm.Wnet.Exclude.Lookup.{rules_of_match}
use wfm.Wnet.Exclude.Verdict.{
  no_rules-Hidden, Without-none, excluded_of_Hidden, not_excluded_of_visible,
}

-- The backend resolves the name, without changing the world, to an interface of that name.
abbrev pub Resolves : {W : Type 0} → Backend W → W → Text → Interface → Type 0
Resolves b w name it = (b.interface name w ≡ (ok it, w)) × (it.name ≡ name) × (name ≢ [])

-- Each connection with the interface that it is bound to.
abbrev pub Bound : {W : Type 0} → Backend W → W → Active × Interface → Type 0
Bound b w (a, it) = Resolves b w a.iface it

abbrev pub actives : List (Active × Interface) → List Active
actives [] = []
actives ((a, it) ∷ rest) = a ∷ actives rest

module _ {W : Type 0} (b : Backend W) (rules : List ExcludeRule) where
  one {ℓ} : {A : Type ℓ} → A ⊎ A → A
  one (inl a) = a
  one (inr a) = a

  excluded-true :
      (w : W) (name : Text) (it : Interface)
      → Resolves b w name it
      → Hidden rules it
      → excluded_name b (new_exclude_set rules) name w ≡ (true, w)
  excluded-true w name it (e, n, p) h = one (excluded_of_Hidden rules b name it w w e n p h)

  excluded-false :
      (w : W) (name : Text) (it : Interface)
      → All IsValidRule rules
      → Resolves b w name it
      → ¬ Hidden rules it
      → excluded_name b (new_exclude_set rules) name w ≡ (false, w)
  excluded-false w name it v (e, n, p) h = one (not_excluded_of_visible rules b name it w w v e n h)

  visible_connections_lem :
      All IsValidRule rules
      → (found : List (Active × Interface)) (w : W) → All (Bound b w) found
      → (out : List (Active × Interface)) × (visible_connections b
            (new_exclude_set rules)
            (actives found)
            w
          ≡ (actives out, w))
        × Without (λ c. Hidden rules c.1) found out
  unfolding visible_connections excluded_iface
  visible_connections_lem v [] w h = ([], refl, nil)
  visible_connections_lem v ((a, it) ∷ found) w (r, h) =
      let (out, e, f) = visible_connections_lem v found w h in
      elim (Bool-cases (excluded_iface (new_exclude_set rules) it)) [
        | inl hit ↦
            let hidden = (excluded_iface_iff rules it).0 hit in
            (out, rw (excluded-true w a.iface it r hidden) (rw e), drop hidden f)
        | inr miss ↦
            let clear : ¬ Hidden rules it = λ h. cc ((excluded_iface_iff rules it).1 h) in
            ((a, it) ∷ out, rw (excluded-false w a.iface it v r clear) (rw e), take clear f)
      ]

  -- The listing of connections is the backend's without those bound to a hidden interface.
  pub connections-with_excluded :
      All IsValidRule rules
      → (found : List (Active × Interface)) (w w' : W) → b.connections w ≡ (ok (actives found), w')
      → All (Bound b w') found
      → (out : List (Active × Interface)) × ((with_excluded b rules).connections w
          ≡ (ok (actives out), w'))
        × Without (λ c. Hidden rules c.1) found out
  unfolding with_excluded filtered_backend filtered_connections
  connections-with_excluded v found w w' e h =
      let (out, f, g) = visible_connections_lem v found w' h in
      elim (Bool-cases (length (new_exclude_set rules).rules == 0)) [
        | inl bare ↦ (
          found,
          rw (bare, with_excluded) e,
          Without-none found (λ c. no_rules-Hidden rules c.1 bare),
        )
        | inr wrapped ↦ (out, rw (wrapped, with_excluded) (rw (e, after) (rw f)), g)
      ]

  -- An operation on a connection that is bound to a hidden interface is answered as not found, and
  -- the world is as the lookup of the connection left it: the backend does not disconnect.
  pub with_excluded-Hidden_connection :
      (conn_id : Text) (a : Active) (it : Interface) (w w' : W)
      → b.connection conn_id w ≡ (ok a, w')
      → Resolves b w' a.iface it
      → Hidden rules it
      → let f = with_excluded b rules in
        (f.connection conn_id w ≡ (err err_not_found, w'))
        × (f.deactivate conn_id w ≡ (err err_not_found, w'))
        × (f.status conn_id w ≡ (err err_not_found, w'))
        × (f.watch conn_id w ≡ (err err_not_found, w'))
  unfolding with_excluded filtered_backend filtered_connection visible_connection
      filtered_deactivate filtered_status filtered_watch unless_excluded excluded_iface
  with_excluded-Hidden_connection conn_id a it w w' e r h =
      let s = new_exclude_set rules in
      let same = (excluded_iface_iff rules it).1 h in
      let hidden = excluded-true w' a.iface it r h in
      rw (rules_of_match s it.name it.mac it.pci same, with_excluded)
        (
          rw (e, after) (rw hidden),
          rw (e, after) (rw hidden),
          rw (e, after) (rw hidden),
          rw (e, after) (rw hidden),
        )

  -- With valid rules, an operation on a connection of a visible interface does what the backend
  -- does after that lookup.
  pub with_excluded_visible_connection :
      (conn_id : Text) (a : Active) (it : Interface) (w : W)
      → All IsValidRule rules
      → b.connection conn_id w ≡ (ok a, w)
      → Resolves b w a.iface it
      → ¬ Hidden rules it
      → let f = with_excluded b rules in
        (f.connection conn_id w ≡ (ok a, w))
        × (f.deactivate conn_id w ≡ b.deactivate conn_id w)
        × (f.status conn_id w ≡ b.status conn_id w)
        × (f.watch conn_id w ≡ b.watch conn_id w)
  unfolding with_excluded filtered_backend filtered_connection visible_connection
      filtered_deactivate filtered_status filtered_watch unless_excluded
  with_excluded_visible_connection conn_id a it w v e r h =
      let clear = excluded-false w a.iface it v r h in
      elim (Bool-cases (length (new_exclude_set rules).rules == 0)) [
        | inl bare ↦ rw (bare, with_excluded) (e, refl, refl, refl)
        | inr wrapped ↦
            rw (wrapped, with_excluded)
              (
                rw (e, after) (rw clear),
                rw (e, after) (rw clear),
                rw (e, after) (rw clear),
                rw (e, after) (rw clear),
              )
      ]
