-- ===== src/Wnet/Ubus/Connections/Activating.antt =====
-- The changes that `Activate` of internal/wnet/ubus/conn.go makes, and their order.
use wfm.Prelude.{
  ℕ, zero, suc, ◌+◌, ltb, Bool, true, false, ◌||◌, List, [], ◌∷◌, ◌++◌, map, Option, none, some,
  ◌≡◌, ◌≢◌, ◌∙◌, refl, sym, ap, subst, arith, Text, text, text_eq, ◌==◌, Bool-cases, inl, inr,
  equal_fold, keep, to_lower,
}
use wfm.Wnet.Types.{Active}
use wfm.Wnet.Backend.{Result, ok, err, Action, after-ok}
use wfm.Wnet.Ubus.Convert.{IwinfoInfo}
use wfm.Wnet.Ubus.Convert.Wireless.{WifiIface}
use wfm.Wnet.Ubus.Wireless.{Wireless}
use wfm.Wnet.Ubus.Changes.{
  Change, sets, commits, reloads, Makes, nothing, chained, listing, reading, asking, waiting,
  setting, reloading, IsChosen,
}
use wfm.Wnet.Ubus.Profiles.{Config, sta_ifaces, station, set_and_commit}
use wfm.Wnet.Ubus.Profiles.Found.{
  is_station, sta_ifaces_listed, station-IsChosen, set_and_commit-Makes,
}
use wfm.Wnet.Ubus.Connections.{
  Runtime, is_linked, active_of, runtime_by_id, linked_or_not_found, connection_of,
  activation_values, is_peer, disable_peers, poll, wait_round, wait_loop, wait_rounds,
  wait_associated, connection_by_id, ubus_activate,
}
use wfm.Wnet.Ubus.Connections.Reading.{IsRead, poll-Read, connection_by_id-Read}

-- Another section that is an enabled station of the same radio.
abbrev pub IsPeer : (cur other : WifiIface) → Type 0
IsPeer cur other =
    (equal_fold other.mode (text "sta") ≡ true)
    × (other.section ≢ cur.section)
    × (other.device ≡ cur.device)
    × (other.disabled ≡ false)

-- The peers among the sections, in their order.
pub data Peers (cur : WifiIface) : List WifiIface → List WifiIface → Type 0 where
  no_more : Peers cur [] []
  peer :
      {w : WifiIface} {ws peers : List WifiIface}
      → IsPeer cur w
      → Peers cur ws peers
      → Peers cur (w ∷ ws) (w ∷ peers)
  other :
      {w : WifiIface} {ws peers : List WifiIface}
      → ¬ IsPeer cur w
      → Peers cur ws peers
      → Peers cur (w ∷ ws) peers

abbrev pub turned_off : WifiIface → Change
turned_off w = sets w.section ((text "disabled", text "1") ∷ [])

module _ {S : Type 0} (cfg : Config) (r : Wireless S) where
  abbrev pub IsActivated : (id bssid : Text) → Active → S → S → Type 0
  IsActivated id bssid a s t =
      (cur : WifiIface) × (all peers : List WifiIface) × (s1 s2 : S) × IsChosen cfg r id s cur s1
      × (r.wifi_ifaces s1 ≡ (ok all, s2))
      × Peers cur all peers
      × Makes r
          (map turned_off peers
            ++ (sets cur.section ((text "disabled", text "0") ∷ (text "bssid", to_lower bssid) ∷ [])
                ∷ commits
                ∷ reloads
                ∷ []))
          s2 t
      × ((a.id ≡ id) × (a.profile_id ≡ id))

  read_nothing : IsRead r (λ s t. Makes r [] s t)
  read_nothing = record {
    none_ = λ s. nothing;
    then_ = λ s t u h k. chained h k;
    list = λ s. listing {a = (r.wifi_ifaces s).0} refl;
    status = λ s. reading {a = (r.wireless_status s).0} refl;
    info = λ device s. asking {device = device} {a = (r.info device s).0} refl;
  }

  waited : (s : S) → Makes r [] s (r.wait s).1
  waited s = waiting {a = (r.wait s).0} refl

  wait_round-Makes :
      (deadline : ℕ) (next : Action S (Unit {0})) (s : S) (x : Bool × S)
      → Makes r [] s x.1
      → ((t : S) → Makes r [] t (next t).1)
      → Makes r [] s (wait_round cfg r deadline next x).1
  wait_round-Makes deadline next s (true, t) h g = h
  wait_round-Makes deadline next s (false, t) h g = elim (Bool-cases (ltb deadline (r.now t))) [
    | inl late ↦ rw late h
    | inr early ↦ rw early (elim (Bool-cases (r.wait t).0) [
      | inl more ↦ rw more (chained h (chained (waited t) (g (r.wait t).1)))
      | inr stopped ↦ rw stopped (chained h (waited t))
    ])
  ]

  wait_loop-Makes :
      (rounds : ℕ) (id : Text) (deadline : ℕ) (s : S)
      → Makes r [] s (wait_loop cfg r rounds id deadline s).1
  unfolding wait_loop
  wait_loop-Makes zero id deadline s = nothing
  wait_loop-Makes (suc rounds) id deadline s =
      wait_round-Makes deadline (wait_loop cfg r rounds id deadline) s (poll cfg r id s)
        (poll-Read cfg r (λ s t. Makes r [] s t) read_nothing id s)
        (wait_loop-Makes rounds id deadline)

  IsPeer-is_peer : (cur w : WifiIface) → is_station w ≡ true → is_peer cur w ≡ true → IsPeer cur w
  IsPeer-is_peer cur w sta e = ground (arith, sta, e)

  not-IsPeer : (cur w : WifiIface) → is_peer cur w ≡ false → ¬ IsPeer cur w
  not-IsPeer cur w e (sta, section, device, on) = ground (arith, e, section, device, on)

  disable_peers-Makes :
      (cur : WifiIface) (all : List WifiIface) (s t : S)
      → disable_peers cfg r cur (keep is_station all) s ≡ (ok tt, t)
      → (peers : List WifiIface) × Peers cur all peers × Makes r (map turned_off peers) s t
  unfolding disable_peers
  disable_peers-Makes cur [] s t e = ([], no_more, subst (Makes r [] s) (ground (arith, e)) nothing)
  disable_peers-Makes cur (w ∷ all) s t e = elim (Bool-cases (is_station w)) [
    | inr access_point ↦
        let (peers, are, makes) = disable_peers-Makes cur all s t (rw access_point at e) in
        (
          peers,
          other (λ (sta, section, device, on). absurd (ground (arith, sta, access_point))) are,
          makes,
        )
    | inl sta ↦ elim (Bool-cases (is_peer cur w)) [
      | inr kept ↦
          let (peers, are, makes) = disable_peers-Makes cur all s t (rw (sta, kept) at e) in
          (peers, other (not-IsPeer cur w kept) are, makes)
      | inl found ↦
          let (_, u, off, rest) =
            after-ok (λ _. disable_peers cfg r cur (keep is_station all))
              (r.uci_set w.section ((text "disabled", text "1") ∷ []) s) tt t
              (rw (sta, found) at e) in
          let (peers, are, makes) = disable_peers-Makes cur all u t rest in
          (w ∷ peers, peer (IsPeer-is_peer cur w sta found) are, chained (setting off) makes)
    ]
  ]

  linked_id :
      (id : Text) (rt : Runtime) (t : S) (a : Active) (x : Result IwinfoInfo × S)
      → linked_or_not_found cfg r id rt x ≡ (ok a, t)
      → (a.id ≡ id) × (a.profile_id ≡ id)
  unfolding active_of
  linked_id id rt t a (err e, u) h = absurd (ground (arith, h))
  linked_id id rt t a (ok info, u) h = elim (Bool-cases (is_linked rt.iface info)) [
    | inl e ↦
        let same : active_of id rt.ifname rt.iface info ≡ a = ground (arith, e, h) in
        (ap (λ a. a.id) (sym same), ap (λ a. a.profile_id) (sym same))
    | inr e ↦ absurd (ground (arith, e, h))
  ]

  connection_of_id :
      (id : Text) (rt : Option Runtime) (s t : S) (a : Active)
      → connection_of cfg r id rt s ≡ (ok a, t)
      → (a.id ≡ id) × (a.profile_id ≡ id)
  connection_of_id id none s t a h = absurd (ground (arith, h))
  connection_of_id id (some rt) s t a h = elim (Bool-cases (rt.iface.disabled || rt.ifname == [])) [
    | inl e ↦ absurd (ground (arith, e, h))
    | inr e ↦ linked_id id rt t a (r.info rt.ifname s) (rw e at h)
  ]

  connection_id :
      (id : Text) (s t : S) (a : Active)
      → connection_by_id cfg r id s ≡ (ok a, t)
      → ((a.id ≡ id) × (a.profile_id ≡ id)) × Makes r [] s t
  unfolding connection_by_id
  connection_id id s t a e =
      let (rt, u, found, h) = after-ok (connection_of cfg r id) (runtime_by_id cfg r id s) a t e in
      (
        connection_of_id id rt u t a h,
        subst (λ x. Makes r [] s x.1) e
            (connection_by_id-Read cfg r (λ s t. Makes r [] s t) read_nothing id s),
      )

  -- An activation over ubus that succeeds has chosen a station of the profile and listed the sections
  -- again. It disables, one by one and in the order of the list, exactly the enabled stations of the
  -- same radio other than the chosen one, then enables the chosen section and pins it to the access
  -- point, commits, and reloads the network; each of these calls succeeds. Behind them it only reads
  -- and waits, and nothing else is changed. The answer has the identifier of the profile.
  pub ubus_activate-IsActivated :
      (iface id bssid : Text) (s t : S) (a : Active)
      → ubus_activate cfg r iface id bssid s ≡ (ok a, t)
      → IsActivated id bssid a s t
  unfolding ubus_activate wait_associated
  ubus_activate-IsActivated iface id bssid s t a e =
      let (cur, s1, e1, r1) = after-ok _ (station cfg r id s) a t e in
      let (stas, s2, e2, r2) = after-ok _ (sta_ifaces cfg r s1) a t r1 in
      let (_, s3, e3, r3) = after-ok _ (disable_peers cfg r cur stas s2) a t r2 in
      let (_, s4, e4, r4) = after-ok _ (set_and_commit cfg r cur.section _ s3) a t r3 in
      let (_, s5, e5, r5) = after-ok _ (r.reload_wifi s4) a t r4 in
      let (_, s6, e6, r6) =
        after-ok _ (wait_loop cfg r wait_rounds id (r.now s5 + 25000) s5) a t r5 in
      let (all, listed, kept) = sta_ifaces_listed cfg r s1 s2 stas e2 in
      let (peers, are, off) =
        disable_peers-Makes cur all s2 s3 (ap (λ ws. disable_peers cfg r cur ws s2) kept ∙ e3) in
      let waits : Makes r [] s5 s6 =
        subst (λ x. Makes r [] s5 x.1) e6 (wait_loop-Makes wait_rounds id (r.now s5 + 25000) s5) in
      let (is_id, answered) = connection_id id s6 t a r6 in
      (
        cur,
        all,
        peers,
        s1,
        s2,
        station-IsChosen cfg r id s s1 cur e1,
        listed,
        are,
        chained off (
            chained (set_and_commit-Makes cfg r cur.section (activation_values bssid) s3 s4 e4)
              (chained (reloading e5) (chained waits answered))),
        is_id,
      )
