-- ===== src/Wnet/Ubus/Profiles/Found.antt =====
-- The station that internal/wnet/ubus/profile.go finds in the configuration of the node.
use wfm.Prelude.{
  Bool, true, List, [], ◌∷◌, Option, none, some, ◌≡◌, ◌∙◌, sym, ap, subst, arith, Text, text,
  text_eq, ◌==◌, Bool-cases, inl, inr, equal_fold, keep, find, Any, ◌≢◌, ◌||◌,
}
use wfm.Wnet.Types.{Security, IpConfig, sec_enterprise, security_kind_eq, Profile}
use wfm.Wnet.Backend.{ok, Action, after-ok}
use wfm.Wnet.Ubus.Convert.Wireless.{WifiIface, to_profile}
use wfm.Wnet.Ubus.Wireless.{Values, Wireless}
use wfm.Wnet.Ubus.Changes.{Makes, IsChosen, chained, listing, setting, committing, sets, commits}
use wfm.Wnet.Ubus.Profiles.{
  Config, id_of, profile_id, sta_ifaces, find_by_id, found_or_fail, station, ubus_profile,
  set_and_commit, is_manual, reject_unsupported, unless_error,
}

abbrev pub is_station : WifiIface → Bool
is_station w = equal_fold w.mode (text "sta")

find_among :
    (p q : WifiIface → Bool) (ws : List WifiIface) (w : WifiIface)
    → find p (keep q ws) ≡ some w
    → Any (λ x. x ≡ w) ws × (q w ≡ true) × (p w ≡ true)
find_among p q [] w e = absurd (ground (arith, e))
find_among p q (x ∷ xs) w e = elim (Bool-cases (q x)) [
  | inl kept ↦ elim (Bool-cases (p x)) [
    | inl here ↦
        let same : x ≡ w = ground (arith, e, kept, here) in
        (inl same, subst (λ x. q x ≡ true) same kept, subst (λ x. p x ≡ true) same here)
    | inr there ↦
        let (m, a, b) = find_among p q xs w (ground (arith, e, kept, there)) in (inr m, a, b)
  ]
  | inr gone ↦ let (m, a, b) = find_among p q xs w (ground (arith, e, gone)) in (inr m, a, b)
]

module _ {S : Type 0} (cfg : Config) (r : Wireless S) where
  pub sta_ifaces_listed :
      (s t : S) (stas : List WifiIface)
      → sta_ifaces cfg r s ≡ (ok stas, t)
      → (all : List WifiIface) × (r.wifi_ifaces s ≡ (ok all, t)) × (keep is_station all ≡ stas)
  unfolding sta_ifaces
  sta_ifaces_listed s t stas e =
      let (all, u, listed, kept) = after-ok _ (r.wifi_ifaces s) stas t e in
      let same : u ≡ t = ground (arith, kept) in
      (all, listed ∙ ap (λ u. (ok all, u)) same, ground (arith, kept))

  pub find_by_id-IsChosen :
      (id : Text) (s t : S) (w : WifiIface)
      → find_by_id cfg r id s ≡ (ok (some w), t)
      → IsChosen cfg r id s w t
  unfolding find_by_id
  find_by_id-IsChosen id s t w e =
      let (stas, u, found, picked) = after-ok _ (sta_ifaces cfg r s) (some w) t e in
      let (all, listed, kept) = sta_ifaces_listed s u stas found in
      let same : u ≡ t = ground (arith, picked) in
      let first : find (λ w. id_of cfg w == id) (keep is_station all) ≡ some w =
        ap (find _) kept ∙ ground (arith, picked) in
      let (m, sta, is_id) = find_among (λ w. id_of cfg w == id) is_station all w first in
      record {
        all = all;
        listed = listed ∙ ap (λ u. (ok all, u)) same;
        inside = m;
        is_sta = sta;
        has_id = ground (arith, is_id);
      }

  pub station-IsChosen :
      (id : Text) (s t : S) (w : WifiIface)
      → station cfg r id s ≡ (ok w, t)
      → IsChosen cfg r id s w t
  unfolding station
  station-IsChosen id s t w e =
      let (o, u, found, there) = after-ok found_or_fail (find_by_id cfg r id s) w t e in
      at_hand o u found there
    where
      at_hand :
          (o : Option WifiIface) (u : S)
          → find_by_id cfg r id s ≡ (ok o, u)
          → found_or_fail o u ≡ (ok w, t)
          → IsChosen cfg r id s w t
      at_hand none u found there = absurd (ground (arith, there))
      at_hand (some x) u found there = find_by_id-IsChosen id s t w (ground (arith, found, there))

  pub profile_found :
      (id : Text) (s t : S) (p : Profile)
      → ubus_profile cfg r id s ≡ (ok p, t)
      → (p.id ≡ id) × Makes r [] s t
  unfolding ubus_profile to_profile id_of profile_id
  profile_found id s t p e =
      let (w, u, found, made) = after-ok _ (station cfg r id s) p t e in
      let chosen = station-IsChosen id s u w found in
      let p_eq : to_profile cfg.derive_id w ≡ p = ground (arith, made) in
      let u_eq : u ≡ t = ground (arith, made) in
      (ap (λ p. p.id) (sym p_eq) ∙ chosen.has_id, subst (Makes r [] s) u_eq (listing chosen.listed))

  pub set_and_commit-Makes :
      (section : Text) (values : Values) (s t : S)
      → set_and_commit cfg r section values s ≡ (ok tt, t)
      → Makes r (sets section values ∷ commits ∷ []) s t
  unfolding set_and_commit
  set_and_commit-Makes section values s t e =
      let (_, u, set_, committed) = after-ok _ (r.uci_set section values s) tt t e in
      chained (setting set_) (committing committed)

  pub not_rejected :
      (sec : Security) (ipv4 ipv6 : Option IpConfig) (m : Action S Profile) (s t : S) (p : Profile)
      → unless_error (reject_unsupported sec ipv4 ipv6) m s ≡ (ok p, t)
      → (sec.kind ≢ sec_enterprise) × (m s ≡ (ok p, t))
  unfolding reject_unsupported
  not_rejected sec ipv4 ipv6 m s t p e = elim (Bool-cases (sec.kind == sec_enterprise)) [
    | inl enterprise ↦ absurd (ground (arith, rw enterprise at e))
    | inr other ↦ elim (Bool-cases (is_manual ipv4 || is_manual ipv6)) [
      | inl manual ↦ absurd (ground (arith, rw (other, manual) at e))
      | inr none_ ↦ (λ h. ground (arith, h, other), rw (other, none_) at e)
    ]
  ]
