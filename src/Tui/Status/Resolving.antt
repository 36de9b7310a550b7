-- ===== src/Tui/Status/Resolving.antt =====
-- What the status lookup of internal/tui/commands.go answers with.
use wfm.Prelude.{
  ℕ, Bool, true, false, List, [], ◌∷◌, ◌++◌, none, some, ◌≡◌, ◌≢◌, ◌∙◌, ◌⊎◌, inl, inr, refl, ap,
  arith, Text, text, text_eq, nat_eq, contains, find, Any, All, Option-cases,
}
use wfm.Server.Messages.{Connection, ConnectionStatus}
use wfm.Server.Convert.{Reply, reply, status}
use wfm.Server.Interfaces.{Rpc}
use wfm.Tui.Model.{iface_status}
use wfm.Tui.Status.{
  connected_ap, before_slash, preferred, pick_addr, is_up, resolve, iface_status_msg,
}

abbrev pub IsIpv4 : Text → Type 0
IsIpv4 a = contains a (text ".") ≡ true

-- `shown` is the address without its prefix length.
abbrev pub Strips : Text → Text → Type 0
Strips a shown =
    All (λ c. c ≢ b'/') shown
    × (rest : Text) × (a ≡ shown ++ rest)
    × ((rest ≡ []) ⊎ ((r : Text) × (rest ≡ b'/' ∷ r)))

before_slash_yes : (c : ℕ) (a : Text) → c ≡ b'/' → before_slash (c ∷ a) ≡ []
unfolding before_slash
before_slash_yes c a e = ground arith

before_slash_no : (c : ℕ) (a : Text) → c ≢ b'/' → before_slash (c ∷ a) ≡ c ∷ before_slash a
unfolding before_slash
before_slash_no c a n = ground arith

before_slash-Strips : (a : Text) → Strips a (before_slash a)
unfolding before_slash
before_slash-Strips [] = (tt, [], refl, inl refl)
before_slash-Strips (c ∷ a) = elim (nat_eq.dec c b'/') [
  | yes e ↦ rw (before_slash_yes c a e) (tt, c ∷ a, refl, inr (a, ap (λ x. x ∷ a) e))
  | no n ↦
      let (clear, rest, e, h) = before_slash-Strips a in
      rw (before_slash_no c a n) ((n, clear), rest, ap (◌∷◌ c) e, h)
]

find-none :
    (p : Text → Bool) (addrs : List Text) → find p addrs ≡ none → ¬ Any (λ a. p a ≡ true) addrs
find-none p [] e h = absurd h
find-none p (a ∷ addrs) e h = ground (arith, find-none p addrs)

find-some :
    (p : Text → Bool) (addrs : List Text) (a : Text)
    → find p addrs ≡ some a
    → Any (λ x. x ≡ a) addrs × (p a ≡ true)
find-some p [] a e = cc
find-some p (x ∷ addrs) a e = ground (arith, find-some p addrs a)

preferred-none :
    (pick : Text) (addrs : List Text)
    → find (λ x. contains x (text ".")) addrs ≡ none
    → preferred pick addrs ≡ pick
unfolding preferred
preferred-none pick addrs e = rw (e, preferred) refl

preferred-some :
    (pick x : Text) (addrs : List Text)
    → find (λ x. contains x (text ".")) addrs ≡ some x
    → preferred pick addrs ≡ x
unfolding preferred
preferred-some pick x addrs e = rw (e, preferred) refl

pick_addr_eq :
    (a x : Text) (addrs : List Text)
    → preferred a (a ∷ addrs) ≡ x
    → pick_addr (a ∷ addrs) ≡ before_slash x
unfolding pick_addr
pick_addr_eq a x addrs e = ap before_slash e

-- The address that is shown for a list that is not empty is one of the list's, cut before its
-- first slash, and an IPv4 one if the list has any.
pub pick_addr_lem :
    (a : Text) (addrs : List Text)
    → (x : Text) × Any (λ y. y ≡ x) (a ∷ addrs)
      × Strips x (pick_addr (a ∷ addrs))
      × (Any IsIpv4 (a ∷ addrs) → IsIpv4 x)
pick_addr_lem a addrs = elim (Option-cases (find (λ x. contains x (text ".")) (a ∷ addrs))) [
  | inl e ↦
      let clear = find-none (λ x. contains x (text ".")) (a ∷ addrs) e in
      (
        a,
        inl refl,
        rw (pick_addr_eq a a addrs (preferred-none a (a ∷ addrs) e)) (before_slash-Strips a),
        λ h. absurd (clear h),
      )
  | inr (x, e) ↦
      let (there, ipv4) = find-some (λ x. contains x (text ".")) (a ∷ addrs) x e in
      (
        x,
        there,
        rw (pick_addr_eq a x addrs (preferred-some a x (a ∷ addrs) e)) (before_slash-Strips x),
        λ h. ipv4,
      )
]

module _ {W : Type 0} (list : Text → Rpc W (List Connection))
    (get_status : Text → Rpc W ConnectionStatus) where
  -- The status of the connection cannot be read, or it is not connected.
  abbrev pub IsDown : Reply ConnectionStatus → Type 0
  IsDown (status code) = Unit
  IsDown (reply s) = is_up s.state ≡ false

  -- Looking at these connections, none of which is up, takes the world from the one to the other.
  pub data Passed : List Connection → W → W → Type 0 where
    none_left : {w : W} → Passed [] w w
    passed :
        {c : Connection} {rest : List Connection} {w w2 : W}
        → IsDown (get_status c.id w).0
        → Passed rest (get_status c.id w).1 w2
        → Passed (c ∷ rest) w w2

  resolve_step :
      (if_id : Text) (c : Connection) (rest : List Connection) (w : W)
      → IsDown (get_status c.id w).0
      → resolve list get_status if_id (c ∷ rest) w
        ≡ resolve list get_status if_id rest (get_status c.id w).1
  unfolding resolve
  resolve_step if_id c rest w d = ground arith

  resolve_up :
      (if_id : Text) (c : Connection) (rest : List Connection) (w w' : W) (s : ConnectionStatus)
      → get_status c.id w ≡ (reply s, w')
      → is_up s.state ≡ true
      → resolve list get_status if_id (c ∷ rest) w
        ≡ (iface_status if_id (pick_addr s.addresses) (connected_ap c s), w')
  unfolding resolve
  resolve_up if_id c rest w w' s e u = ground arith

  resolve-Passed :
      (if_id : Text) (before rest : List Connection) (w w' : W)
      → Passed before w w'
      → resolve list get_status if_id (before ++ rest) w ≡ resolve list get_status if_id rest w'
  resolve-Passed if_id [] rest w w' none_left = refl
  resolve-Passed if_id (c ∷ before) rest w w' (passed d p) =
      resolve_step if_id c (before ++ rest) w d
      ∙ resolve-Passed if_id before rest (get_status c.id w).1 w' p

  -- The status of an interface is that of the first of its connections that is up; those before it
  -- whose status cannot be read or which are not up are passed over, and those behind it are not
  -- asked.
  pub iface_status_msg-Passed :
      (if_id : Text) (before rest : List Connection) (c : Connection) (s : ConnectionStatus)
      (w w1 w2 w3 : W)
      → list if_id w ≡ (reply (before ++ c ∷ rest), w1)
      → Passed before w1 w2
      → get_status c.id w2 ≡ (reply s, w3)
      → is_up s.state ≡ true
      → iface_status_msg list get_status if_id w
        ≡ (iface_status if_id (pick_addr s.addresses) (connected_ap c s), w3)
  unfolding iface_status_msg
  iface_status_msg-Passed if_id before rest c s w w1 w2 w3 e p g u =
      rw e (resolve-Passed if_id before (c ∷ rest) w1 w2 p ∙ resolve_up if_id c rest w2 w3 s g u)
