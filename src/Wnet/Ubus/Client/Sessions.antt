-- ===== src/Wnet/Ubus/Client/Sessions.antt =====
-- The session of the client of internal/wnet/ubus/client.go, and its renewal.
use wfm.Prelude.{
  suc, true, false, [], Option, none, some, ◌≡◌, ◌≢◌, inl, inr, ◌∙◌, refl, sym, subst, ap, arith,
  Text, text_eq, ◌==◌, ◌!=◌, Bool-cases,
}
use wfm.Prelude.Int.{pos, int_eq}
use wfm.Wnet.Types.{Error, err_other}
use wfm.Wnet.Backend.{Result, ok, err, Action, after}
use wfm.Wnet.Ubus.Json.{Json}
use wfm.Wnet.Ubus.Rpc.{rpc_request, CallResult}
use wfm.Wnet.Ubus.Client.{
  Endpoint, Client, State, or_fail, answered, raw_call, store_session, logged_in, login, current,
  login_first, session_id, relogin,
}

-- Of an answered session: it is not empty, and the client's.
abbrev pub IsStored : {W : Type 0} → Result Text × (Client × W) → Type 0
IsStored (err e, st) = Unit
IsStored (ok s, (c, w)) = (s ≢ []) × (c.session ≡ s)

-- Of a login that succeeded: there is a session.
abbrev IsLoggedIn : {W : Type 0} → Result (Unit {0}) × (Client × W) → Type 0
IsLoggedIn (err e, st) = Unit
IsLoggedIn (ok _, (c, w)) = c.session ≢ []

module _ {W : Type 0} (n : Endpoint W) where
  or_fail-session :
      {A : Type 0} (o : Option A) (e : Error) (c : Client) (w : W)
      → (or_fail {W = State n} e o (c, w)).1.0.session ≡ c.session
  or_fail-session none e c w = refl
  or_fail-session (some a) e c w = refl

  pub raw_call-session :
      (session o m : Text) (a : Json) (c : Client) (w : W)
      → (raw_call n session o m a (c, w)).1.0.session ≡ c.session
  unfolding raw_call
  raw_call-session session o m a c w =
      let (answer, w') = n.post (rpc_request (suc c.id) session o m a) w in
      or_fail-session (answered answer) err_other (record c { id = suc c.id }) w'

  store_session-IsLoggedIn : (s : Text) (st : State n) → IsLoggedIn (store_session n s st)
  store_session-IsLoggedIn s (c, w) = elim (Bool-cases (s == [])) [
    | inl e ↦ rw e tt
    | inr e ↦ rw e (λ empty. ground (arith, e, empty))
  ]

  after-IsLoggedIn :
      {A : Type 0} (f : A → Action (State n) (Unit {0})) (r : Result A × State n)
      → ((a : A) (st : State n) → IsLoggedIn (f a st))
      → IsLoggedIn (after f r)
  after-IsLoggedIn f (ok a, st) h = h a st
  after-IsLoggedIn f (err e, st) h = tt

  logged_in-IsLoggedIn : (r : CallResult) (st : State n) → IsLoggedIn (logged_in n r st)
  logged_in-IsLoggedIn (code, data_) st = elim (Bool-cases (code == pos 0)) [
    | inl e ↦ rw e (after-IsLoggedIn (store_session n) _ store_session-IsLoggedIn)
    | inr e ↦ rw e tt
  ]

  current-IsStored :
      (r : Result (Unit {0}) × State n) → IsLoggedIn r → IsStored (after (λ _. current n) r)
  current-IsStored (err e, st) h = tt
  current-IsStored (ok _, (c, w)) h = (h, refl)

  pub login_first-IsStored : (st : State n) → IsStored (login_first n st)
  unfolding login
  login_first-IsStored st =
      current-IsStored (login n st) (after-IsLoggedIn (logged_in n) _ logged_in-IsLoggedIn)

  pub session_id-IsStored : (st : State n) → IsStored (session_id n st)
  unfolding session_id
  session_id-IsStored (c, w) = elim (Bool-cases (c.session == [])) [
    | inl e ↦ rw e (login_first-IsStored (c, w))
    | inr e ↦ rw e (λ empty. ground (arith, e, empty), refl)
  ]

  pub stored_eq :
      (r : Result Text × State n) (s : Text)
      → r.0 ≡ ok s
      → IsStored r
      → (s ≢ []) × (r.1.0.session ≡ s)
  stored_eq (err e, st) s eq h = absurd (ground (arith, eq))
  stored_eq (ok t, (c, w)) s eq h =
      let e : t ≡ s = ground (arith, eq) in subst (λ t. (t ≢ []) × (c.session ≡ t)) e h

  -- The relogin of the session that the client holds.
  pub relogin_held :
      (s : Text) (c : Client) (w : W)
      → c.session ≡ s
      → relogin n s (c, w) ≡ login_first n (record c { session = [] }, w)
  unfolding relogin
  relogin_held s c w e = let same : (c.session != s) ≡ false = ground (arith, e) in rw same refl

  -- Of a session that was answered: it is the client's.
  abbrev IsHeld : Result Text × State n → Type 0
  IsHeld (err e, st) = Unit
  IsHeld (ok s, (c, w)) = c.session ≡ s

  IsStored-IsHeld : (r : Result Text × State n) → IsStored r → IsHeld r
  IsStored-IsHeld (err e, st) h = tt
  IsStored-IsHeld (ok s, (c, w)) (full, held) = held

  relogin-IsHeld : (stale : Text) (st : State n) → IsHeld (relogin n stale st)
  unfolding relogin
  relogin-IsHeld stale (c, w) = elim (Bool-cases (c.session != stale)) [
    | inl renewed ↦ rw renewed refl
    | inr same ↦ rw same (IsStored-IsHeld _ (login_first-IsStored _))
  ]

  relogin_renewed :
      (stale : Text) (c : Client) (w : W)
      → c.session ≢ stale
      → relogin n stale (c, w) ≡ (ok c.session, (c, w))
  unfolding relogin
  relogin_renewed stale c w ne =
      let other : (c.session != stale) ≡ true = ground (arith, ne) in rw other refl

  -- Behind a renewal of a stale session that answered another one, a further caller whose call was
  -- refused under the same stale session gets that one, with no request and no change.
  pub relogin_again :
      (stale s : Text) (st st2 : State n)
      → relogin n stale st ≡ (ok s, st2)
      → s ≢ stale
      → relogin n stale st2 ≡ (ok s, st2)
  relogin_again stale s st (c, w) e ne =
      let held : c.session ≡ s = subst IsHeld e (relogin-IsHeld stale st) in
      relogin_renewed stale c w (λ same. ne (sym held ∙ same)) ∙ ap (λ t. (ok t, (c, w))) held
