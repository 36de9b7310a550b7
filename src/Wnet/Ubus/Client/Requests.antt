-- ===== src/Wnet/Ubus/Client/Requests.antt =====
-- The requests of one call of internal/wnet/ubus/client.go.
use wfm.Prelude.{
  ℕ, suc, ◌+◌, ◌≤◌, [], ◌∷◌, Option, none, some, ◌≡◌, ◌≢◌, ◌⊎◌, inl, inr, ◌∙◌, refl, sym, subst,
  arith, Text, text, text_eq, ◌==◌, Bool-cases,
}
use wfm.Prelude.Int.{pos, int_eq}
use wfm.Wnet.Types.{Error, err_other}
use wfm.Wnet.Backend.{Result, ok, err, Action, after}
use wfm.Wnet.Ubus.Json.{Json, string, to_object}
use wfm.Wnet.Ubus.Rpc.{anon_session, ubus_permission_denie, rpc_request, CallResult}
use wfm.Wnet.Ubus.Client.Sessions.{
  IsStored, raw_call-session, login_first-IsStored, session_id-IsStored, stored_eq, relogin_held,
}
use wfm.Wnet.Ubus.Client.{
  Endpoint, Client, State, status_err, or_fail, answered, session_of, raw_call, store_session,
  logged_in, login, current, login_first, session_id, retry, return_unless, succeeded, call,
}

-- A login with the credentials, or the call itself under a session that is not empty.
abbrev pub IsRequestOf :
    {W : Type 0} → Endpoint W → (obj method : Text) → (args : Json) → (id : ℕ) → Json → Type 0
IsRequestOf n obj method args id j =
    (j
      ≡ rpc_request id anon_session (text "session") (text "login")
          (to_object ((text "username", string n.user) ∷ (text "password", string n.pass) ∷ [])))
    ⊎ ((s : Text) × (s ≢ []) × (j ≡ rpc_request id s obj method args))

module _ {W : Type 0} (n : Endpoint W) (obj method : Text) (args : Json) (I : ℕ → W → Type 0)
    (kept : (id : ℕ) (j : Json) (w : W)
      → I id w
      → IsRequestOf n obj method args (suc id) j
      → I (suc id) (n.post j w).1) where
  -- `I` holds, and at most `most` requests were sent since the id was `k`.
  abbrev Sent : (k most : ℕ) → State n → Type 0
  Sent k most (c, w) = I c.id w × (c.id ≤ k + most)

  or_fail-state : {A : Type 0} (o : Option A) (e : Error) (st : State n) → (or_fail e o st).1 ≡ st
  or_fail-state none e st = refl
  or_fail-state (some a) e st = refl

  return_unless-state :
      {A : Type 0} (o : Option Error) (a : A) (st : State n) → (return_unless o a st).1 ≡ st
  return_unless-state none a st = refl
  return_unless-state (some e) a st = refl

  succeeded-state : (r : CallResult) (st : State n) → (succeeded n r st).1 ≡ st
  succeeded-state (code, data_) st = return_unless-state (status_err code) data_ st

  Sent-more : (k : ℕ) (l m : ℕ) (st : State n) → l ≤ m → Sent k l st → Sent k m st
  Sent-more k l m (c, w) h (i, b) = (i, omega (arith, h, b))

  after-Sent :
      {A B : Type 0} (k l m : ℕ) (f : A → Action (State n) B) (r : Result A × State n)
      → l ≤ m
      → Sent k l r.1
      → ((a : A) → (r.0 ≡ ok a) → Sent k m (f a r.1).1)
      → Sent k m (after f r).1
  after-Sent k l m f (ok a, st) h s g = g a refl
  after-Sent k l m f (err e, st) h s g = Sent-more k l m st h s

  raw_call-Sent :
      (k most : ℕ) (session o m : Text) (a : Json) (st : State n)
      → ((id : ℕ) → IsRequestOf n obj method args id (rpc_request id session o m a))
      → Sent k most st
      → Sent k (suc most) (raw_call n session o m a st).1
  unfolding raw_call
  raw_call-Sent k most session o m a (c, w) r (i, h) =
      let (answer, w') = n.post (rpc_request (suc c.id) session o m a) w in
      subst (Sent k (suc most)) (sym (or_fail-state (answered answer) err_other _))
        (kept c.id _ w i (r (suc c.id)), omega (arith, h))

  store_session-Sent :
      (k most : ℕ) (s : Text) (st : State n) → Sent k most st → Sent k most (store_session n s st).1
  store_session-Sent k most s (c, w) (i, h) = elim (Bool-cases (s == [])) [
    | inl e ↦ rw e (i, h)
    | inr e ↦ rw e (i, h)
  ]

  logged_in-Sent :
      (k most : ℕ) (r : CallResult) (st : State n)
      → Sent k most st
      → Sent k most (logged_in n r st).1
  logged_in-Sent k most (code, data_) st h = elim (Bool-cases (code == pos 0)) [
    | inl e ↦ rw e (
        after-Sent k most most (store_session n) (or_fail err_other (session_of data_) st)
          (omega arith)
          (subst (Sent k most) (sym (or_fail-state (session_of data_) err_other st)) h)
          (λ s eq.
            store_session-Sent k most s _
              (subst (Sent k most) (sym (or_fail-state (session_of data_) err_other st)) h)))
    | inr e ↦ rw e h
  ]

  login_first-Sent :
      (k most : ℕ) (st : State n) → Sent k most st → Sent k (suc most) (login_first n st).1
  unfolding login
  login_first-Sent k most st h =
      after-Sent k (suc most) (suc most) (λ _. current n) (login n st) (omega arith) sent
        (λ _ eq. sent)
    where
      sent : Sent k (suc most) (login n st).1
      sent =
          let one =
            raw_call-Sent k most anon_session (text "session") (text "login") _ st (λ id. inl refl)
              h in
          after-Sent k (suc most) (suc most) (logged_in n) _ (omega arith) one
            (λ r eq. logged_in-Sent k (suc most) r _ one)

  session_id-Sent :
      (k most : ℕ) (st : State n) → Sent k most st → Sent k (suc most) (session_id n st).1
  unfolding session_id
  session_id-Sent k most (c, w) h = elim (Bool-cases (c.session == [])) [
    | inl e ↦ rw e (login_first-Sent k most (c, w) h)
    | inr e ↦ rw e (Sent-more k most (suc most) (c, w) (omega arith) h)
  ]

  own_call-Sent :
      (k most : ℕ) (s : Text) (st : State n)
      → s ≢ []
      → Sent k most st
      → Sent k (suc most) (raw_call n s obj method args st).1
  own_call-Sent k most s st full h =
      raw_call-Sent k most s obj method args st (λ id. inr (s, full, refl)) h

  renewed-Sent :
      (k most : ℕ) (r : Result Text × State n)
      → IsStored r
      → Sent k most r.1
      → Sent k (suc most) (after (λ s. raw_call n s obj method args) r).1
  renewed-Sent k most r stored h =
      after-Sent k most (suc most) (λ s. raw_call n s obj method args) r (omega arith) h
        (λ s eq. own_call-Sent k most s r.1 (stored_eq n r s eq stored).0 h)

  retry-Sent :
      (k most : ℕ) (s : Text) (r : CallResult) (st : State n)
      → st.0.session ≡ s
      → Sent k most st
      → Sent k (suc (suc most)) (retry n s obj method args r st).1
  retry-Sent k most s (code, data_) (c, w) e h = elim (Bool-cases (code == ubus_permission_denie)) [
    | inl denied ↦
        rw (denied, relogin_held n s c w e)
          (renewed-Sent k (suc most) (login_first n (record c { session = [] }, w))
            (login_first-IsStored n _) (login_first-Sent k most (record c { session = [] }, w) h))
    | inr other ↦ rw other (Sent-more k most (suc (suc most)) (c, w) (omega arith) h)
  ]

  -- One call, while no other caller uses the client, sends at most four requests, numbered in
  -- order: each is a login with the credentials or the call itself under a session that is not
  -- empty. So what such requests keep is kept by the call, whether it fails or not.
  pub call-Sent :
      (c : Client) (w : W)
      → I c.id w
      → let st = (call n obj method args (c, w)).1 in I st.0.id st.1 × (st.0.id ≤ c.id + 4)
  unfolding call
  call-Sent c w i =
      let r1 = session_id n (c, w) in
      let first = session_id-Sent c.id 0 (c, w) (i, omega arith) in
      after-Sent c.id 1 4 _ r1 (omega arith) first (λ s eq.
        let (full, held) = stored_eq n r1 s eq (session_id-IsStored n (c, w)) in
        let r2 = raw_call n s obj method args r1.1 in
        let second = own_call-Sent c.id 1 s r1.1 full first in
        after-Sent c.id 2 4 _ r2 (omega arith) second (λ a eq2.
          let retried =
            retry-Sent c.id 2 s a r2.1 (raw_call-session n s obj method args r1.1.0 r1.1.1 ∙ held)
              second in
          after-Sent c.id 4 4 (succeeded n) _ (omega arith) retried
            (λ b eq3. subst (Sent c.id 4) (sym (succeeded-state b _)) retried)))
