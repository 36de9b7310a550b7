-- ===== src/Wnet/Ubus/Connections/Waiting.antt =====
-- The polls of `waitAssociated` of internal/wnet/ubus/conn.go.
use wfm.Prelude.{
  ℕ, zero, suc, ◌+◌, ◌*◌, ◌≤◌, ◌<◌, Bool, true, false, ◌≡◌, refl, arith, Text, text_eq, ltb,
  Bool-cases, inl, inr,
}
use wfm.Wnet.Backend.{Action}
use wfm.Wnet.Ubus.Wireless.{Wireless}
use wfm.Wnet.Ubus.Profiles.{Config}
use wfm.Wnet.Ubus.Connections.Reading.{IsRead, poll-Read}
use wfm.Wnet.Ubus.Connections.{poll, wait_round, wait_loop, wait_rounds, wait_associated}

-- The clock does not run backwards, and a wait takes half a second.
pub record IsTimed {S : Type 0} (r : Wireless S) : Type 0 where
  pub list_later : (s : S) → r.now s ≤ r.now (r.wifi_ifaces s).1
  pub status_later : (s : S) → r.now s ≤ r.now (r.wireless_status s).1
  pub info_later : (device : Text) (s : S) → r.now s ≤ r.now (r.info device s).1
  pub wait_later : (s : S) → r.now s + 500 ≤ r.now (r.wait s).1

module _ {S : Type 0} (cfg : Config) (r : Wireless S) (timed : IsTimed r) where
  now_read : IsRead r (λ s t. r.now s ≤ r.now t)
  now_read = record {
    none_ = λ s. omega arith;
    then_ = λ s t u h k. omega (arith, h, k);
    list = timed.list_later;
    status = timed.status_later;
    info = timed.info_later;
  }

  -- The end of a round, with two loops behind the wait that agree.
  round_eq :
      (deadline : ℕ) (next next2 : Action S (Unit {0})) (x : Bool × S)
      → ((r.now x.1 ≤ deadline) → next (r.wait x.1).1 ≡ next2 (r.wait x.1).1)
      → wait_round cfg r deadline next x ≡ wait_round cfg r deadline next2 x
  round_eq deadline next next2 (true, s) h = refl
  round_eq deadline next next2 (false, s) h = elim (Bool-cases (ltb deadline (r.now s))) [
    | inl late ↦ rw late refl
    | inr early ↦ rw (early, h (ground (arith, early))) refl
  ]

  -- Two numbers of rounds that both pass the deadline.
  rounds_eq :
      (n m k : ℕ) (id : Text) (deadline : ℕ) (s : S)
      → n < m
      → n < k
      → deadline < r.now s + 500 * n
      → wait_loop cfg r m id deadline s ≡ wait_loop cfg r k id deadline s
  unfolding wait_loop
  rounds_eq n zero k id deadline s a b h = absurd (omega (arith, a))
  rounds_eq n (suc m) zero id deadline s a b h = absurd (omega (arith, b))
  rounds_eq zero (suc m) (suc k) id deadline s a b h =
      let later = poll-Read cfg r (λ s t. r.now s ≤ r.now t) now_read id s in
      round_eq deadline (wait_loop cfg r m id deadline) (wait_loop cfg r k id deadline)
        (poll cfg r id s) (λ early. absurd (omega (arith, later, early, h)))
  rounds_eq (suc n) (suc m) (suc k) id deadline s a b h =
      let later = poll-Read cfg r (λ s t. r.now s ≤ r.now t) now_read id s in
      let half = timed.wait_later (poll cfg r id s).1 in
      round_eq deadline (wait_loop cfg r m id deadline) (wait_loop cfg r k id deadline)
        (poll cfg r id s)
        (λ early.
          rounds_eq n m k id deadline (r.wait (poll cfg r id s).1).1 (omega (arith, a))
            (omega (arith, b)) (omega (arith, h, later, half)))

  -- With a clock that does not run backwards and waits of half a second, the wait for the
  -- association ends within 52 polls: no larger bound on the polls changes its result or its state.
  pub wait_associated-enough :
      (rounds : ℕ) (id : Text) (s : S)
      → wait_rounds ≤ rounds
      → wait_loop cfg r rounds id (r.now s + 25000) s ≡ wait_associated cfg r id s
  unfolding wait_associated
  wait_associated-enough rounds id s h =
      rounds_eq 51 rounds wait_rounds id (r.now s + 25000) s (omega (arith, h)) (omega arith)
        (omega arith)
