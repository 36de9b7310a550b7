-- ===== src/Wnet/Nmcli/Watching/Polling.antt =====
-- What `Watch` of internal/wnet/nmcli/backend.go sends of what it reads.
use wfm.Prelude.{
  ℕ, zero, suc, Bool, true, false, ◌||◌, List, [], ◌∷◌, ◌++◌, Option, none, some, ◌≡◌, ◌∙◌, ◌⊎◌,
  inl, inr, refl, sym, ap, subst, arith, Text, if◌then◌else◌, Bool-cases, All, Any, append-nil,
  length, ◌-◌, nat_eq,
}
use wfm.Wnet.Types.{Error, ConnState, conn_state_eq, Status}
use wfm.Wnet.Backend.{Result, ok, err, after}
use wfm.Wnet.Nmcli.Host.{Host}
use wfm.Wnet.Nmcli.Devices.{Device, device_info}
use wfm.Wnet.Nmcli.Connections.{device_for_active}
use wfm.Wnet.Nmcli.Watching.{
  needs_auth, is_final, changed, blocked, sends_left, status_for_device, watch_round, watch_loop,
  nmcli_watch,
}

module _ {W : Type 0} (h : Host W) (dev : Text) where
  -- The statuses read one after the other: up to the first final one, to the first device that
  -- cannot be read, to the first new one that the client does not take, or until the waits are
  -- used up.
  pub data Polls
      : (waits sends : ℕ)
        → (last : Option ConnState) → (saw : Bool) → W
        → List Status
        → Type 0 where
    gone :
        {n m : ℕ} {last : Option ConnState} {saw : Bool} {w w1 : W} {e : Error}
        → device_info h dev w ≡ (err e, w1)
        → Polls n m last saw w []
    untaken :
        {n m : ℕ} {last : Option ConnState} {saw : Bool} {w w1 w2 : W} {d : Device} {st : Status}
        → device_info h dev w ≡ (ok d, w1)
        → status_for_device h d (saw || needs_auth d) w1 ≡ (st, w2)
        → blocked m last st.state ≡ true
        → Polls n m last saw w (st ∷ [])
    final :
        {n m : ℕ} {last : Option ConnState} {saw : Bool} {w w1 w2 : W} {d : Device} {st : Status}
        → device_info h dev w ≡ (ok d, w1)
        → status_for_device h d (saw || needs_auth d) w1 ≡ (st, w2)
        → blocked m last st.state ≡ false
        → is_final st.state ≡ true
        → Polls n m last saw w (st ∷ [])
    cancelled :
        {m : ℕ} {last : Option ConnState} {saw : Bool} {w w1 w2 : W} {d : Device} {st : Status}
        → device_info h dev w ≡ (ok d, w1)
        → status_for_device h d (saw || needs_auth d) w1 ≡ (st, w2)
        → blocked m last st.state ≡ false
        → is_final st.state ≡ false
        → Polls zero m last saw w (st ∷ [])
    waited :
        {n m : ℕ} {last : Option ConnState} {saw : Bool} {w w1 w2 : W} {d : Device} {st : Status}
        {sts : List Status}
        → device_info h dev w ≡ (ok d, w1)
        → status_for_device h d (saw || needs_auth d) w1 ≡ (st, w2)
        → blocked m last st.state ≡ false
        → is_final st.state ≡ false
        → Polls n (sends_left m last st.state) (some st.state) (saw || needs_auth d) w2 sts
        → Polls (suc n) m last saw w (st ∷ sts)

-- The statuses without those of the same state as the one before.
abbrev pub without_repeats : (last : Option ConnState) → List Status → List Status
without_repeats last [] = []
without_repeats last (st ∷ sts) =
    (if changed last st.state then st ∷ [] else []) ++ without_repeats (some st.state) sts

unchanged : (last : Option ConnState) (s : ConnState) → changed last s ≡ false → last ≡ some s
unfolding changed
unchanged none s e = ground (arith, e)
unchanged (some last) s e = ground (arith, e)

-- Every state that was read is reported, unless it is the last one reported.
reported :
    (x : ConnState) (last : Option ConnState) (sts : List Status)
    → Any (λ st. st.state ≡ x) sts
    → (last ≡ some x) ⊎ Any (λ st. st.state ≡ x) (without_repeats last sts)
reported x last [] h = absurd h
reported x last (st ∷ sts) h = elim (Bool-cases (changed last st.state)) [
  | inl sent ↦ rw sent (
      inr (elim h [
        | inl e ↦ inl e
        | inr there ↦ elim (reported x (some st.state) sts there) [
          | inl e ↦ inl (ground (arith, e))
          | inr later ↦ inr later
        ]
      ]))
  | inr skipped ↦ rw skipped (elim h [
    | inl e ↦ inl (unchanged last st.state skipped ∙ ap (λ s. some s) e)
    | inr there ↦ elim (reported x (some st.state) sts there) [
      | inl e ↦ inl (unchanged last st.state skipped ∙ e)
      | inr later ↦ inr later
    ]
  ])
]

abbrev pub take : ℕ → List Status → List Status
take zero sts = []
take (suc n) [] = []
take (suc n) (st ∷ sts) = st ∷ take n sts

take_all : (n : ℕ) (sts : List Status) → (take n sts ≡ sts) ⊎ (length (take n sts) ≡ n)
take_all zero sts = inr refl
take_all (suc n) [] = inl refl
take_all (suc n) (st ∷ sts) =
    elim (take_all n sts)
      as (λ _. (st ∷ take n sts ≡ st ∷ sts) ⊎ (length (st ∷ take n sts) ≡ suc n)) [
        | inl e ↦ inl (ap (◌∷◌ st) e)
        | inr e ↦ inr (omega (arith, e))
      ]

take_nil : (m : ℕ) → [] ≡ take m []
take_nil zero = refl
take_nil (suc m) = refl

-- A status that is sent if it is new.
abbrev sent_of : Option ConnState → Status → List Status
sent_of last st = if changed last st.state then st ∷ [] else []

take_sent :
    (m : ℕ) (last : Option ConnState) (st : Status) (rest : List Status)
    → blocked m last st.state ≡ false
    → sent_of last st ++ take (sends_left m last st.state) rest ≡ take m (sent_of last st ++ rest)
take_sent zero last st rest e = elim (Bool-cases (changed last st.state)) [
  | inl new ↦ absurd (ground (arith, e, new))
  | inr old ↦ rw old refl
]
take_sent (suc m) last st rest e = elim (Bool-cases (changed last st.state)) [
  | inl new ↦ let less : suc m - 1 ≡ m = omega arith in rw new (ap (λ n. st ∷ take n rest) less)
  | inr old ↦ rw old refl
]

take_one :
    (m : ℕ) (last : Option ConnState) (st : Status)
    → blocked m last st.state ≡ false
    → sent_of last st ≡ take m (sent_of last st ++ [])
take_one zero last st e = elim (Bool-cases (changed last st.state)) [
  | inl new ↦ absurd (ground (arith, e, new))
  | inr old ↦ rw old refl
]
take_one (suc m) last st e = elim (Bool-cases (changed last st.state)) [
  | inl new ↦ rw new (ap (◌∷◌ st) (take_nil m))
  | inr old ↦ rw old refl
]

take_stuck :
    (m : ℕ) (last : Option ConnState) (st : Status)
    → blocked m last st.state ≡ true
    → [] ≡ take m (sent_of last st ++ [])
take_stuck zero last st e = refl
take_stuck (suc m) last st e = absurd (ground (arith, e))

module _ {W : Type 0} (h : Host W) (dev : Text) where
  -- What a loop that sent `sent` has read.
  pub record Watched (n m : ℕ) (saw : Bool) (last : Option ConnState) (w : W) (sent : List Status)
      : Type 0 where
    pub read : List Status
    pub polls : Polls h dev n m last saw w read
    pub sent_eq : sent ≡ take m (without_repeats last read)

  -- The round that reads a status.
  module _ (m : ℕ) (saw : Bool) (last : Option ConnState) (w : W) (w1 : W) (d : Device)
      (read : device_info h dev w ≡ (ok d, w1)) where
    abbrev st : Status
    st = (status_for_device h d (saw || needs_auth d) w1).0

    abbrev w2 : W
    w2 = (status_for_device h d (saw || needs_auth d) w1).1

    abbrev round : List Status × W → List Status
    round rest =
        (let sent = if changed last st.state then st ∷ [] else [] in
          if◌then◌else◌ {A = List Status × W} (blocked m last st.state) ([], w2)
            (if◌then◌else◌ {A = List Status × W} (is_final st.state) (sent, w2)
              (sent ++ rest.0, rest.1))).0

    -- A round behind which nothing is read.
    round_last :
        (n : ℕ) (rest : List Status × W)
        → (blocked m last st.state ≡ true) ⊎ (is_final st.state ≡ true)
        → Watched n m saw last w (round rest)
    round_last n rest ends = elim (Bool-cases (blocked m last st.state)) [
      | inl stuck ↦
          rw (stuck, round)
            (record {
              read = st ∷ [];
              polls = untaken read refl stuck;
              sent_eq = take_stuck m last st stuck;
            })
      | inr taken ↦
          let over : is_final st.state ≡ true = ground (arith, ends, taken) in
          rw (taken, over, round)
            (record {
              read = st ∷ [];
              polls = final read refl taken over;
              sent_eq = take_one m last st taken;
            })
    ]

    round_cancelled : (w3 : W) → Watched 0 m saw last w (round ([], w3))
    round_cancelled w3 = elim (Bool-cases (blocked m last st.state)) [
      | inl stuck ↦ round_last 0 ([], w3) (inl stuck)
      | inr taken ↦ elim (Bool-cases (is_final st.state)) [
        | inl ends ↦ round_last 0 ([], w3) (inr ends)
        | inr goes_on ↦
            rw (taken, goes_on, round)
              (record {
                read = st ∷ [];
                polls = cancelled read refl taken goes_on;
                sent_eq = append-nil _ ∙ take_one m last st taken;
              })
      ]
    ]

    round_next :
        (n : ℕ) (rest : List Status × W)
        → Watched n (sends_left m last st.state) (saw || needs_auth d) (some st.state) w2 rest.0
        → Watched (suc n) m saw last w (round rest)
    round_next n (rest, w3) more = elim (Bool-cases (blocked m last st.state)) [
      | inl stuck ↦ round_last (suc n) (rest, w3) (inl stuck)
      | inr taken ↦ elim (Bool-cases (is_final st.state)) [
        | inl ends ↦ round_last (suc n) (rest, w3) (inr ends)
        | inr goes_on ↦
            rw (taken, goes_on, round)
              (record {
                read = st ∷ more.read;
                polls = waited read refl taken goes_on more.polls;
                sent_eq =
                    ap (λ x. sent_of last st ++ x) more.sent_eq
                    ∙ take_sent m last st (without_repeats (some st.state) more.read) taken;
              })
      ]
    ]

  loop_Watched :
      (n m : ℕ) (saw : Bool) (last : Option ConnState) (w : W)
      → Watched n m saw last w (watch_loop h dev n m saw last w).0
  unfolding watch_loop
  loop_Watched zero m saw last w = once (device_info h dev w) refl
    where
      once :
          (r : Result Device × W)
          → device_info h dev w ≡ r
          → Watched 0 m saw last w (watch_round h (λ left saw s w. ([], w)) m saw last r).0
      once (err x, w1) e = record { read = []; polls = gone e; sent_eq = take_nil m }
      once (ok d, w1) e =
          round_cancelled m saw last w w1 d e (status_for_device h d (saw || needs_auth d) w1).1
  loop_Watched (suc n) m saw last w = once (device_info h dev w) refl (loop_Watched n)
    where
      once :
          (r : Result Device × W)
          → device_info h dev w ≡ r
          → ((m : ℕ) (saw : Bool) (last : Option ConnState) (w : W)
              → Watched n m saw last w (watch_loop h dev n m saw last w).0)
          → Watched
              (suc n)
              m
              saw
              last
              w
              (watch_round h
                (λ left saw s w. watch_loop h dev n left saw (some s) w)
                m
                saw
                last
                r).0
      once (err x, w1) e ih = record { read = []; polls = gone e; sent_eq = take_nil m }
      once (ok d, w1) e ih = round_next m saw last w w1 d e n _ (ih _ _ _ _)

each_state :
    (P : ConnState → Type 0) (read : List Status)
    → ((x : ConnState) → Any (λ st. st.state ≡ x) read → P x)
    → All (λ st. P st.state) read
each_state P [] f = tt
each_state P (st ∷ read) f = (f st.state (inl refl), each_state P read (λ x there. f x (inr there)))

-- The statuses are those read of the connection's device without repeats, as many as the client
-- takes, and report each state that was read unless they are as many as it takes.
abbrev pub IsPolled : {W : Type 0} → Host W → (conn_id : Text) → W → List Status → Type 0
IsPolled {W} h conn_id w sts =
    (dev : Text) × (w0 : W) × (read : List Status) × (device_for_active h conn_id w ≡ (ok dev, w0))
    × Polls h dev h.polls h.sends none false w0 read
    × (sts ≡ take h.sends (without_repeats none read))
    × (All (λ r. Any (λ st. st.state ≡ r.state) sts) read ⊎ (length sts ≡ h.sends))

reads_reported :
    (n : ℕ) (read sts : List Status)
    → sts ≡ take n (without_repeats none read)
    → All (λ r. Any (λ st. st.state ≡ r.state) sts) read ⊎ (length sts ≡ n)
reads_reported n read sts e = elim (take_all n (without_repeats none read)) [
  | inl whole ↦ inl (
      each_state (λ x. Any (λ st. st.state ≡ x) sts) read
        (λ x here. elim (reported x none read here) [
          | inl e ↦ absurd (ground (arith, e))
          | inr there ↦ subst (Any (λ st. st.state ≡ x)) (sym (e ∙ whole)) there
        ]))
  | inr full ↦ inr (ap length e ∙ full)
]

-- A watch reads the device of the connection again and again, up to its first final state, to an
-- error, until the client does not take a new status, or until its context is done; and sends what
-- it reads without the statuses whose state is that of the one before, as many as the client takes.
-- So every state that it reads, a final one included, is reported, unless the client has taken as
-- many statuses as it takes before the context is done.
pub nmcli_watch-IsPolled :
    {W : Type 0} (h : Host W) (conn_id : Text) (w w1 : W) (sts : List Status)
    → nmcli_watch h conn_id w ≡ (ok sts, w1)
    → IsPolled h conn_id w sts
unfolding nmcli_watch
nmcli_watch-IsPolled {W} h conn_id w w1 sts e = watched (device_for_active h conn_id w) refl e
  where
    watched :
        (r : Result Text × W)
        → device_for_active h conn_id w ≡ r
        → after
            (λ dev w. let (sts, w') = watch_loop h dev h.polls h.sends false none w in (ok sts, w'))
            r
          ≡ (ok sts, w1)
        → IsPolled h conn_id w sts
    watched (err x, w0) found e = absurd (ground (arith, e))
    watched (ok dev, w0) found e =
        let seen = loop_Watched h dev h.polls h.sends false none w0 in
        let sent : sts ≡ take h.sends (without_repeats none seen.read) =
          sym (ground (arith, e)) ∙ seen.sent_eq in
        (dev, w0, seen.read, found, seen.polls, sent, reads_reported h.sends seen.read sts sent)
