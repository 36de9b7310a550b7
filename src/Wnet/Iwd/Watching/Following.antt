-- ===== src/Wnet/Iwd/Watching/Following.antt =====
-- The statuses that `Watch` of internal/wnet/iwd/iwd.go emits.
use wfm.Prelude.{
  Bool, true, false, ◌||◌, not, List, [], ◌∷◌, ◌++◌, map, All, Any, Option, none, some, ◌≡◌, ◌≢◌,
  ◌⊎◌, ◌∙◌, inl, inr, refl, sym, subst, arith, Text, ◌==◌, if◌then◌else◌, Bool-cases,
}
use wfm.Wnet.Types.{
  ConnState, state_idle, state_associating, state_connected, state_failed, conn_state_eq, Status,
  err_c_unknown,
}
use wfm.Wnet.Iwd.Convert.{map_state}
use wfm.Wnet.Iwd.Watching.{Station, dropped, ends_watch, is_new, build_status, emit_all}

abbrev pub Ending : Status → Type 0
Ending s = (s.state ≡ state_connected) ⊎ (s.state ≡ state_failed)

-- Statuses that may follow a last state, after statuses of which one was associating if `saw`.
abbrev pub Follows : (last : Option ConnState) → (saw : Bool) → List Status → Type 0
Follows last saw [] = Unit
Follows last saw (s ∷ rest) =
    (last ≢ some s.state)
    × (s.state ≡ state_failed → saw ≡ true)
    × (s.state ≡ state_idle → saw ≡ false)
    × (Ending s → rest ≡ [])
    × Follows (some s.state) (saw || s.state == state_associating) rest

map_state-≢ : (s : Text) → map_state s ≢ state_failed
unfolding map_state
map_state-≢ s e = ground (arith, e)

build_status-state :
    {W : Type 0} (station : Station W) (iface state_str : Text) (w : W)
    → (build_status station iface state_str w).0.state ≡ map_state state_str
unfolding build_status
build_status-state station iface state_str w = ground arith

-- The status that `emit` makes of one it has built.
module _ (saw : Bool) (last : Option ConnState) (st : Status)
    (built : st.state ≢ state_failed) where
  abbrev saw2 : Bool
  saw2 = saw || st.state == state_associating

  abbrev made : Status
  made = dropped saw2 st

  made_failed : made.state ≡ state_failed → saw ≡ true
  made_failed e = ground (arith, e, built)

  made_idle : made.state ≡ state_idle → saw ≡ false
  made_idle e = ground (arith, e)

  made_associating : some made.state ≡ some state_associating → saw2 ≡ true
  made_associating e = ground (arith, e)

  made_saw : saw2 ≡ (saw || made.state == state_associating)
  made_saw = ground arith

  saw_before :
      (last ≡ some state_associating → saw ≡ true) → is_new last made.state ≡ false → saw2 ≡ saw
  saw_before h e = ground (arith, h, e)

  sent_new : is_new last made.state ≡ true → last ≢ some made.state
  sent_new e = ground (arith, e)

  not-Ending : ends_watch made.state ≡ false → ¬ Ending made
  not-Ending e h = ground (arith, e, h)

  emitted :
      {W : Type 0} (w1 : W) (skipped rest : List Status × W)
      → (last ≡ some state_associating → saw ≡ true)
      → Follows last saw2 skipped.0
      → Follows (some made.state) saw2 rest.0
      → Follows last saw
          (if◌then◌else◌ {A = List Status × W} (not (is_new last made.state)) skipped (
            if◌then◌else◌ {A = List Status × W}
              (ends_watch made.state)
              (made ∷ [], w1)
              (made ∷ rest.0, rest.1))).0
  emitted w1 skipped rest h hs hr = elim (Bool-cases (is_new last made.state)) [
    | inr same ↦ rw same (subst (λ b. Follows last b skipped.0) (saw_before h same) hs)
    | inl new ↦ rw new (elim (Bool-cases (ends_watch made.state)) [
      | inl final ↦ rw final (sent_new new, made_failed, made_idle, λ x. refl, tt)
      | inr more ↦ rw more (
        sent_new new,
        made_failed,
        made_idle,
        λ x. absurd (not-Ending more x),
        subst (λ b. Follows (some made.state) b rest.0) made_saw hr,
      )
    ])
  ]

-- Statuses whose last has failed.
abbrev pub EndsFailed : List Status → Type 0
EndsFailed [] = ⊥
EndsFailed (s ∷ []) = (s.state ≡ state_failed) × (s.error ≡ err_c_unknown)
EndsFailed (s ∷ t ∷ rest) = EndsFailed (t ∷ rest)

EndsFailed-cons : (s : Status) (sts : List Status) → EndsFailed sts → EndsFailed (s ∷ sts)
EndsFailed-cons s [] h = absurd h
EndsFailed-cons s (t ∷ sts) h = h

-- The states told while the client takes every status.
abbrev pub all_taken : List Text → List (Text × Bool)
all_taken states = map (λ s. (s, true)) states

module _ {W : Type 0} (station : Station W) (iface : Text) where
  abbrev emitted_of : List Text → Bool → Option ConnState → W → List Status × W
  emitted_of states = emit_all station iface (all_taken states)

  emit_all-Follows :
      (states : List Text) (saw : Bool) (last : Option ConnState) (w : W)
      → (last ≡ some state_associating → saw ≡ true)
      → Follows last saw (emitted_of states saw last w).0
  unfolding emit_all
  emit_all-Follows [] saw last w h = tt
  emit_all-Follows (s ∷ states) saw last w h =
      let (st, w1) = build_status station iface s w in
      let built : st.state ≢ state_failed =
        λ e. map_state-≢ s (sym (build_status-state station iface s w) ∙ e) in
      let m = made saw last st built in
      let saw2 = saw || st.state == state_associating in
      emitted saw last st built w1 (emitted_of states saw2 last w1)
        (emitted_of states saw2 (some m.state) w1) h
        (emit_all-Follows states saw2 last w1 (λ e. rw (h e) refl))
        (emit_all-Follows states saw2 (some m.state) w1 (made_associating saw last st built))

  -- The statuses that a watch emits for the states of its station while the client takes each of
  -- them: each has another state than the one before, only the last can be connected or failed, and
  -- an idle one stands before every associating one, a failed one behind one.
  pub emit_all_started :
      (states : List Text) (w : W)
      → Follows none false (emit_all station iface (all_taken states) false none w).0
  emit_all_started states w = emit_all-Follows states false none w (λ e. absurd (ground (arith, e)))

-- The statuses of a station that was told to associate and then to be idle.
module _ (saw : Bool) (last : Option ConnState) (st : Status) (built : st.state ≢ state_failed)
    (alive : last ≢ some state_failed) where
  abbrev now : Status
  now = made saw last st built

  abbrev seen : Bool
  seen = saw || st.state == state_associating

  made_dropped :
      seen ≡ true
      → st.state ≡ state_idle
      → (now.state ≡ state_failed)
        × (now.error ≡ err_c_unknown)
        × (is_new last now.state ≡ true)
        × (ends_watch now.state ≡ true)
  made_dropped e i = ground (arith, e, i, alive)

  made_ended :
      st.state ≢ state_connected
      → ends_watch now.state ≡ true
      → (now.state ≡ state_failed) × (now.error ≡ err_c_unknown)
  made_ended c e = ground (arith, c, e, built)

  made_goes_on : ends_watch now.state ≡ false → some now.state ≢ some state_failed
  made_goes_on e f = ground (arith, e, f)

  emitted_drop :
      {W : Type 0} (w1 : W) (skipped rest : List Status × W)
      → seen ≡ true
      → st.state ≡ state_idle
      → EndsFailed
          (if◌then◌else◌ {A = List Status × W} (not (is_new last now.state)) skipped (
            if◌then◌else◌ {A = List Status × W}
              (ends_watch now.state)
              (now ∷ [], w1)
              (now ∷ rest.0, rest.1))).0
  emitted_drop w1 skipped rest e i = let (f, c, n, d) = made_dropped e i in rw (n, d) (f, c)

  emitted_on :
      {W : Type 0} (w1 : W) (skipped rest : List Status × W)
      → st.state ≢ state_connected
      → EndsFailed skipped.0
      → (some now.state ≢ some state_failed → EndsFailed rest.0)
      → EndsFailed
          (if◌then◌else◌ {A = List Status × W} (not (is_new last now.state)) skipped (
            if◌then◌else◌ {A = List Status × W}
              (ends_watch now.state)
              (now ∷ [], w1)
              (now ∷ rest.0, rest.1))).0
  emitted_on w1 skipped rest c hs hr = elim (Bool-cases (is_new last now.state)) [
    | inr same ↦ rw same hs
    | inl new ↦ rw new (elim (Bool-cases (ends_watch now.state)) [
      | inl final ↦ rw final (made_ended c final)
      | inr more ↦ rw more (EndsFailed-cons now rest.0 (hr (made_goes_on more)))
    ])
  ]

module _ {W : Type 0} (station : Station W) (iface : Text) (s : Text) (behind : List Text)
    (idle : map_state s ≡ state_idle) where
  drops :
      (states : List Text) (saw : Bool) (last : Option ConnState) (w : W)
      → (saw ≡ true) ⊎ Any (λ t. map_state t ≡ state_associating) states
      → All (λ t. map_state t ≢ state_connected) states
      → last ≢ some state_failed
      → EndsFailed (emit_all station iface (all_taken (states ++ s ∷ behind)) saw last w).0
  unfolding emit_all
  drops [] saw last w seen c alive =
      let (st, w1) = build_status station iface s w in
      let told = build_status-state station iface s w in
      let built : st.state ≢ state_failed = λ e. map_state-≢ s (sym told ∙ e) in
      emitted_drop saw last st built alive w1 _ _
        (elim seen [ inl e ↦ rw e refl | inr e ↦ absurd e ]) (told ∙ idle)
  drops (t ∷ states) saw last w seen (c, cs) alive =
      let (st, w1) = build_status station iface t w in
      let told = build_status-state station iface t w in
      let built : st.state ≢ state_failed = λ e. map_state-≢ t (sym told ∙ e) in
      let saw2 = saw || st.state == state_associating in
      let seen2 : (saw2 ≡ true) ⊎ Any (λ t. map_state t ≡ state_associating) states = elim seen [
        | inl e ↦ inl (rw e refl)
        | inr (inl here) ↦ inl (ground (arith, told, here))
        | inr (inr there) ↦ inr there
      ] in
      emitted_on saw last st built alive w1 _ _ (λ e. c (sym told ∙ e))
        (drops states saw2 last w1 seen2 cs alive)
        (λ on. drops states saw2 (some (made saw last st built).state) w1 seen2 cs on)

  -- While the client takes each status, a station that is idle after it was associating, and was not
  -- connected before, is reported as failed for an unknown reason, and that is the last status,
  -- whatever is told behind it. Each status has another state than the one before, only the last can
  -- be connected or failed, and an idle one stands before every associating one.
  pub emit_all_dropped :
      (before : List Text) (w : W)
      → Any (λ t. map_state t ≡ state_associating) before
      → All (λ t. map_state t ≢ state_connected) before
      → let sent = (emit_all station iface (all_taken (before ++ s ∷ behind)) false none w).0 in
        EndsFailed sent × Follows none false sent
  emit_all_dropped before w associating c = (
    drops before false none w (inr associating) c (λ e. absurd (ground (arith, e))),
    emit_all_started station iface (before ++ s ∷ behind) w,
  )
