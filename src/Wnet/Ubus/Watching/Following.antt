-- ===== src/Wnet/Ubus/Watching/Following.antt =====
-- The statuses that `Watch` of internal/wnet/ubus/conn.go sends.
use wfm.Prelude.{
  ℕ, zero, suc, ◌+◌, Bool, true, false, ◌&&◌, List, [], ◌∷◌, ◌++◌, Option, none, some, ◌≡◌, ◌≢◌,
  ◌⊎◌, inl, inr, refl, arith, Text, text_eq, ◌==◌, ◌!=◌, ltb, if◌then◌else◌, Bool-cases, sym, subst,
  append-nil,
}
use wfm.Wnet.Types.{
  ConnState, state_idle, state_associating, state_failed, state_connected, conn_state_eq,
  err_c_none, Status,
}
use wfm.Wnet.Backend.{Result, ok, err, after-ok}
use wfm.Wnet.Ubus.Convert.{IwinfoInfo}
use wfm.Wnet.Ubus.Wireless.{Wireless}
use wfm.Wnet.Ubus.Profiles.{Config, found_or_fail}
use wfm.Wnet.Ubus.Connections.{Runtime, is_linked, runtime_by_id}
use wfm.Wnet.Ubus.Watching.{
  status_in, timed_out, is_final, changed, info_status, status_for, unless_late, watch_round,
  watch_loop, ubus_watch,
}

abbrev pub Ending : Status → Type 0
Ending s = (s.state ≡ state_connected) ⊎ (s.state ≡ state_failed)

-- A status without error, which has details of a link only if it is connected, or the timeout.
abbrev pub IsPlain : Status → Type 0
IsPlain s =
    ((s.state ≡ state_connected) × (s.error ≡ err_c_none))
    ⊎ (s ≡ status_in state_idle)
    ⊎ (s ≡ status_in state_associating)
    ⊎ (s ≡ timed_out)

-- Statuses that may follow a last state.
abbrev pub Follows : (last : Option ConnState) → List Status → Type 0
Follows last [] = Unit
Follows last (s ∷ rest) =
    (last ≢ some s.state) × IsPlain s × (Ending s → rest ≡ []) × Follows (some s.state) rest

Ending-is_final : (s : Status) → Ending s → is_final s.state ≡ true
unfolding is_final
Ending-is_final s e = ground (arith, e)

changed-≢ : (last : Option ConnState) (s : ConnState) → changed last s ≡ true → last ≢ some s
unfolding changed
changed-≢ none s h = ground arith
changed-≢ (some last) s h = ground (arith, h)

changed-≡ : (last : Option ConnState) (s : ConnState) → changed last s ≡ false → last ≡ some s
unfolding changed
changed-≡ none s h = ground (arith, h)
changed-≡ (some last) s h = ground (arith, h)

unless_late-IsPlain : (late : Bool) (s : Status) → IsPlain s → IsPlain (unless_late late s)
unless_late-IsPlain late s h = elim (Bool-cases (s.state != state_connected && late)) [
  | inl e ↦ rw e (inr (inr (inr refl)))
  | inr e ↦ rw e h
]

-- One status and those behind it, where the status is sent only if it is new.
added :
    (last : Option ConnState) (s : Status) (rest : List Status)
    → IsPlain s
    → (Ending s → rest ≡ [])
    → Follows (some s.state) rest
    → Follows last ((if changed last s.state then s ∷ [] else []) ++ rest)
added last s rest b end more = elim (Bool-cases (changed last s.state)) [
  | inl new ↦ rw new (changed-≢ last s.state new, b, end, more)
  | inr same ↦ rw same (subst (λ l. Follows l rest) (sym (changed-≡ last s.state same)) more)
]

-- The end of a round, where `rest` is what the rounds behind it send.
round_end :
    {S : Type 0} (last : Option ConnState) (s : Status) (s1 : S) (rest : List Status × S)
    → IsPlain s
    → Follows (some s.state) rest.0
    → Follows last
        (let sent = if changed last s.state then s ∷ [] else [] in
          if◌then◌else◌ {A = List Status × S}
            (is_final s.state)
            (sent, s1)
            (sent ++ rest.0, rest.1)).0
round_end last s s1 (rest, s2) b more = elim (Bool-cases (is_final s.state)) [
  | inl final ↦ rw final (subst (Follows last) (append-nil _) (added last s [] b (λ x. refl) tt))
  | inr more_to_come ↦ rw more_to_come (
      added last s rest b (λ end. absurd (ground (arith, Ending-is_final s end, more_to_come)))
        more)
]

module _ {S : Type 0} (cfg : Config) (r : Wireless S) where
  info_status-IsPlain :
      (rt : Runtime) (x : Result IwinfoInfo × S) → IsPlain (info_status cfg r rt x).0
  info_status-IsPlain rt (err e, s) = inr (inl refl)
  info_status-IsPlain rt (ok info, s) = elim (Bool-cases (is_linked rt.iface info)) [
    | inl e ↦ rw e (inl (refl, refl))
    | inr e ↦ rw e (inr (inr (inl refl)))
  ]

  status_for-IsPlain : (rt : Runtime) (s : S) → IsPlain (status_for cfg r rt s).0
  unfolding status_for
  status_for-IsPlain rt s = elim (Bool-cases rt.iface.disabled) [
    | inl off ↦ rw off (inr (inl refl))
    | inr on ↦ rw on (elim (Bool-cases (rt.ifname == [])) [
      | inl down ↦ rw down (inr (inr (inl refl)))
      | inr up ↦ rw up (info_status-IsPlain rt (r.info rt.ifname s))
    ])
  ]

  watch_round-Follows :
      (next : ConnState → S → List Status × S)
      → ((state : ConnState) (s : S) → Follows (some state) (next state s).0)
      → (deadline : ℕ) → (last : Option ConnState) → (x : Result (Option Runtime) × S)
      → Follows last (watch_round cfg r next deadline last x).0
  watch_round-Follows next ih deadline last (err e, s) = tt
  watch_round-Follows next ih deadline last (ok none, s) = tt
  watch_round-Follows next ih deadline last (ok (some rt), s) =
      let (read, s1) = status_for cfg r rt s in
      let st = unless_late (ltb deadline (r.now s1)) read in
      round_end last st s1 (next st.state s1)
        (unless_late-IsPlain (ltb deadline (r.now s1)) read (status_for-IsPlain rt s))
        (ih st.state s1)

  watch_loop-Follows :
      (conn_id : Text) (deadline ticks : ℕ) (last : Option ConnState) (s : S)
      → Follows last (watch_loop cfg r conn_id deadline ticks last s).0
  unfolding watch_loop
  watch_loop-Follows conn_id deadline zero last s =
      watch_round-Follows (λ state s. ([], s)) (λ state s. tt) deadline last
        (runtime_by_id cfg r conn_id s)
  watch_loop-Follows conn_id deadline (suc ticks) last s =
      watch_round-Follows
        (λ state s. watch_loop cfg r conn_id deadline ticks (some state) (r.tick s))
        (λ state s. watch_loop-Follows conn_id deadline ticks (some state) (r.tick s)) deadline last
        (runtime_by_id cfg r conn_id s)

  -- Each status that a watch sends has another state than the one before; only the last can be
  -- connected or failed; and each is connected without error, idle or associating without anything
  -- else, or the timeout of the association.
  pub ubus_watch-Follows :
      (conn_id : Text) (s s' : S) (sts : List Status)
      → ubus_watch cfg r conn_id s ≡ (ok sts, s')
      → Follows none sts
  unfolding ubus_watch
  ubus_watch-Follows conn_id s s' sts e =
      let (found, s1, e1, r1) = after-ok _ (runtime_by_id cfg r conn_id s) sts s' e in
      let (rt, s2, e2, r2) = after-ok _ (found_or_fail found s1) sts s' r1 in
      subst (Follows none) (ground (arith, r2))
        (watch_loop-Follows conn_id (r.now s2 + 30000) r.polls none s2)
