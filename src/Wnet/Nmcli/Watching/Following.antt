-- ===== src/Wnet/Nmcli/Watching/Following.antt =====
-- The statuses that `Watch` of internal/wnet/nmcli/backend.go sends.
use wfm.Prelude.{
  ℕ, zero, suc, Bool, true, false, ◌||◌, List, [], ◌∷◌, ◌++◌, Option, none, some, ◌≡◌, ◌≢◌, ◌⊎◌,
  inl, inr, refl, arith, Text, text_eq, ◌==◌, if◌then◌else◌, Bool-cases, sym, ap, subst, append-nil,
}
use wfm.Prelude.Int.{int_eq}
use wfm.Wnet.Types.{
  ConnState, state_authenticating, state_failed, state_connected, conn_state_eq, err_c_none,
  err_c_auth_failed, err_c_unknown, Status,
}
use wfm.Wnet.Backend.{Result, ok, err, after}
use wfm.Wnet.Nmcli.Host.{Host}
use wfm.Wnet.Nmcli.Devices.{Device, device_info, device_ip4}
use wfm.Wnet.Nmcli.Scanning.{ListedAp, current_ap}
use wfm.Wnet.Nmcli.Connections.{device_for_active}
use wfm.Wnet.Nmcli.Watching.{
  map_state, needs_auth, failure, status_of, is_final, changed, blocked, sends_left,
  status_for_device, watch_round, watch_loop, nmcli_watch,
}

-- The error of a status, after statuses of which one was authenticating if `saw`.
abbrev pub Blames : (saw : Bool) → Status → Type 0
Blames saw s =
    (s.state ≢ state_failed → s.error ≡ err_c_none)
    × (s.state ≡ state_failed → (s.error ≡ err_c_auth_failed) ⊎ (s.error ≡ err_c_unknown))
    × (s.state ≡ state_failed → saw ≡ true → s.error ≡ err_c_auth_failed)

abbrev pub Ending : Status → Type 0
Ending s = (s.state ≡ state_connected) ⊎ (s.state ≡ state_failed)

-- Statuses that may follow a last state, with `saw` as above.
abbrev pub Follows : (last : Option ConnState) → (saw : Bool) → List Status → Type 0
Follows last saw [] = Unit
Follows last saw (s ∷ rest) =
    (last ≢ some s.state)
    × Blames saw s
    × (Ending s → rest ≡ [])
    × Follows (some s.state) (saw || s.state == state_authenticating) rest

needs_auth_lem : (d : Device) → needs_auth d ≡ (map_state d.state_code == state_authenticating)
unfolding needs_auth map_state
needs_auth_lem d = ground arith

Ending-is_final : (s : Status) → Ending s → is_final s.state ≡ true
unfolding is_final
Ending-is_final s e = ground (arith, e)

changed-≢ : (last : Option ConnState) (s : ConnState) → changed last s ≡ true → last ≢ some s
unfolding changed
changed-≢ none s h = ground arith
changed-≢ (some last) s h = ground (arith, h)

changed-≡ : (last : Option ConnState) (s : ConnState) → changed last s ≡ false → last ≡ some s
unfolding changed
changed-≡ none s h = ground (arith, h)
changed-≡ (some last) s h = ground (arith, h)

status_of-Blames :
    (d : Device) (saw : Bool) (ap : Option ListedAp) (ip : List Text × Text × List Text)
    → Blames saw (status_of d (saw || needs_auth d) ap ip)
unfolding status_of failure
status_of-Blames d saw ap (addresses, gateway, dns) = ground arith

Blames-true : (saw : Bool) (s : Status) → Blames true s → Blames saw s
Blames-true saw s (fine, either, auth) = (fine, either, λ failed h. auth failed refl)

Follows-true :
    (last : Option ConnState) (saw : Bool) (sts : List Status)
    → Follows last true sts
    → Follows last saw sts
Follows-true last saw [] h = tt
Follows-true last true (s ∷ rest) h = h
Follows-true last false (s ∷ rest) (new, blames, end, more) = (
  new,
  Blames-true false s blames,
  end,
  Follows-true (some s.state) (s.state == state_authenticating) rest more,
)

Follows-or :
    (last : Option ConnState) (saw b : Bool) (sts : List Status)
    → Follows last (saw || b) sts
    → Follows last saw sts
Follows-or last true b sts h = h
Follows-or last false true sts h = Follows-true last false sts h
Follows-or last false false sts h = h

-- One status and those behind it, where the status is sent only if it is new.
added :
    (last : Option ConnState) (saw : Bool) (s : Status) (rest : List Status)
    → Blames saw s
    → (Ending s → rest ≡ [])
    → Follows (some s.state) (saw || s.state == state_authenticating) rest
    → Follows last saw ((if changed last s.state then s ∷ [] else []) ++ rest)
added last saw s rest b end more = elim (Bool-cases (changed last s.state)) [
  | inl new ↦ rw new (changed-≢ last s.state new, b, end, more)
  | inr same ↦ rw same (
      subst (λ l. Follows l saw rest) (sym (changed-≡ last s.state same))
        (Follows-or _ saw _ rest more))
]

-- The end of a round in which the client takes what is sent.
sent_end :
    {W : Type 0} (last : Option ConnState) (saw saw2 : Bool) (s : Status) (w1 : W)
    (rest : List Status × W)
    → saw2 ≡ (saw || s.state == state_authenticating)
    → Blames saw s
    → Follows (some s.state) saw2 rest.0
    → Follows last saw
        (let sent = if changed last s.state then s ∷ [] else [] in
          if◌then◌else◌ {A = List Status × W}
            (is_final s.state)
            (sent, w1)
            (sent ++ rest.0, rest.1)).0
sent_end last saw saw2 s w1 (rest, w2) e b more = elim (Bool-cases (is_final s.state)) [
  | inl final ↦
      rw final (subst (Follows last saw) (append-nil _) (added last saw s [] b (λ x. refl) tt))
  | inr more_to_come ↦ rw more_to_come (
      added last saw s rest b (λ end. absurd (ground (arith, Ending-is_final s end, more_to_come)))
        (subst (λ x. Follows (some s.state) x rest) e more))
]

-- The end of a round, where `rest` is what the rounds behind it send.
round_end :
    {W : Type 0} (sends : ℕ) (last : Option ConnState) (saw saw2 : Bool) (s : Status) (w1 : W)
    (rest : List Status × W)
    → saw2 ≡ (saw || s.state == state_authenticating)
    → Blames saw s
    → Follows (some s.state) saw2 rest.0
    → Follows last saw
        (let sent = if changed last s.state then s ∷ [] else [] in
          if◌then◌else◌ {A = List Status × W}
            (blocked sends last s.state)
            ([], w1)
            (if◌then◌else◌ {A = List Status × W}
              (is_final s.state)
              (sent, w1)
              (sent ++ rest.0, rest.1))).0
round_end sends last saw saw2 s w1 (rest, w2) e b more =
    elim (Bool-cases (blocked sends last s.state)) [
      | inl stopped ↦ rw stopped tt
      | inr taken ↦ rw taken (sent_end last saw saw2 s w1 (rest, w2) e b more)
    ]

module _ {W : Type 0} (h : Host W) where
  watch_round-Follows :
      (next : ℕ → Bool → ConnState → W → List Status × W)
      → ((left : ℕ) (saw : Bool) (s : ConnState) (w : W)
          → Follows (some s) saw (next left saw s w).0)
      → (sends : ℕ) → (saw : Bool) → (last : Option ConnState) → (listed : Result Device × W)
      → Follows last saw (watch_round h next sends saw last listed).0
  unfolding status_for_device status_of
  watch_round-Follows next ih sends saw last (err e, w) = tt
  watch_round-Follows next ih sends saw last (ok d, w) =
      let (st, w1) = status_for_device h d (saw || needs_auth d) w in
      round_end sends last saw (saw || needs_auth d) st w1
        (next (sends_left sends last st.state) (saw || needs_auth d) st.state w1)
        (ap (◌||◌ saw) (needs_auth_lem d))
        (status_of-Blames d saw (current_ap h d.name w).0
          (device_ip4 h d.name (current_ap h d.name w).1).0)
        (ih _ _ _ _)

  watch_loop-Follows :
      (dev : Text) (polls sends : ℕ) (saw : Bool) (last : Option ConnState) (w : W)
      → Follows last saw (watch_loop h dev polls sends saw last w).0
  unfolding watch_loop
  watch_loop-Follows dev zero sends saw last w =
      watch_round-Follows (λ left saw s w. ([], w)) (λ left saw s w. tt) sends saw last
        (device_info h dev w)
  watch_loop-Follows dev (suc polls) sends saw last w =
      watch_round-Follows (λ left saw s w. watch_loop h dev polls left saw (some s) w)
        (λ left saw s w. watch_loop-Follows dev polls left saw (some s) w) sends saw last
        (device_info h dev w)

  -- Each status that a watch sends has another state than the one before; only the last can be
  -- connected or failed; one that has not failed has no error; and one that has failed says that
  -- the authentication failed if a status sent before it was authenticating, and that or an
  -- unknown error if none was.
  pub nmcli_watch-Follows :
      (conn_id : Text) (w w1 : W) (sts : List Status)
      → nmcli_watch h conn_id w ≡ (ok sts, w1)
      → Follows none false sts
  unfolding nmcli_watch
  nmcli_watch-Follows conn_id w w1 sts e = watched (device_for_active h conn_id w) e
    where
      watched :
          (r : Result Text × W)
          → after
              (λ dev w.
                let (sts, w') = watch_loop h dev h.polls h.sends false none w in (ok sts, w'))
              r
            ≡ (ok sts, w1)
          → Follows none false sts
      watched (err x, w) e = absurd (ground (arith, e))
      watched (ok dev, w) e =
          subst (Follows none false) (ground (arith, e))
            (watch_loop-Follows dev h.polls h.sends false none w)
