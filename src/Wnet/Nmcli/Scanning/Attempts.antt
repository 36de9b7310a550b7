-- ===== src/Wnet/Nmcli/Scanning/Attempts.antt =====
-- The attempts of the helper `Scan` of internal/wnet/nmcli/nm.go, and what it makes of them.
use wfm.Prelude.{
  ℕ, zero, suc, ◌≤◌, ◌<◌, Bool, true, false, List, [], ◌∷◌, Option, none, some, ◌≡◌, ◌⊎◌, inl, inr,
  refl, arith, Text, ltb, length, Bool-cases, All, Any, subst,
}
use wfm.Wnet.Types.{Error, err_other}
use wfm.Wnet.Backend.{Result, ok, err}
use wfm.Wnet.Nmcli.Host.{Host}
use wfm.Wnet.Nmcli.Scanning.{
  ListedAp, count_scannable, scan_attempts, finished, better, rescan, list_aps, scan_round,
  scan_loop, scan,
}

abbrev pub Listing : Type 0
Listing = Result (List ListedAp)

-- The listing shows an access point other than the one in use.
abbrev pub HasNeighbour : Listing → Type 0
HasNeighbour (err e) = ⊥
HasNeighbour (ok aps) = 0 < count_scannable aps

-- These are the listings of all attempts, of which `n` are allowed: the first with a neighbour is
-- the last one.
abbrev pub Stops : ℕ → List Listing → Type 0
Stops zero [] = Unit
Stops zero (r ∷ rs) = ⊥
Stops (suc n) [] = ⊥
Stops (suc n) (r ∷ rs) = (HasNeighbour r × (rs ≡ [])) ⊎ (¬ HasNeighbour r × Stops n rs)

-- No listing that was read is longer.
abbrev pub NoLonger : ℕ → Listing → Type 0
NoLonger n (err e) = Unit
NoLonger n (ok aps) = length aps ≤ n

abbrev pub WasRead : Listing → Type 0
WasRead (err e) = ⊥
WasRead (ok aps) = Unit

-- The longest listing that was read; an error if there was one and no listing had a row.
abbrev pub IsBest : List Listing → Listing → Type 0
IsBest rs (ok best) =
    All (NoLonger (length best)) rs × (((best ≡ []) × All WasRead rs) ⊎ Any (λ r. r ≡ ok best) rs)
IsBest rs (err e) = All (NoLonger 0) rs × Any (λ r. r ≡ err e) rs

-- The loop over the listings alone.
abbrev longest : List ListedAp → List Listing → List ListedAp
longest best [] = best
longest best (err e ∷ rs) = longest best rs
longest best (ok aps ∷ rs) = longest (better aps best) rs

abbrev last_error : Option Error → List Listing → Option Error
last_error last [] = last
last_error last (err e ∷ rs) = last_error (some e) rs
last_error last (ok aps ∷ rs) = last_error last rs

longest-le : (best : List ListedAp) (rs : List Listing) → length best ≤ length (longest best rs)
longest-le best [] = omega arith
longest-le best (err e ∷ rs) = longest-le best rs
longest-le best (ok aps ∷ rs) = ground (arith, longest-le (better aps best) rs)

longest-NoLonger :
    (best : List ListedAp) (rs : List Listing) → All (NoLonger (length (longest best rs))) rs
longest-NoLonger best [] = tt
longest-NoLonger best (err e ∷ rs) = (tt, longest-NoLonger best rs)
longest-NoLonger best (ok aps ∷ rs) =
    (ground (arith, longest-le (better aps best) rs), longest-NoLonger (better aps best) rs)

longest-Any :
    (best : List ListedAp) (rs : List Listing)
    → (longest best rs ≡ best) ⊎ Any (λ r. r ≡ ok (longest best rs)) rs
longest-Any best [] = inl refl
longest-Any best (err e ∷ rs) = elim (longest-Any best rs) [
  | inl same ↦ inl same
  | inr there ↦ inr (inr there)
]
longest-Any best (ok aps ∷ rs) = with_head aps best (longest-Any (better aps best) rs)
  where
    with_head :
        {l : List ListedAp} (aps best : List ListedAp)
        → (l ≡ better aps best) ⊎ Any (λ r. r ≡ ok l) rs
        → (l ≡ best) ⊎ Any (λ r. r ≡ ok l) (ok aps ∷ rs)
    with_head aps best (inr there) = inr (inr there)
    with_head aps best (inl same) = ground (arith, same)

last_error-Any :
    (last : Option Error) (rs : List Listing) (e : Error)
    → last_error last rs ≡ some e
    → (last ≡ some e) ⊎ Any (λ r. r ≡ err e) rs
last_error-Any last [] e h = inl h
last_error-Any last (err x ∷ rs) e h = ground (arith, last_error-Any (some x) rs e h)
last_error-Any last (ok aps ∷ rs) e h = ground (arith, last_error-Any last rs e h)

last_error-none :
    (last : Option Error) (rs : List Listing)
    → last_error last rs ≡ none
    → (last ≡ none) × All WasRead rs
last_error-none last [] h = (h, tt)
last_error-none last (err x ∷ rs) h = ground (arith, last_error-none (some x) rs h)
last_error-none last (ok aps ∷ rs) h =
    let (no_error, were) = last_error-none last rs h in (no_error, (tt, were))

finished-IsBest :
    (rs : List Listing) (best : List ListedAp) (last : Option Error)
    → longest [] rs ≡ best
    → last_error none rs ≡ last
    → IsBest rs (finished best last)
finished-IsBest rs [] none l e = (
  subst (λ b. All (NoLonger (length b)) rs) l (longest-NoLonger [] rs),
  inl (refl, (last_error-none none rs e).1),
)
finished-IsBest rs [] (some x) l e = (
  subst (λ b. All (NoLonger (length b)) rs) l (longest-NoLonger [] rs),
  ground (arith, last_error-Any none rs x e),
)
finished-IsBest rs (ap ∷ aps) last l e = (
  subst (λ b. All (NoLonger (length b)) rs) l (longest-NoLonger [] rs),
  inr (elim (longest-Any [] rs) [
    | inl absent ↦ absurd (ground (arith, absent, l))
    | inr there ↦ subst (λ b. Any (λ r. r ≡ ok b) rs) l there
  ]),
)

module _ {W : Type 0} (h : Host W) (ifname : Text) where
  -- Each attempt asks for a rescan, waits, and reads the list.
  pub data Tried : List Listing → W → W → Type 0 where
    start : {w : W} → Tried [] w w
    tried :
        {r : Listing} {rs : List Listing} {w w2 w3 w4 : W}
        → h.sleep (rescan h ifname w).1 ≡ (true, w2)
        → list_aps h ifname w2 ≡ (r, w3)
        → Tried rs w3 w4
        → Tried (r ∷ rs) w w4

  -- The loop ended with a result, or the context was done in a wait.
  data Ends (n : ℕ) (best : List ListedAp) (last : Option Error) (w : W)
      : Listing × W → Type 0 where
    answered :
        {rs : List Listing} {w1 : W}
        → Tried rs w w1
        → Stops n rs
        → Ends n best last w (finished (longest best rs) (last_error last rs), w1)
    cancelled :
        {rs : List Listing} {w1 w2 : W}
        → Tried rs w w1
        → All (λ r. ¬ HasNeighbour r) rs
        → length rs < n
        → h.sleep (rescan h ifname w1).1 ≡ (false, w2)
        → Ends n best last w (err err_other, w2)

  module _ {w w2 w3 : W} (waited : h.sleep (rescan h ifname w).1 ≡ (true, w2)) where
    Ends-err :
        {n : ℕ} {best : List ListedAp} {last : Option Error} {e : Error} {p : Listing × W}
        → list_aps h ifname w2 ≡ (err e, w3)
        → Ends n best (some e) w3 p
        → Ends (suc n) best last w p
    Ends-err listed (answered t s) = answered (tried waited listed t) (inr (λ x. x, s))
    Ends-err listed (cancelled t quiet lt stop) =
        cancelled (tried waited listed t) (λ x. x, quiet) (omega (arith, lt)) stop

    Ends-ok :
        {n : ℕ} {best : List ListedAp} {last : Option Error} {aps : List ListedAp} {p : Listing × W}
        → list_aps h ifname w2 ≡ (ok aps, w3)
        → ¬ (0 < count_scannable aps)
        → Ends n (better aps best) last w3 p
        → Ends (suc n) best last w p
    Ends-ok listed none_here (answered t s) = answered (tried waited listed t) (inr (none_here, s))
    Ends-ok listed none_here (cancelled t quiet lt stop) =
        cancelled (tried waited listed t) (none_here, quiet) (omega (arith, lt)) stop

  scan_round-Ends :
      {n : ℕ} {best : List ListedAp} {last : Option Error} {w w2 : W}
      → (waited : Bool) → h.sleep (rescan h ifname w).1 ≡ (waited, w2)
      → (listed : Listing × W) → list_aps h ifname w2 ≡ listed
      → (next : List ListedAp → Option Error → W → Listing × W)
      → ((best : List ListedAp) (last : Option Error) (w : W)
          → Ends n best last w (next best last w))
      → Ends (suc n) best last w (scan_round h next best last waited w2 listed)
  scan_round-Ends false e listed e' next ih = cancelled start tt (omega arith) e
  scan_round-Ends true e (err x, w3) e' next ih = Ends-err e e' (ih _ _ _)
  scan_round-Ends {best} {last} {w} true e (ok aps, w3) e' next ih =
      elim (Bool-cases (ltb 0 (count_scannable aps))) [
        | inl some_here ↦
            rw some_here (answered (tried e e' start) (inl (ground (arith, some_here), refl)))
        | inr none_here ↦ rw none_here (Ends-ok e e' (ground (arith, none_here)) (ih _ _ _))
      ]

  scan_loop-Ends :
      (n : ℕ) (best : List ListedAp) (last : Option Error) (w : W)
      → Ends n best last w (scan_loop h ifname n best last w)
  unfolding scan_loop
  scan_loop-Ends zero best last w = answered start tt
  scan_loop-Ends (suc n) best last w =
      scan_round-Ends (h.sleep (rescan h ifname w).1).0 refl
        (list_aps h ifname (h.sleep (rescan h ifname w).1).1) refl (scan_loop h ifname n)
        (scan_loop-Ends n)

  -- What a scan is: a result of listings, or an end of the context in one of the waits.
  pub data Scanned (w : W) : Listing × W → Type 0 where
    read :
        {rs : List Listing} {r : Listing} {w1 : W}
        → Tried rs w w1
        → Stops scan_attempts rs
        → IsBest rs r
        → Scanned w (r, w1)
    gave_up :
        {rs : List Listing} {w1 w2 : W}
        → Tried rs w w1
        → All (λ r. ¬ HasNeighbour r) rs
        → length rs < scan_attempts
        → h.sleep (rescan h ifname w1).1 ≡ (false, w2)
        → Scanned w (err err_other, w2)

  -- A scan either ends because the context was done in the wait of one of its four attempts, with
  -- no neighbour found in those before; or it reads the list up to four times, up to the first
  -- list with an access point other than the one in use, and its result is the longest list it
  -- read, or the error of an attempt when there was one and every list was empty.
  pub scan-Scanned : (w : W) → Scanned w (scan h ifname w)
  unfolding scan
  scan-Scanned w = summed (scan_loop-Ends scan_attempts [] none w)
    where
      summed : {w : W} {p : Listing × W} → Ends scan_attempts [] none w p → Scanned w p
      summed (answered {rs} t s) = read t s (finished-IsBest rs _ _ refl refl)
      summed (cancelled t quiet lt stop) = gave_up t quiet lt stop
