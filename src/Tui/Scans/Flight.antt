-- ===== src/Tui/Scans/Flight.antt =====
-- How many scans of internal/tui run at once, and when one is marked as running that is not.
use wfm.Prelude.{
  ◌+◌, ◌≤◌, true, false, List, [], ◌∷◌, ◌++◌, Option, none, some, ◌≡◌, refl, arith, Text, text_eq,
  nat_eq, leb, if◌then◌else◌, length,
}
use wfm.Server.Messages.{AccessPoint, PbInterface}
use wfm.Tui.Model.{
  Model, new_model, Cmd, iface_status_cmd, list_profiles_cmd, scan_tick_cmd, Msg, window_size, key,
  interfaces_loaded, iface_status, spinner_tick, scan_tick, profiles_loaded, scan_result,
  selected_iface, trigger_scan, and_cmds, show_connection, update, scroll, visible_rows, still,
}
use wfm.Tui.Scans.{
  Answers, scanned, resolved, listed, known, spun, ticked, Input, resized, pressed, Program,
  started_program, updated, Step, input, finish, Steps, stay, step, is_scan, scans, budget,
  scans-append, Starts, nothing-Starts, scroll-scanning, show_connection-scanning,
  trigger_scan-Starts, and_status-Starts, handle_key-Starts,
}

-- A message that is no scan result.
abbrev IsOther : Msg → Type 0
IsOther (scan_result id items e) = ⊥
IsOther _ = Unit

module _ (m : Model) where
  interfaces_loaded-Starts :
      (items : List PbInterface) (e : Option Text) → Starts m (update m (interfaces_loaded items e))
  unfolding update
  interfaces_loaded-Starts items e =
      let loaded : Model = record m {
        err = e;
        ifaces = items;
        if_index = if leb (length items) m.if_index then 0 else m.if_index;
      } in
      elim (selected_iface loaded)
        as (λ o. Starts m (elim o [
          | none ↦ (loaded, [])
          | some it ↦
              and_cmds (trigger_scan (record loaded { if_addr = [] }) it.id true)
                (iface_status_cmd it.id ∷ [])
        ])) [
          | none ↦ nothing-Starts m loaded [] refl refl
          | some it ↦ and_status-Starts (record loaded { if_addr = [] }) it.id it.id true
        ]

  iface_status-Starts :
      (id addr : Text) (c : Option AccessPoint) → Starts m (update m (iface_status id addr c))
  unfolding update
  iface_status-Starts id addr c =
      let known_addr : Model = record m { if_addr = addr; conn_ap = c } in
      ground (
        arith,
        nothing-Starts m (show_connection known_addr c) [] (show_connection-scanning known_addr c)
            refl,
      )

  spinner_tick-Starts : Starts m (update m spinner_tick)
  unfolding update
  spinner_tick-Starts = ground arith

  scan_tick-Starts : Starts m (update m scan_tick)
  unfolding update
  scan_tick-Starts =
      elim (selected_iface m)
        as (λ o. Starts m (elim o [
          | none ↦ (m, scan_tick_cmd ∷ list_profiles_cmd ∷ [])
          | some it ↦
              let (m', cmds) = trigger_scan m it.id false in
              (m', scan_tick_cmd ∷ list_profiles_cmd ∷ cmds ++ iface_status_cmd it.id ∷ [])
        ])) [
          | none ↦ nothing-Starts m m (scan_tick_cmd ∷ list_profiles_cmd ∷ []) refl (omega arith)
          | some it ↦
              let cmds = (trigger_scan m it.id false).1 in
              ground (
                arith,
                trigger_scan-Starts m it.id false,
                scans-append cmds (iface_status_cmd it.id ∷ []),
              )
        ]

update-Starts : (m : Model) (msg : Msg) → IsOther msg → Starts m (update m msg)
unfolding update
update-Starts m (window_size h) o =
    let resized_model : Model = record m { height = h } in
    nothing-Starts m (scroll (visible_rows resized_model) still resized_model) []
      (scroll-scanning (visible_rows resized_model) still resized_model) refl
update-Starts m (key k) o = handle_key-Starts m k
update-Starts m (interfaces_loaded items e) o = interfaces_loaded-Starts m items e
update-Starts m (iface_status id addr c) o = iface_status-Starts m id addr c
update-Starts m spinner_tick o = spinner_tick-Starts m
update-Starts m scan_tick o = scan_tick-Starts m
update-Starts m (profiles_loaded items none) o =
    nothing-Starts m (record m { profiles = items }) [] refl refl
update-Starts m (profiles_loaded items (some e)) o = nothing-Starts m m [] refl refl
update-Starts m (scan_result id items e) o = absurd o

scan_result-cmds :
    (m : Model) (id : Text) (items : List AccessPoint) (e : Option Text)
    → (update m (scan_result id items e)).1 ≡ []
unfolding update
scan_result-cmds m id items e = ground arith

Input-IsOther : {msg : Msg} → Input msg → IsOther msg
Input-IsOther resized = tt
Input-IsOther pressed = tt

-- The scans that run are counted by the mark: one at most, and none without the mark.
abbrev pub IsCounted : Program → Type 0
IsCounted p = scans p.running ≤ budget p.model

other-IsCounted :
    (m : Model) (cmds : List Cmd) (msg : Msg)
    → IsOther msg
    → scans cmds ≤ budget m
    → IsCounted (updated m cmds msg)
other-IsCounted m cmds msg o h =
    ground (arith, update-Starts m msg o, scans-append (update m msg).1 cmds)

module _ (before after : List Cmd) (c : Cmd) where
  scans-finish : scans (before ++ c ∷ after) ≡ is_scan c + scans (before ++ after)
  scans-finish = omega (arith, scans-append before (c ∷ after), scans-append before after)

  module _ (m : Model) (msg : Msg) where
    other_answer-IsCounted :
        IsOther msg
        → is_scan c ≡ 0
        → scans (before ++ c ∷ after) ≤ budget m
        → IsCounted (updated m (before ++ after) msg)
    other_answer-IsCounted o n h =
        other-IsCounted m (before ++ after) msg o (omega (arith, scans-finish))

  scan_answer-IsCounted :
      (m : Model) (id : Text) (items : List AccessPoint) (e : Option Text)
      → is_scan c ≡ 1
      → scans (before ++ c ∷ after) ≤ budget m
      → IsCounted (updated m (before ++ after) (scan_result id items e))
  scan_answer-IsCounted m id items e n h =
      let some_left : scans (before ++ after) ≡ 0 = ground (arith, scans-finish) in
      rw (scan_result-cmds m id items e) (omega (arith, some_left))

Answers-IsCounted :
    (m : Model) (before after : List Cmd) {c : Cmd} {msg : Msg}
    → Answers c msg
    → scans (before ++ c ∷ after) ≤ budget m
    → IsCounted (updated m (before ++ after) msg)
Answers-IsCounted m before after {c} (scanned {id} {items} {e}) h =
    scan_answer-IsCounted before after c m id items e refl h
Answers-IsCounted m before after {c} {msg} resolved h =
    other_answer-IsCounted before after c m msg tt refl h
Answers-IsCounted m before after {c} {msg} listed h =
    other_answer-IsCounted before after c m msg tt refl h
Answers-IsCounted m before after {c} (known {items} {e}) h =
    other_answer-IsCounted before after c m (profiles_loaded items e) tt refl h
Answers-IsCounted m before after {c} {msg} spun h =
    other_answer-IsCounted before after c m msg tt refl h
Answers-IsCounted m before after {c} {msg} ticked h =
    other_answer-IsCounted before after c m msg tt refl h

Step-IsCounted : {p q : Program} → Step p q → IsCounted p → IsCounted q
Step-IsCounted {p} (input {msg} i) h = other-IsCounted p.model p.running msg (Input-IsOther i) h
Step-IsCounted (finish {m} before after a) h = Answers-IsCounted m before after a h

Steps-IsCounted : {p q : Program} → Steps p q → IsCounted p → IsCounted q
Steps-IsCounted stay h = h
Steps-IsCounted (step s ss) h = Steps-IsCounted ss (Step-IsCounted s h)

-- In every state that the program reaches from its start, at most one scan runs, and none unless
-- the state is marked as scanning.
pub started_program-IsCounted :
    (p : Program)
    → Steps started_program p
    → (scans p.running ≤ 1) × (p.model.scanning ≡ false → scans p.running ≡ 0)
unfolding started_program new_model
started_program-IsCounted p ss = let h = Steps-IsCounted ss (omega arith) in ground arith

-- Marked as scanning, with no scan running.
abbrev pub IsStranded : Program → Type 0
IsStranded p = (p.model.scanning ≡ true) × (scans p.running ≡ 0)

other-IsStranded :
    (m : Model) (cmds : List Cmd) (msg : Msg)
    → IsOther msg
    → m.scanning ≡ true
    → scans cmds ≡ 0
    → IsStranded (updated m cmds msg)
other-IsStranded m cmds msg o e n =
    ground (arith, update-Starts m msg o, scans-append (update m msg).1 cmds)

Answers-IsOther : {c : Cmd} {msg : Msg} → Answers c msg → is_scan c ≡ 0 → IsOther msg
Answers-IsOther scanned h = omega arith
Answers-IsOther resolved h = tt
Answers-IsOther listed h = tt
Answers-IsOther known h = tt
Answers-IsOther spun h = tt
Answers-IsOther ticked h = tt

Step-IsStranded : {p q : Program} → Step p q → IsStranded p → IsStranded q
Step-IsStranded {p} (input {msg} i) (e, n) =
    other-IsStranded p.model p.running msg (Input-IsOther i) e n
Step-IsStranded (finish {m} before after {c} {msg} a) (e, n) =
    other-IsStranded m (before ++ after) msg
      (Answers-IsOther a (omega (arith, scans-finish before after c))) e
      (omega (arith, scans-finish before after c))

-- Once the state is marked as scanning while no scan runs, it stays so whatever happens: no key,
-- no finished command and no timer starts a scan or clears the mark.
pub Steps-IsStranded : {p q : Program} → Steps p q → IsStranded p → IsStranded q
Steps-IsStranded stay h = h
Steps-IsStranded (step s ss) h = Steps-IsStranded ss (Step-IsStranded s h)
