-- ===== src/Tui/Scans.antt =====
-- The scans that internal/tui starts: the program as a step relation over the state and the commands
-- that the runtime of bubbletea is running, of which any may finish next.
pub mod Flight
use wfm.Prelude.{
  ℕ, zero, suc, ◌+◌, ◌-◌, ◌%◌, ◌≤◌, ◌<◌, Bool, true, false, List, [], ◌∷◌, ◌++◌, Option, none, some,
  ◌≡◌, ◌≢◌, ◌∙◌, refl, sym, ap, arith, Text, text, text_eq, nat_eq, ◌==◌, ltb, if◌then◌else◌,
  length, ◌⊎◌, inl, inr, Option-cases, Bool-cases,
}
use wfm.Server.Messages.{AccessPoint, PbInterface, PbProfile}
use wfm.Tui.Model.{
  Model, new_model, Cmd, scan_cmd, iface_status_cmd, list_interfaces_cmd, list_profiles_cmd,
  spinner_tick_cmd, scan_tick_cmd, quit, Msg, window_size, key, interfaces_loaded, iface_status,
  spinner_tick, scan_tick, profiles_loaded, scan_result, selected_iface, trigger_scan, and_cmds,
  next_iface, rescan, cursor_up, cursor_down, handle_key, is_selected, show_connection, update,
  apply_scan, scroll, visible_rows, Dir, up, down, if_id,
}
use wfm.Tui.Triggering.{started, cleared, trigger_busy, trigger_clear, trigger_keep}

-- The messages that a command ends with (commands.go); `quit` ends the program.
pub data Answers : Cmd → Msg → Type 0 where
  scanned :
      {id : Text} {items : List AccessPoint} {e : Option Text}
      → Answers (scan_cmd id) (scan_result id items e)
  resolved :
      {id addr : Text} {ap : Option AccessPoint}
      → Answers (iface_status_cmd id) (iface_status id addr ap)
  listed :
      {items : List PbInterface} {e : Option Text}
      → Answers list_interfaces_cmd (interfaces_loaded items e)
  known :
      {items : List PbProfile} {e : Option Text}
      → Answers list_profiles_cmd (profiles_loaded items e)
  spun : Answers spinner_tick_cmd spinner_tick
  ticked : Answers scan_tick_cmd scan_tick

-- What the terminal sends.
pub data Input : Msg → Type 0 where
  resized : {h : ℕ} → Input (window_size h)
  pressed : {k : Text} → Input (key k)

-- The state with the commands that are running, in any order.
pub record Program : Type 0 where
  pub model : Model
  pub running : List Cmd

unfoldable pub started_program : Program
started_program = record {
  model = new_model;
  running = list_interfaces_cmd ∷ list_profiles_cmd ∷ scan_tick_cmd ∷ [];
}

-- The program after `Update`, with the commands that it returned running as well.
abbrev pub updated : Model → List Cmd → Msg → Program
updated m cmds msg = let (m', more) = update m msg in record { model = m'; running = more ++ cmds }

pub data Step : Program → Program → Type 0 where
  input : {p : Program} {msg : Msg} → Input msg → Step p (updated p.model p.running msg)
  finish :
      {m : Model} (before after : List Cmd) {c : Cmd} {msg : Msg}
      → Answers c msg
      → Step (record { model = m; running = before ++ c ∷ after }) (updated m (before ++ after) msg)

pub data Steps : Program → Program → Type 0 where
  stay : {p : Program} → Steps p p
  step : {p q r : Program} → Step p q → Steps q r → Steps p r

abbrev pub is_scan : Cmd → ℕ
is_scan (scan_cmd id) = 1
is_scan _ = 0

-- How many scans are running.
abbrev pub scans : List Cmd → ℕ
scans [] = 0
scans (c ∷ cmds) = is_scan c + scans cmds

abbrev pub budget : Model → ℕ
budget m = if m.scanning then 1 else 0

pub scans-append : (xs ys : List Cmd) → scans (xs ++ ys) ≡ scans xs + scans ys
scans-append [] ys = omega arith
scans-append (x ∷ xs) ys = omega (arith, scans-append xs ys)

-- A reaction that starts a scan at most when none is marked as running, and marks it.
abbrev pub Starts : Model → Model × List Cmd → Type 0
Starts m (m', cmds) =
    (m.scanning ≡ true → (m'.scanning ≡ true) × (scans cmds ≡ 0))
    × (m.scanning ≡ false → scans cmds ≡ budget m')

pub nothing-Starts :
    (m m' : Model) (cmds : List Cmd)
    → m'.scanning ≡ m.scanning
    → scans cmds ≡ 0
    → Starts m (m', cmds)
nothing-Starts m m' cmds e n = ground arith

pub scroll-scanning : (rows : ℕ) (dir : Dir) (m : Model) → (scroll rows dir m).scanning ≡ m.scanning
unfolding scroll
scroll-scanning rows dir m = ground arith

pub show_connection-scanning :
    (m : Model) (c : Option AccessPoint) → (show_connection m c).scanning ≡ m.scanning
show_connection-scanning m none = refl
show_connection-scanning m (some c) = ground arith

module _ (m : Model) where
  pub trigger_scan-Starts : (id : Text) (clear : Bool) → Starts m (trigger_scan m id clear)
  unfolding trigger_scan
  trigger_scan-Starts id clear = ground arith

  pub and_status-Starts :
      (id other : Text) (clear : Bool)
      → Starts m (and_cmds (trigger_scan m id clear) (iface_status_cmd other ∷ []))
  and_status-Starts id other clear =
      let cmds = (trigger_scan m id clear).1 in
      ground (arith, trigger_scan-Starts id clear, scans-append cmds (iface_status_cmd other ∷ []))

module _ (m : Model) where
  next_iface-Starts : Starts m (next_iface m)
  unfolding next_iface
  next_iface-Starts =
      let next : Model = record m { if_index = (m.if_index + 1) % length m.ifaces; if_addr = [] } in
      let id = if_id (selected_iface next) in ground (arith, and_status-Starts next id id true)

  rescan-Starts : Starts m (rescan m)
  unfolding rescan
  rescan-Starts =
      elim (selected_iface m)
        as (λ o. Starts m (elim o [ none ↦ (m, []) | some it ↦ trigger_scan m it.id false ])) [
          | none ↦ ground arith
          | some it ↦ trigger_scan-Starts m it.id false
        ]

  cursor_up-scanning : (cursor_up m).scanning ≡ m.scanning
  unfolding cursor_up
  cursor_up-scanning =
      ground (arith, scroll-scanning (visible_rows m) up (record m { ap_index = m.ap_index - 1 }))

  cursor_down-scanning : (cursor_down m).scanning ≡ m.scanning
  unfolding cursor_down
  cursor_down-scanning =
      ground (arith, scroll-scanning (visible_rows m) down (record m { ap_index = m.ap_index + 1 }))

  pub handle_key-Starts : (k : Text) → Starts m (handle_key m k)
  unfolding handle_key
  handle_key-Starts k = ground (
    arith,
    next_iface-Starts,
    rescan-Starts,
    nothing-Starts m (cursor_up m) [] cursor_up-scanning refl,
    nothing-Starts m (cursor_down m) [] cursor_down-scanning refl,
  )
