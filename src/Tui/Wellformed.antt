-- ===== src/Tui/Wellformed.antt =====
-- What `Update` of internal/tui/model.go keeps: the indices are on their lists and the cursor is in
-- the viewport.
pub mod Messages
use wfm.Prelude.{
  ℕ, zero, suc, ◌+◌, ◌-◌, ◌%◌, ◌≤◌, ◌<◌, min, Bool, true, false, ◌||◌, ◌&&◌, not, List, [], ◌∷◌,
  Option, none, some, ◌≡◌, ◌≢◌, ◌∙◌, refl, sym, ap, arith, Text, text, text_eq, nat_eq, ◌==◌, ◌!=◌,
  ltb, leb, if◌then◌else◌, length, ◌⊎◌, inl, inr, Option-cases, Bool-cases,
}
use wfm.Server.Messages.{AccessPoint, PbInterface, PbProfile}
use wfm.Tui.Model.{
  Model, new_model, Cmd, Msg, window_size, key, interfaces_loaded, iface_status, spinner_tick,
  scan_tick, profiles_loaded, scan_result, selected_iface, trigger_scan, visible_rows, Dir, down,
  up, still, scroll, sort_aps, apply_scan, index_of, ap_id, selected_ap, and_cmds, next_iface,
  rescan, cursor_up, cursor_down, handle_key, rows_of_height, if_id, scroll_off, revealed, clamped,
  is_selected, show_connection, update,
}
use wfm.Tui.Scrolling.{InView, clamped-InView, scroll_eq, scroll_nil}
use wfm.Tui.Triggering.{started, cleared, trigger_busy, trigger_clear, trigger_keep}
use native.Mathlib.Omega.{mod_fact}

-- An index of a list of `n` elements, or 0 if that is empty.
abbrev pub IsIndex : ℕ → ℕ → Type 0
IsIndex i n = i ≤ n - 1

abbrev pub IsWellFormed : Model → Type 0
IsWellFormed m =
    IsIndex m.if_index (length m.ifaces)
    × IsIndex m.ap_index (length m.aps)
    × InView (length m.aps) (visible_rows m) m.ap_index m.top

pub rows_of_height-pos : (height : ℕ) → 1 ≤ rows_of_height height
unfolding rows_of_height
rows_of_height-pos height = ground arith

-- What `scroll` leaves of the state, with the cursor and the position that it finds.
scrolled :
    (rows : ℕ) (dir : Dir) (m : Model)
    → 1 ≤ rows
    → IsIndex m.ap_index (length m.aps)
    → (c t : ℕ) × (scroll rows dir m ≡ record m { ap_index = c; top = t })
      × IsIndex c (length m.aps)
      × InView (length m.aps) rows c t
scrolled rows dir m r i = elim (nat_eq.dec (length m.aps) 0) [
  | yes e ↦ (m.ap_index, 0, scroll_nil rows dir m e, i, omega arith)
  | no n ↦
      let len = length m.aps in
      let cursor = min m.ap_index (len - 1) in
      let off = if ltb (rows - 1) scroll_off then rows - 1 else scroll_off in
      let top = revealed dir len rows cursor off m.top in
      (
        cursor,
        clamped len rows cursor top,
        scroll_eq rows dir m (omega arith) r,
        omega arith,
        clamped-InView len rows cursor top (omega arith) r,
      )
]

pub at_start :
    (m : Model) → m.ap_index ≡ 0 → m.top ≡ 0 → IsIndex m.if_index (length m.ifaces) → IsWellFormed m
at_start m i t f = (f, omega arith, omega (arith, rows_of_height-pos m.height))

module _ (m : Model) where
  pub scroll-IsWellFormed :
      (dir : Dir)
      → IsIndex m.if_index (length m.ifaces)
      → IsIndex m.ap_index (length m.aps)
      → IsWellFormed (scroll (visible_rows m) dir m)
  scroll-IsWellFormed dir f i =
      let (c, t, eq, j, v) = scrolled (visible_rows m) dir m (rows_of_height-pos m.height) i in
      rw eq (f, j, v)

  pub trigger_scan-IsWellFormed :
      (id : Text) (clear : Bool) → IsWellFormed m → IsWellFormed (trigger_scan m id clear).0
  trigger_scan-IsWellFormed id clear w = elim (Bool-cases m.scanning) [
    | inl busy ↦ rw (trigger_busy m id clear busy) w
    | inr idle ↦ elim clear as (λ c. IsWellFormed (trigger_scan m id c).0) [
      | true ↦ rw (trigger_clear m id idle) (at_start (cleared m) refl refl w.0)
      | false ↦ rw (trigger_keep m id idle) w
    ]
  ]

mod-IsIndex : (i n : ℕ) → n ≢ 0 → IsIndex (i % n) n
mod-IsIndex i zero h = absurd (h refl)
mod-IsIndex i (suc n) h = omega (arith, mod_fact i n)

module _ (m : Model) where
  next_iface_none : length m.ifaces ≡ 0 → next_iface m ≡ (m, [])
  unfolding next_iface
  next_iface_none e = ground arith

  next_iface_some :
      length m.ifaces ≢ 0
      → let next : Model = record m {
        if_index = (m.if_index + 1) % length m.ifaces;
        if_addr = [];
      } in
        (next_iface m).0 ≡ (trigger_scan next (if_id (selected_iface next)) true).0
  unfolding next_iface
  next_iface_some n = ground arith

module _ (m : Model) (w : IsWellFormed m) where
  next_iface-IsWellFormed : IsWellFormed (next_iface m).0
  next_iface-IsWellFormed = elim (nat_eq.dec (length m.ifaces) 0) [
    | yes e ↦ rw (next_iface_none m e) w
    | no n ↦
        let next : Model = record m {
          if_index = (m.if_index + 1) % length m.ifaces;
          if_addr = [];
        } in
        rw (next_iface_some m n) (
          trigger_scan-IsWellFormed next (if_id (selected_iface next)) true
            (mod-IsIndex (m.if_index + 1) (length m.ifaces) n, w.1, w.2))
  ]

  rescan-IsWellFormed : IsWellFormed (rescan m).0
  unfolding rescan
  rescan-IsWellFormed = elim (Option-cases (selected_iface m)) [
    | inl e ↦ rw (e, rescan) w
    | inr (it, e) ↦ rw (e, rescan) (trigger_scan-IsWellFormed m it.id false w)
  ]

  cursor_up-IsWellFormed : IsWellFormed (cursor_up m)
  unfolding cursor_up
  cursor_up-IsWellFormed = elim (Bool-cases (ltb 0 m.ap_index)) [
    | inl above ↦
        let moved : Model = record m { ap_index = m.ap_index - 1 } in
        rw (above, cursor_up) (scroll-IsWellFormed moved up w.0 (omega (arith, w.1)))
    | inr first ↦ rw (first, cursor_up) w
  ]

  cursor_down-IsWellFormed : IsWellFormed (cursor_down m)
  unfolding cursor_down
  cursor_down-IsWellFormed = elim (Bool-cases (ltb (m.ap_index + 1) (length m.aps))) [
    | inl below ↦
        let moved : Model = record m { ap_index = m.ap_index + 1 } in
        let h : m.ap_index + 1 < length m.aps = ground arith in
        rw (below, cursor_down) (scroll-IsWellFormed moved down w.0 (omega (arith, h)))
    | inr final ↦ rw (final, cursor_down) w
  ]

  pub handle_key-IsWellFormed : (k : Text) → IsWellFormed (handle_key m k).0
  unfolding handle_key
  handle_key-IsWellFormed k = ground (
    arith, next_iface-IsWellFormed, rescan-IsWellFormed, cursor_up-IsWellFormed,
    cursor_down-IsWellFormed,
  )
