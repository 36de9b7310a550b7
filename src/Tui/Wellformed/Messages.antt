-- ===== src/Tui/Wellformed/Messages.antt =====
-- `Update` of internal/tui/model.go, message by message.
use wfm.Prelude.{
  ℕ, ◌+◌, ◌-◌, ◌≤◌, true, false, ◌&&◌, List, [], ◌∷◌, Option, none, some, refl, ap, arith, Text,
  text_eq, nat_eq, ◌==◌, ◌!=◌, ltb, leb, if◌then◌else◌, length, inl, inr, Option-cases, Bool-cases,
}
use wfm.Server.Messages.{AccessPoint, PbInterface}
use wfm.Tui.Model.{
  Model, Cmd, Msg, window_size, key, interfaces_loaded, iface_status, spinner_tick, scan_tick,
  profiles_loaded, scan_result, selected_iface, still, sort_aps, apply_scan, index_of, ap_id,
  selected_ap, spinner_tick_cmd, is_selected, show_connection, update,
}
use wfm.Tui.Wellformed.{
  IsIndex, IsWellFormed, at_start, scroll-IsWellFormed, trigger_scan-IsWellFormed,
  handle_key-IsWellFormed,
}

apply_scan-IsWellFormed :
    (m : Model) (items : List AccessPoint)
    → IsIndex m.if_index (length m.ifaces)
    → IsWellFormed (apply_scan m items)
unfolding apply_scan
apply_scan-IsWellFormed m items f =
    let sel_id = ap_id (selected_ap m) in
    let sorted = sort_aps items in
    let idx = if sel_id != [] then index_of sel_id 0 m.ap_index sorted else m.ap_index in
    let idx' = if ltb (length sorted - 1) idx then length sorted - 1 else idx in
    scroll-IsWellFormed (record m { aps = sorted; ap_index = idx' }) still f
      (at_most (length sorted - 1) idx)
  where
    at_most : (n i : ℕ) → (if ltb n i then n else i) ≤ n
    at_most n i = ground arith

show_connection-IsWellFormed :
    (m : Model) (ap : Option AccessPoint) → IsWellFormed m → IsWellFormed (show_connection m ap)
show_connection-IsWellFormed m none w = w
show_connection-IsWellFormed m (some ap) w = elim (Bool-cases (m.scanning && length m.aps == 0)) [
  | inl shown ↦
      rw (shown, show_connection)
        (at_start (record m { aps = ap ∷ []; ap_index = 0; top = 0 }) refl refl w.0)
  | inr hidden ↦ rw (hidden, show_connection) w
]

loaded-IsIndex : (n i : ℕ) → IsIndex (if leb n i then 0 else i) n
loaded-IsIndex n i = ground arith

module _ (m : Model) (w : IsWellFormed m) where
  interfaces_loaded-IsWellFormed :
      (items : List PbInterface) (e : Option Text)
      → IsWellFormed (update m (interfaces_loaded items e)).0
  unfolding update
  interfaces_loaded-IsWellFormed items e =
      let loaded : Model = record m {
        err = e;
        ifaces = items;
        if_index = if leb (length items) m.if_index then 0 else m.if_index;
      } in
      let v : IsWellFormed loaded = (loaded-IsIndex (length items) m.if_index, w.1, w.2) in
      elim (Option-cases (selected_iface loaded)) [
        | inl none_left ↦ rw (none_left, update) v
        | inr (it, e) ↦
            rw (e, update) (trigger_scan-IsWellFormed (record loaded { if_addr = [] }) it.id true v)
      ]

  iface_status-IsWellFormed :
      (id addr : Text) (ap : Option AccessPoint)
      → IsWellFormed (update m (iface_status id addr ap)).0
  unfolding update
  iface_status-IsWellFormed id addr ap =
      let v = show_connection-IsWellFormed (record m { if_addr = addr; conn_ap = ap }) ap w in
      elim (Bool-cases (is_selected (selected_iface m) id)) [
        | inl same ↦ rw (same, update) v
        | inr other ↦ rw (other, update) w
      ]

  scan_tick-IsWellFormed : IsWellFormed (update m scan_tick).0
  unfolding update
  scan_tick-IsWellFormed = elim (Option-cases (selected_iface m)) [
    | inl none_left ↦ rw (none_left, update) w
    | inr (it, e) ↦ rw (e, update) (trigger_scan-IsWellFormed m it.id false w)
  ]

  scan_result-IsWellFormed :
      (id : Text) (items : List AccessPoint) (e : Option Text)
      → IsWellFormed (update m (scan_result id items e)).0
  unfolding update
  scan_result-IsWellFormed id items e = elim (Bool-cases (is_selected (selected_iface m) id)) [
    | inl same ↦
        rw (same, update)
          (apply_scan-IsWellFormed (record m { scanning = false; err = e }) items w.0)
    | inr other ↦ rw (other, update) w
  ]

  spinner_tick-IsWellFormed : IsWellFormed (update m spinner_tick).0
  unfolding update
  spinner_tick-IsWellFormed =
      elim m.scanning
        as (λ busy.
          IsWellFormed
            (if◌then◌else◌ {A = Model × List Cmd} busy
              (record m { spinner = m.spinner + 1 }, spinner_tick_cmd ∷ []) (m, [])).0) [
                | true ↦ w
                | false ↦ w
              ]

-- Every message keeps the state well-formed: the interface index and the cursor are on their
-- lists, or 0 on an empty one, and the cursor is inside the viewport, which ends at the list's end
-- at the latest.
pub update-IsWellFormed : (m : Model) (msg : Msg) → IsWellFormed m → IsWellFormed (update m msg).0
unfolding update
update-IsWellFormed m (window_size h) w =
    scroll-IsWellFormed (record m { height = h }) still w.0 w.1
update-IsWellFormed m (key k) w = handle_key-IsWellFormed m w k
update-IsWellFormed m (interfaces_loaded items e) w = interfaces_loaded-IsWellFormed m w items e
update-IsWellFormed m (iface_status id addr ap) w = iface_status-IsWellFormed m w id addr ap
update-IsWellFormed m spinner_tick w = spinner_tick-IsWellFormed m w
update-IsWellFormed m scan_tick w = scan_tick-IsWellFormed m w
update-IsWellFormed m (profiles_loaded items none) w = w
update-IsWellFormed m (profiles_loaded items (some e)) w = w
update-IsWellFormed m (scan_result id items e) w = scan_result-IsWellFormed m w id items e
