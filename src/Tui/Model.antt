-- ===== src/Tui/Model.antt =====
-- internal/tui/model.go: the reaction of the terminal interface to messages. Where the source clamps
-- a negative number to 0, subtraction on ℕ stops there.
mod State
unfoldable pub use State.*
use wfm.Prelude.{
  ℕ, zero, suc, ◌+◌, ◌-◌, ◌%◌, Bool, true, false, ◌||◌, ◌&&◌, not, List, [], ◌∷◌, ◌++◌, Option,
  none, some, Text, text, text_eq, nat_eq, ◌==◌, ◌!=◌, ltb, leb, if◌then◌else◌, length, get_elem?,
  find,
}
use wfm.Prelude.Int.{ltbℤ}
use wfm.Server.Messages.{AccessPoint, PbInterface, PbProfile}

unfoldable pub selected_iface : Model → Option PbInterface
selected_iface m = get_elem? m.ifaces m.if_index

unfoldable pub selected_ap : Model → Option AccessPoint
selected_ap m = get_elem? m.aps m.ap_index

-- For an access point that is there.
abbrev pub same_ap : AccessPoint → AccessPoint → Bool
same_ap c ap = (c.id != [] && c.id == ap.id) || (c.bssid != [] && c.bssid == ap.bssid)

unfoldable pub is_connected : Model → Option AccessPoint → Bool
is_connected m ap = elim m.conn_ap [
  | none ↦ false
  | some c ↦ elim ap [ none ↦ false | some a ↦ same_ap c a ]
]

unfoldable pub profile_for : Model → Option AccessPoint → Option PbProfile
profile_for m none = none
profile_for m (some ap) = if ap.ssid == [] then none else find (λ p. p.ssid == ap.ssid) m.profiles

unfoldable pub trigger_scan : Model → Text → (clear : Bool) → Model × List Cmd
trigger_scan m if_id clear =
    if m.scanning
    then (m, [])
    else let started : Model = record m { scanning = true; err = none } in
      (
        if clear
            then record started { aps = []; ap_index = 0; top = 0; conn_ap = none }
            else started,
        scan_cmd if_id ∷ spinner_tick_cmd ∷ [],
      )

-- The body of `visibleRows`, at the height.
unfoldable pub rows_of_height : ℕ → ℕ
rows_of_height height =
    let body_h = if ltb (height - 1) 3 then 3 else height - 1 in
    let rows = body_h - 3 in if ltb rows 1 then 1 else rows

abbrev pub visible_rows : Model → ℕ
visible_rows m = rows_of_height m.height

-- `dir > 0`, `dir < 0` and `dir == 0`.
pub data Dir : Type 0 where
  down up still : Dir

-- The switch of `scroll`.
unfoldable pub revealed : Dir → (n rows cursor off top : ℕ) → ℕ
revealed down n rows cursor off top =
    let want = if ltb (n - 1) (cursor + off) then n - 1 else cursor + off in
    if ltb (top + rows - 1) want then want + 1 - rows else top
revealed up n rows cursor off top = let want = cursor - off in if ltb want top then want else top
revealed still n rows cursor off top = top

-- The rest of `scroll`: the cursor stays in the viewport, the position in its range.
unfoldable pub clamped : (n rows cursor top : ℕ) → ℕ
clamped n rows cursor top =
    let above = if ltb cursor top then cursor else top in
    let below = if ltb (above + rows - 1) cursor then cursor + 1 - rows else above in
    if ltb (n - rows) below then n - rows else below

unfoldable pub scroll : ℕ → Dir → Model → Model
scroll rows dir m =
    let n = length m.aps in
    if n == 0
    then record m { top = 0 }
    else let rows' = if ltb rows 1 then 1 else rows in
      let cursor = if ltb (n - 1) m.ap_index then n - 1 else m.ap_index in
      let off = if ltb (rows' - 1) scroll_off then rows' - 1 else scroll_off in
      record m {
        ap_index = cursor;
        top = clamped n rows' cursor (revealed dir n rows' cursor off m.top);
      }

-- `sort.SliceStable` by descending signal, as an insertion sort.
unfoldable pub insert_ap : AccessPoint → List AccessPoint → List AccessPoint
insert_ap x [] = x ∷ []
insert_ap x (y ∷ ys) = if ltbℤ x.signal y.signal then y ∷ insert_ap x ys else x ∷ y ∷ ys

unfoldable pub sort_aps : List AccessPoint → List AccessPoint
sort_aps [] = []
sort_aps (x ∷ xs) = insert_ap x (sort_aps xs)

-- The loop of `applyScan`: the index of the first access point of this id, or else `idx`.
unfoldable pub index_of : Text → (i idx : ℕ) → List AccessPoint → ℕ
index_of sel_id i idx [] = idx
index_of sel_id i idx (ap ∷ items) =
    if ap.id == sel_id then i else index_of sel_id (suc i) idx items

abbrev pub ap_id : Option AccessPoint → Text
ap_id none = []
ap_id (some ap) = ap.id

unfoldable pub apply_scan : Model → List AccessPoint → Model
apply_scan m items =
    let sel_id = ap_id (selected_ap m) in
    let sorted = sort_aps items in
    let idx = if sel_id != [] then index_of sel_id 0 m.ap_index sorted else m.ap_index in
    let idx' = if ltb (length sorted - 1) idx then length sorted - 1 else idx in
    scroll (visible_rows m) still (record m { aps = sorted; ap_index = idx' })

-- `Batch(a, b)`: the state after the first command, with the commands of both.
abbrev pub and_cmds : Model × List Cmd → List Cmd → Model × List Cmd
and_cmds (m, cmds) more = (m, cmds ++ more)

abbrev pub if_id : Option PbInterface → Text
if_id none = []
if_id (some it) = it.id

-- The case `tab`.
unfoldable pub next_iface : Model → Model × List Cmd
next_iface m =
    if length m.ifaces == 0
    then (m, [])
    else let next : Model = record m {
      if_index = (m.if_index + 1) % length m.ifaces;
      if_addr = [];
    } in
      let id = if_id (selected_iface next) in
      and_cmds (trigger_scan next id true) (iface_status_cmd id ∷ [])

-- The case `r`.
unfoldable pub rescan : Model → Model × List Cmd
rescan m = elim (selected_iface m) [ none ↦ (m, []) | some it ↦ trigger_scan m it.id false ]

-- The cases `up` and `down`.
unfoldable pub cursor_up : Model → Model
cursor_up m =
    if ltb 0 m.ap_index
    then scroll (visible_rows m) up (record m { ap_index = m.ap_index - 1 })
    else m

unfoldable pub cursor_down : Model → Model
cursor_down m =
    if ltb (m.ap_index + 1) (length m.aps)
    then scroll (visible_rows m) down (record m { ap_index = m.ap_index + 1 })
    else m

unfoldable pub handle_key : Model → Text → Model × List Cmd
handle_key m k =
    if k == text "ctrl+c" || k == text "q"
    then (m, quit ∷ [])
    else if k == text "tab"
    then next_iface m
    else if k == text "r"
    then rescan m
    else if k == text "up" || k == text "k"
    then (cursor_up m, [])
    else if k == text "down" || k == text "j"
    then (cursor_down m, [])
    else (m, [])

-- Whether the selected interface is the one of this id.
abbrev pub is_selected : Option PbInterface → Text → Bool
is_selected none id = false
is_selected (some it) id = it.id == id

-- The active connection stands in for the scan while that is loading.
abbrev pub show_connection : Model → Option AccessPoint → Model
show_connection m none = m
show_connection m (some ap) =
    if m.scanning && length m.aps == 0 then record m { aps = ap ∷ []; ap_index = 0; top = 0 } else m

unfoldable pub update : Model → Msg → Model × List Cmd
update m (window_size h) =
    let resized : Model = record m { height = h } in
    (scroll (visible_rows resized) still resized, [])
update m (key k) = handle_key m k
update m (interfaces_loaded items e) =
    let loaded : Model = record m {
      err = e;
      ifaces = items;
      if_index = if leb (length items) m.if_index then 0 else m.if_index;
    } in
    elim (selected_iface loaded) [
      | none ↦ (loaded, [])
      | some it ↦
          and_cmds (trigger_scan (record loaded { if_addr = [] }) it.id true)
            (iface_status_cmd it.id ∷ [])
    ]
update m (iface_status id addr ap) =
    if is_selected (selected_iface m) id
    then (show_connection (record m { if_addr = addr; conn_ap = ap }) ap, [])
    else (m, [])
update m spinner_tick =
    if m.scanning then (record m { spinner = m.spinner + 1 }, spinner_tick_cmd ∷ []) else (m, [])
update m scan_tick = elim (selected_iface m) [
  | none ↦ (m, scan_tick_cmd ∷ list_profiles_cmd ∷ [])
  | some it ↦
      let (m', cmds) = trigger_scan m it.id false in
      (m', scan_tick_cmd ∷ list_profiles_cmd ∷ cmds ++ iface_status_cmd it.id ∷ [])
]
update m (profiles_loaded items none) = (record m { profiles = items }, [])
update m (profiles_loaded items (some e)) = (m, [])
update m (scan_result id items e) =
    if is_selected (selected_iface m) id
    then (apply_scan (record m { scanning = false; err = e }) items, [])
    else (m, [])
