-- ===== src/Tui/Tests.antt =====
-- Runs of internal/tui/model.go and its theorems at concrete states.
use wfm.Prelude.{
  ℕ, ◌-◌, ◌≤◌, min, true, false, List, [], ◌∷◌, none, some, ◌≡◌, refl, arith, Text, text, text_eq,
  nat_eq, suc, contains, has_prefix, ite,
}
use wfm.Prelude.Int.{ℤ, pos, negsuc, int_eq}
use wfm.Server.Messages.{
  AccessPoint, PbInterface, Connection, ConnectionStatus, connection_state_connected,
  connection_error_none,
}
use wfm.Server.Convert.{reply, status, not_found}
use wfm.Server.Interfaces.{Rpc}
use wfm.Tui.Model.{
  Model, new_model, Cmd, iface_status_cmd, list_profiles_cmd, spinner_tick_cmd, scan_tick_cmd, quit,
  key, iface_status, interfaces_loaded, scan_result, selected_iface, selected_ap, trigger_scan,
  rows_of_height, down, revealed, clamped, scroll, insert_ap, sort_aps, index_of, apply_scan,
  next_iface, rescan, cursor_up, cursor_down, handle_key, update, is_connected, profile_for,
}
use wfm.Tui.Scrolling.{InView, HasMargin, scroll_lem}
use wfm.Tui.Wellformed.{IsWellFormed}
use wfm.Tui.Wellformed.Messages.{update-IsWellFormed}
use wfm.Tui.Selecting.{Descends, of_signal, apply_scan-Descends}
use wfm.Tui.Scans.{
  scanned, listed, pressed, Program, started_program, updated, input, finish, Steps, stay, step,
  scans,
}
use wfm.Tui.Status.{
  overlaid, connected_ap, before_slash, preferred, pick_addr, resolve, iface_status_msg,
}
use wfm.Tui.Status.Resolving.{none_left, passed, iface_status_msg-Passed}
use wfm.Tui.Scans.Flight.{started_program-IsCounted, IsStranded, Steps-IsStranded}

abbrev point : Text → ℤ → AccessPoint
point id signal = record {
  id = id;
  ssid = text "net";
  bssid = id;
  signal = signal;
  frequency = 2412;
  key_management = [];
}

abbrev iface : Text → PbInterface
iface name = record { id = name; name = name; desc = []; mac = []; powered = true; up = true }

abbrev near : AccessPoint
near = point (text "n") (pos 90)

abbrev far : AccessPoint
far = point (text "f") (negsuc 60)

abbrev twin : AccessPoint
twin = point (text "t") (pos 90)

-- Six rows of which three are the header and one is the status bar leave two for the list.
abbrev browsing : Model
browsing = record new_model {
  height = 6;
  ifaces = iface (text "a") ∷ iface (text "b") ∷ [];
  aps = near ∷ twin ∷ far ∷ [];
  ap_index = 1;
}

run : Unit {0}
unfolding new_model selected_iface selected_ap trigger_scan rows_of_height revealed clamped scroll
    insert_ap sort_aps index_of apply_scan next_iface rescan cursor_up cursor_down handle_key update
    is_connected profile_for overlaid connected_ap before_slash preferred pick_addr resolve
    iface_status_msg contains has_prefix started_program text_eq nat_eq int_eq
run = tt

sorted_stably : sort_aps (far ∷ near ∷ twin ∷ []) ≡ near ∷ twin ∷ far ∷ []
unfolding run
sorted_stably = refl

down_scrolls : (update browsing (key (text "down"))).0 ≡ record browsing { ap_index = 2; top = 1 }
unfolding run
down_scrolls = refl

quits : (update browsing (key (text "q"))).1 ≡ quit ∷ []
unfolding run
quits = refl

scroll_lem_example :
    let n : ℕ = 3 in
    let m' = scroll 2 down browsing in
    (m'.aps ≡ browsing.aps)
    × (m'.ap_index ≡ min 1 (n - 1))
    × InView n 2 m'.ap_index m'.top
    × HasMargin down n 2 m'.ap_index m'.top
unfolding run
scroll_lem_example = scroll_lem 2 down browsing (λ e. cc) (omega arith)

update-IsWellFormed_example : IsWellFormed (update browsing (key (text "down"))).0
unfolding run
update-IsWellFormed_example =
    update-IsWellFormed browsing (key (text "down"))
      (omega arith, omega arith, (omega arith, omega arith, omega arith))

apply_scan-Descends_example :
    let aps = (apply_scan browsing (far ∷ near ∷ twin ∷ [])).aps in
    Descends aps × ((s : ℤ) → of_signal s aps ≡ of_signal s (far ∷ near ∷ twin ∷ []))
apply_scan-Descends_example = apply_scan-Descends browsing (far ∷ near ∷ twin ∷ [])

-- The interfaces arrive, and the first is scanned.
abbrev both : List PbInterface
both = iface (text "a") ∷ iface (text "b") ∷ []

abbrev loaded : Program
loaded = updated new_model (list_profiles_cmd ∷ scan_tick_cmd ∷ []) (interfaces_loaded both none)

loads : Steps started_program loaded
unfolding run
loads =
    step (finish [] (list_profiles_cmd ∷ scan_tick_cmd ∷ []) (listed {items = both} {e = none}))
      stay

started_program-IsCounted_example :
    (scans loaded.running ≤ 1) × (loaded.model.scanning ≡ false → scans loaded.running ≡ 0)
started_program-IsCounted_example = started_program-IsCounted loaded loads

-- Tab is pressed while the scan of the first interface runs.
abbrev tabbed : Program
tabbed = updated loaded.model loaded.running (key (text "tab"))

abbrev left_running : List Cmd
left_running =
    spinner_tick_cmd ∷ iface_status_cmd (text "a") ∷ list_profiles_cmd ∷ scan_tick_cmd ∷ []

-- The scan of the first interface ends.
abbrev stranded : Program
stranded =
    updated tabbed.model (iface_status_cmd (text "b") ∷ left_running)
      (scan_result (text "a") (near ∷ []) none)

strands : Steps started_program stranded
unfolding run
strands =
    step (finish [] (list_profiles_cmd ∷ scan_tick_cmd ∷ []) (listed {items = both} {e = none})) (
      step (input (pressed {k = text "tab"})) (
        step
          (finish (iface_status_cmd (text "b") ∷ []) left_running
            (scanned {id = text "a"} {items = near ∷ []} {e = none}))
          stay))

stranded-IsStranded : IsStranded stranded
unfolding run
stranded-IsStranded = (refl, refl)

-- `r` does not help.
abbrev retried : Program
retried = updated stranded.model stranded.running (key (text "r"))

Steps-IsStranded_example : IsStranded retried
Steps-IsStranded_example = Steps-IsStranded (step (input pressed) stay) stranded-IsStranded

shows_ipv4 : pick_addr (text "fe80::1/64" ∷ text "10.0.0.7/24" ∷ []) ≡ text "10.0.0.7"
unfolding run
shows_ipv4 = refl

-- A server of three connections, of which the first is gone and the second is up; its world counts
-- the calls.
abbrev link : Text → Connection
link id = record {
  id = id;
  interface = none;
  profile = none;
  access_point = some (record near { id = [] });
}

abbrev up_status : ConnectionStatus
up_status = record {
  state = connection_state_connected;
  error = connection_error_none;
  detail = none;
  bssid = some (text "n");
  signal = some (pos 80);
  addresses = text "10.0.0.7/24" ∷ [];
  gateway = [];
  dns = [];
}

abbrev three_links : Text → Rpc ℕ (List Connection)
three_links if_id w = (reply (link (text "1") ∷ link (text "2") ∷ link (text "3") ∷ []), suc w)

abbrev second_up : Text → Rpc ℕ ConnectionStatus
second_up id w = (ite (text_eq.dec id (text "2")) (reply up_status) (status not_found), suc w)

asks_two :
    iface_status_msg three_links second_up (text "a") 0
    ≡ (iface_status (text "a") (text "10.0.0.7") (some (record near { signal = pos 80 })), 3)
unfolding run
asks_two = refl

iface_status_msg-Passed_example : iface_status_msg three_links second_up (text "a") 0 ≡ (
  iface_status
      (text "a")
      (pick_addr up_status.addresses)
      (connected_ap (link (text "2")) up_status),
  3,
)
unfolding run
iface_status_msg-Passed_example =
    iface_status_msg-Passed three_links second_up (text "a") (link (text "1") ∷ [])
      (link (text "3") ∷ []) (link (text "2")) up_status 0 1 2 3 refl (passed tt none_left) refl
      refl
