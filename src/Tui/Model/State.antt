-- ===== src/Tui/Model/State.antt =====
-- internal/tui/model.go: the state of the terminal interface, with the messages of commands.go. A
-- command is a value (`Cmd`); running it is left to the runtime. The context, the client
-- connection and the width, which only the view reads, are left out, and `int` is ℕ.
use wfm.Prelude.{ℕ, Bool, false, List, [], Option, none, Text, text_eq, nat_eq}
use wfm.Server.Messages.{AccessPoint, PbInterface, PbProfile}

-- At least this many rows are kept visible ahead of the cursor.
abbrev pub scroll_off : ℕ
scroll_off = 5

pub record Model : Type 0 where
  pub height : ℕ
  pub ifaces : List PbInterface
  pub if_index : ℕ
  pub if_addr : Text
  pub conn_ap : Option AccessPoint
  pub profiles : List PbProfile
  pub aps : List AccessPoint
  pub ap_index : ℕ
  pub top : ℕ
  pub scanning : Bool
  pub spinner : ℕ
  pub err : Option Text

unfoldable pub new_model : Model
new_model = record {
  height = 0;
  ifaces = [];
  if_index = 0;
  if_addr = [];
  conn_ap = none;
  profiles = [];
  aps = [];
  ap_index = 0;
  top = 0;
  scanning = false;
  spinner = 0;
  err = none;
}

pub data Cmd : Type 0 where
  scan_cmd iface_status_cmd : Text → Cmd
  list_interfaces_cmd list_profiles_cmd spinner_tick_cmd scan_tick_cmd quit : Cmd

-- A key is the text that bubbletea gives it.
pub data Msg : Type 0 where
  window_size : ℕ → Msg
  key : Text → Msg
  interfaces_loaded : List PbInterface → Option Text → Msg
  iface_status : Text → Text → Option AccessPoint → Msg
  spinner_tick scan_tick : Msg
  profiles_loaded : List PbProfile → Option Text → Msg
  scan_result : Text → List AccessPoint → Option Text → Msg
