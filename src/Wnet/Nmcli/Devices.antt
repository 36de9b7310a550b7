-- ===== src/Wnet/Nmcli/Devices.antt =====
-- internal/wnet/nmcli/nm.go: devices and their power; backend.go: the operations on interfaces.
use wfm.Prelude.{
  Bool, true, false, not, List, [], ◌∷◌, ◌++◌, Text, text, text_eq, nat_eq, ◌==◌, if◌then◌else◌,
  to_lower,
}
use wfm.Prelude.Int.{ℤ, pos, ltbℤ}
use wfm.Prelude.Splitting.{lines, fields}
use wfm.Wnet.Types.{err_not_found, Interface}
use wfm.Wnet.Backend.{Result, ok, err, Action, ◌>>=◌, return}
use wfm.Wnet.Local.{local_pci}
use wfm.Wnet.Nmcli.Terse.{split_terse, Pairs, parse_detail, detail_get, detail_prefix, state_code}
use wfm.Wnet.Nmcli.Host.{Host, run, run_nmcli}

abbrev pub state_disconnected : ℤ
state_disconnected = pos 30

pub record Device : Type 0 where
  pub name : Text
  pub type : Text
  pub state_code : ℤ
  pub state_text : Text
  pub reason : Text
  pub mac : Text
  pub con_uuid : Text
  pub up : Bool

-- `len(f) >= 2 && f[1] == "wifi"`, with the name.
abbrev pub wifi_name : List Text → List Text
wifi_name (name ∷ type ∷ more) = if type == text "wifi" then name ∷ [] else []
wifi_name _ = []

unfoldable pub wifi_names : List Text → List Text
wifi_names [] = []
wifi_names (line ∷ rest) = wifi_name (split_terse line) ++ wifi_names rest

abbrev pub is_up : List Text → Bool
is_up (name ∷ state ∷ more) = state == text "UP"
is_up _ = false

abbrev pub shows_up : Result Text → Bool
shows_up (ok out) = is_up (fields out)
shows_up (err e) = false

-- The addresses, the gateway and the DNS servers, all empty on an error.
abbrev pub ip4_of : Result Text → List Text × Text × List Text
ip4_of (err e) = ([], [], [])
ip4_of (ok out) =
    let pairs = parse_detail out in
    (
      detail_prefix pairs (text "IP4.ADDRESS"),
      detail_get pairs (text "IP4.GATEWAY"),
      detail_prefix pairs (text "IP4.DNS"),
    )

abbrev pub device_fields : Text
device_fields =
    text "GENERAL.DEVICE,GENERAL.TYPE,GENERAL.HWADDR,GENERAL.STATE,GENERAL.REASON,GENERAL.CON-UUID"

unfoldable pub device_of : Pairs → (up : Bool) → Device
device_of pairs up =
    let state_text = detail_get pairs (text "GENERAL.STATE") in
    record {
      name = detail_get pairs (text "GENERAL.DEVICE");
      type = detail_get pairs (text "GENERAL.TYPE");
      state_code = state_code state_text;
      state_text = state_text;
      reason = detail_get pairs (text "GENERAL.REASON");
      mac = detail_get pairs (text "GENERAL.HWADDR");
      con_uuid = detail_get pairs (text "GENERAL.CON-UUID");
      up = up;
    }

-- `if err != nil { … %w wnet.ErrNotFound … }`
abbrev pub or_not_found : {W A : Type 0} → Result A × W → Result A × W
or_not_found (ok a, w) = (ok a, w)
or_not_found (err e, w) = (err err_not_found, w)

module _ {W : Type 0} (h : Host W) where
  unfoldable pub wifi_device_names : Action W (List Text)
  wifi_device_names = do
    out ←
        run_nmcli h
          (text "-t" ∷ text "-f" ∷ text "DEVICE,TYPE" ∷ text "device" ∷ text "status" ∷ [])
    return (wifi_names (lines out))

  unfoldable pub link_up : Text → W → Bool × W
  link_up name w =
      let (out, w') = run h (text "ip") (text "-br" ∷ text "link" ∷ text "show" ∷ name ∷ []) w in
      (shows_up out, w')

  unfoldable pub device_info : Text → Action W Device
  device_info name = do
    out ←
        run_nmcli h
          (text "-t" ∷ text "-f" ∷ device_fields ∷ text "device" ∷ text "show" ∷ name ∷ [])
    λ w. let (up, w') = link_up name w in (ok (device_of (parse_detail out) up), w')

  unfoldable pub device_ip4 : Text → W → (List Text × Text × List Text) × W
  device_ip4 name w =
      let (out, w') =
        run_nmcli h
          (text "-t"
            ∷ text "-f"
            ∷ text "IP4.ADDRESS,IP4.GATEWAY,IP4.DNS"
            ∷ text "device"
            ∷ text "show"
            ∷ name
            ∷ [])
          w in
      (ip4_of out, w')

  abbrev pub manage : Text → Text → Action W Text
  manage name managed =
      run_nmcli h (text "device" ∷ text "set" ∷ name ∷ text "managed" ∷ managed ∷ [])

  abbrev pub link_set : Text → Text → Action W Text
  link_set name state =
      run h (text "ip") (text "link" ∷ text "set" ∷ text "dev" ∷ name ∷ state ∷ [])

  -- The helper `SetPower` of nm.go; setting the link up is best effort.
  unfoldable pub set_power : Text → Bool → Action W (Unit {0})
  set_power name true w =
      let (_, w') = link_set name (text "up") w in (do _ ← manage name (text "yes"); return tt) w'
  set_power name false w =
      (do _ ← manage name (text "no"); _ ← link_set name (text "down"); return tt) w

  unfoldable pub to_iface : Device → W → Interface
  to_iface d w = record {
    name = d.name;
    mac = to_lower d.mac;
    pci = local_pci (h.readlink w) d.name;
    powered = not (ltbℤ d.state_code state_disconnected);
    up = d.up;
    desc = d.state_text;
  }

  abbrev pub as_iface : Result Device × W → Result Interface × W
  as_iface (ok d, w) = (ok (to_iface d w), w)
  as_iface (err e, w) = (err e, w)

  -- The loop of `Interfaces`: a device that cannot be read is left out.
  unfoldable pub ifaces_of : List Text → W → List Interface × W
  ifaces_of [] w = ([], w)
  ifaces_of (n ∷ names) w =
      let (d, w1) = device_info n w in
      let (out, w2) = ifaces_of names w1 in
      (elim d [ ok x ↦ to_iface x w1 ∷ out | err e ↦ out ], w2)

  unfoldable pub nmcli_interfaces : Action W (List Interface)
  nmcli_interfaces = do
    names ← wifi_device_names
    λ w. let (out, w') = ifaces_of names w in (ok out, w')

  unfoldable pub nmcli_interface : Text → Action W Interface
  nmcli_interface name w = as_iface (or_not_found (device_info name w))

  unfoldable pub nmcli_set_power : Text → Bool → Action W Interface
  nmcli_set_power name on = do _ ← set_power name on; λ w. as_iface (device_info name w)
