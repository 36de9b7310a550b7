-- ===== src/Wnet/Tests.antt =====
-- A node in memory that runs the exclusion of internal/wnet/exclude.go, with runs of it and the
-- theorems at concrete interfaces.
use wfm.Prelude.{
  true, false, List, [], ◌∷◌, ◌≡◌, ◌≢◌, refl, arith, Text, text, text_eq, nat_eq, to_lower,
  trim_space, has_suffix, All, find, keep, ◌==◌, ◌↔◌, Option, some, none, lower_byte,
}
use wfm.Prelude.Int.{pos}
use wfm.Wnet.Types.{Interface, Active, Status, err_not_found, err_other, state_idle, err_c_none}
use wfm.Wnet.Backend.{Result, ok, err, Backend, return, fail}
use wfm.Wnet.Exclude.{
  ExcludeRule, is_empty, mac_digits, normalize_mac, validate, pci_match, matches, add_rule,
  new_exclude_set, match, excluded_iface, excluded_name, unless_excluded, filtered_interfaces,
  filtered_interface, filtered_set_power, filtered_scan, filtered_activate, visible_connections,
  filtered_connections, filtered_connection, visible_connection, filtered_deactivate,
  filtered_status, filtered_watch, filtered_backend, with_excluded,
}
use wfm.Wnet.Exclude.Spec.{Hidden, IsValidRule, Without}
use wfm.Wnet.Exclude.Normal.{IsDigit, hex_digit, normalize_mac_lem}
use wfm.Wnet.Exclude.Rules.{excluded_iface_iff}
use wfm.Wnet.Exclude.Lookup.{HiddenPresent, excluded_iface_validated}
use wfm.Wnet.Exclude.Hiding.{with_excluded-Hidden, with_excluded_visible, Refused, Reached}
use wfm.Wnet.Exclude.Absent.{IsRegistry, HasDistinctNames, with_excluded-IsRegistry, named, answer}
use wfm.Wnet.Exclude.Connections.{Bound, with_excluded-Hidden_connection}

-- What the node has, and the names of the interfaces that were acted on.
record Node : Type 0 where
  listed : List Interface
  found : List Active
  touched : List Text

abbrev act : Text → Node → Node
act name n = record n { touched = name ∷ n.touched }

abbrev known : Option Active → Result Active
known none = err err_not_found
known (some a) = ok a

abbrev idle : Status
idle = record {
  state = state_idle;
  error = err_c_none;
  detail = [];
  bssid = [];
  signal = pos 0;
  addresses = [];
  gateway = [];
  dns = [];
}

abbrev node_backend : Backend Node
node_backend = record {
  interfaces = λ n. (ok n.listed, n);
  interface = λ name n. (answer (named name n.listed), n);
  set_power = λ name on n. (answer (named name n.listed), act name n);
  scan = λ name n. (ok [], act name n);
  profiles = return [];
  profile = λ id. fail err_not_found;
  add_profile = λ spec. fail err_other;
  patch_profile = λ id patch. fail err_not_found;
  delete_profile = λ id. fail err_not_found;
  activate = λ name profile_id bssid n. (
    ok (record {
      id = profile_id;
      iface = name;
      profile_id = profile_id;
      ssid = [];
      bssid = bssid;
    }),
    act name n,
  );
  deactivate = λ id n. (ok tt, act id n);
  connections = λ n. (ok n.found, n);
  connection = λ id n. (known (find (λ a. a.id == id) n.found), n);
  status = λ id. return idle;
  watch = λ id. return [];
  close = return tt;
}

abbrev lan : Interface
lan = record {
  name = text "eth0";
  mac = text "aa:bb:cc:dd:ee:ff";
  pci = text "0000:02:00.0";
  powered = true;
  up = true;
  desc = [];
}

abbrev wifi : Interface
wifi = record {
  name = text "wlan0";
  mac = text "02:00:00:00:00:01";
  pci = text "0000:03:00.0";
  powered = true;
  up = true;
  desc = [];
}

abbrev by_mac : ExcludeRule
by_mac = record { name = []; mac = text "AA-BB-CC-DD-EE-FF"; pci = [] }

abbrev by_name_and_pci : ExcludeRule
by_name_and_pci = record { name = text "wlan0"; mac = []; pci = text "02:00.0" }

abbrev rules : List ExcludeRule
rules = by_mac ∷ by_name_and_pci ∷ []

abbrev over : Text → Text → Active
over id name = record { id = id; iface = name; profile_id = id; ssid = text "net"; bssid = [] }

abbrev start : Node
start = record {
  listed = lan ∷ wifi ∷ [];
  found = over (text "1") (text "eth0") ∷ over (text "2") (text "wlan0") ∷ [];
  touched = [];
}

run : Unit {0}
unfolding is_empty mac_digits normalize_mac validate pci_match matches add_rule new_exclude_set
    match excluded_iface excluded_name unless_excluded filtered_interfaces filtered_interface
    filtered_set_power filtered_scan filtered_activate visible_connections filtered_connections
    filtered_connection visible_connection filtered_deactivate filtered_status filtered_watch
    filtered_backend with_excluded text_eq nat_eq to_lower trim_space has_suffix lower_byte
run = tt

abbrev served : Backend Node
served = with_excluded node_backend rules

listing : served.interfaces start ≡ (ok (wifi ∷ []), start)
unfolding run
listing = refl

refused_power : served.set_power (text "eth0") true start ≡ (err err_not_found, start)
unfolding run
refused_power = refl

allowed_power : served.set_power (text "wlan0") true start ≡ (ok wifi, act (text "wlan0") start)
unfolding run
allowed_power = refl

pci_tests :
    (pci_match (text " 02:00.0") (text "0000:02:00.0") ≡ true)
    × (pci_match (text "2:00.0") (text "0000:02:00.0") ≡ false)
    × (pci_match (text "0000:02:00.0") [] ≡ false)
unfolding run
pci_tests = (refl, refl, refl)

rules-IsValidRule : All IsValidRule rules
unfolding run
rules-IsValidRule = (refl, (refl, tt))

lan-Hidden : Hidden rules lan
unfolding run
lan-Hidden = (excluded_iface_iff rules lan).0 refl

wifi-visible : ¬ Hidden rules wifi
unfolding run
wifi-visible h = cc ((excluded_iface_iff rules wifi).1 h)

normalize_mac_lem_example :
    (normalize_mac (text "AA") ≡ to_lower (keep hex_digit (text "AA")))
    × (normalize_mac (text "AA:BB") ≡ normalize_mac (text "AABB"))
    × (normalize_mac (to_lower (text "AA")) ≡ normalize_mac (text "AA"))
    × All IsDigit (normalize_mac (text "AA"))
    × (normalize_mac (normalize_mac (text "AA")) ≡ normalize_mac (text "AA"))
normalize_mac_lem_example = normalize_mac_lem (text "AA") (text "BB") b':' (omega arith)

excluded_iface_validated_example :
    (excluded_iface (new_exclude_set rules) lan ≡ true) ↔ HiddenPresent rules lan
excluded_iface_validated_example = excluded_iface_validated rules lan rules-IsValidRule

with_excluded-Hidden_example :
    Refused {W = Node} {A = Interface} start start (served.interface (text "eth0") start)
    × Refused start start (served.set_power (text "eth0") true start)
    × Refused start start (served.scan (text "eth0") start)
    × Refused start start (served.activate (text "eth0") (text "1") [] start)
unfolding run
with_excluded-Hidden_example =
    with_excluded-Hidden rules node_backend (text "eth0") lan start start true (text "1") [] refl
      refl (λ e. cc) lan-Hidden

with_excluded_visible_example :
    (served.interface (text "wlan0") start ≡ (ok wifi, start))
    × Reached start start
        (node_backend.set_power (text "wlan0") true)
        (served.set_power (text "wlan0") true start)
    × Reached start start (node_backend.scan (text "wlan0")) (served.scan (text "wlan0") start)
    × Reached start start
        (node_backend.activate (text "wlan0") (text "2") [])
        (served.activate (text "wlan0") (text "2") [] start)
unfolding run
with_excluded_visible_example =
    with_excluded_visible rules node_backend (text "wlan0") wifi start start true (text "2") []
      rules-IsValidRule refl refl wifi-visible

-- A node whose interfaces never change.
abbrev fixed_backend : Backend Node
fixed_backend = record node_backend {
  interfaces = λ n. (ok (lan ∷ wifi ∷ []), n);
  interface = λ name n. (answer (named name (lan ∷ wifi ∷ [])), n);
}

fixed_backend-IsRegistry : IsRegistry fixed_backend (λ n. lan ∷ wifi ∷ [])
fixed_backend-IsRegistry = record { interfaces_eq = λ n. refl; interface_eq = λ n name. refl }

lan-wifi-HasDistinctNames : HasDistinctNames (lan ∷ wifi ∷ [])
lan-wifi-HasDistinctNames = (((λ e. cc), tt), (tt, tt))

with_excluded-IsRegistry_example :
    (listed' : Node → List Interface) × IsRegistry (with_excluded fixed_backend rules) listed'
    × ((n : Node) → Without (Hidden rules) (lan ∷ wifi ∷ []) (listed' n))
with_excluded-IsRegistry_example =
    with_excluded-IsRegistry fixed_backend (λ n. lan ∷ wifi ∷ []) rules rules-IsValidRule
      fixed_backend-IsRegistry (λ n. lan-wifi-HasDistinctNames)

abbrev bound : List (Active × Interface)
bound = (over (text "1") (text "eth0"), lan) ∷ (over (text "2") (text "wlan0"), wifi) ∷ []

eth0-ne-nil : text "eth0" ≢ []
eth0-ne-nil e = cc

wlan0-ne-nil : text "wlan0" ≢ []
wlan0-ne-nil e = cc

bound-Bound : All (Bound node_backend start) bound
unfolding run
bound-Bound = ((refl, refl, eth0-ne-nil), ((refl, refl, wlan0-ne-nil), tt))

with_excluded-Hidden_connection_example :
    (served.connection (text "1") start ≡ (err err_not_found, start))
    × (served.deactivate (text "1") start ≡ (err err_not_found, start))
    × (served.status (text "1") start ≡ (err err_not_found, start))
    × (served.watch (text "1") start ≡ (err err_not_found, start))
unfolding run
with_excluded-Hidden_connection_example =
    with_excluded-Hidden_connection node_backend rules (text "1") (over (text "1") (text "eth0"))
      lan start start refl (refl, refl, eth0-ne-nil) lan-Hidden
