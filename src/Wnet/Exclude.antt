-- ===== src/Wnet/Exclude.antt =====
-- internal/wnet/exclude.go: the rules that hide interfaces, their compiled form, and the wrapper
-- `filteredBackend` that applies them to every operation of a backend.
pub mod Spec
pub mod Normal
pub mod Rules
pub mod Lookup
pub mod Verdict
pub mod Hiding
pub mod Absent
pub mod Connections
use mathlib.Core.List.{foldl}
use wfm.Prelude.{
  ℕ, ◌-◌, ◌+◌, Bool, true, false, not, ◌&&◌, ◌||◌, List, [], ◌∷◌, ◌++◌, if◌then◌else◌, leb, ◌==◌,
  ◌!=◌, nat_eq, Text, text, text_eq, to_lower, trim_space, has_suffix, length, keep, any,
}
use wfm.Wnet.Types.{
  Error, err_not_found, err_other, Interface, Ap, Profile, ProfileSpec, ProfilePatch, Active,
  Status,
}
use wfm.Wnet.Backend.{Result, ok, err, Action, ◌>>=◌, return, fail, Backend}

pub record ExcludeRule : Type 0 where
  pub name : Text
  pub mac : Text
  pub pci : Text

unfoldable pub is_empty : ExcludeRule → Bool
is_empty r = r.name == [] && r.mac == [] && r.pci == []

-- One round of the loop of `normalizeMac`, over bytes: bytes above 0x7f are dropped, as the runes
-- that they belong to are.
unfoldable pub mac_digits : ℕ → Text
mac_digits r =
    if (leb b'0' r && leb r b'9') || (leb b'a' r && leb r b'f')
    then r ∷ []
    else if leb b'A' r && leb r b'F'
    then (r + (b'a' - b'A')) ∷ []
    else []

unfoldable pub normalize_mac : Text → Text
normalize_mac [] = []
normalize_mac (r ∷ s) = mac_digits r ++ normalize_mac s

unfoldable pub validate : ExcludeRule → Result (Unit {0})
validate r =
    if is_empty r
    then err err_other
    else if r.mac != [] && length (normalize_mac r.mac) != 12
    then err err_other
    else ok tt

unfoldable pub pci_match : Text → Text → Bool
pci_match rule actual =
    if actual == []
    then false
    else let rule' = to_lower (trim_space rule) in
      let actual' = to_lower actual in
      if rule' == actual' then true else has_suffix actual' (text ":" ++ rule')

-- `matched` of the source is the last line: whether some field is set.
unfoldable pub matches : ExcludeRule → Text → Text → Text → Bool
matches r name mac pci =
    if r.name != [] && r.name != name
    then false
    else if r.mac != [] && normalize_mac r.mac != mac
    then false
    else if r.pci != [] && not (pci_match r.pci pci)
    then false
    else r.name != [] || r.mac != [] || r.pci != []

pub record ExcludeSet : Type 0 where
  pub rules : List ExcludeRule
  pub need_mac : Bool
  pub need_pci : Bool

-- One round of the loop of `newExcludeSet`.
unfoldable pub add_rule : ExcludeSet → ExcludeRule → ExcludeSet
add_rule s r = if is_empty r then s else record {
  rules = s.rules ++ r ∷ [];
  need_mac = r.mac != [] || s.need_mac;
  need_pci = r.pci != [] || s.need_pci;
}

unfoldable pub new_exclude_set : List ExcludeRule → ExcludeSet
new_exclude_set rules =
    foldl add_rule (record { rules = []; need_mac = false; need_pci = false }) rules

unfoldable pub match : ExcludeSet → Text → Text → Text → Bool
match s name mac pci = let mac_n = normalize_mac mac in any (λ r. matches r name mac_n pci) s.rules

unfoldable pub excluded_iface : ExcludeSet → Interface → Bool
excluded_iface ex it = match ex it.name it.mac it.pci

module _ {W : Type 0} (b : Backend W) (ex : ExcludeSet) where
  -- Whether the lookup's answer excludes the interface.
  abbrev pub excluded_answer : Result Interface × W → Bool × W
  excluded_answer (ok it, w) = (excluded_iface ex it, w)
  excluded_answer (err e, w) = (false, w)

  unfoldable pub excluded_name : Text → W → Bool × W
  excluded_name name w =
      if name == [] || length ex.rules == 0
      then (false, w)
      else if match ex name [] []
      then (true, w)
      else if not ex.need_mac && not ex.need_pci
      then (false, w)
      else excluded_answer (b.interface name w)

  -- `if f.excludedName(name) { return ErrNotFound }`, before a call.
  unfoldable pub unless_excluded : {A : Type 0} → Text → Action W A → Action W A
  unless_excluded name call w =
      let (hidden, w') = excluded_name name w in if hidden then (err err_not_found, w') else call w'

  unfoldable pub filtered_interfaces : Action W (List Interface)
  filtered_interfaces = do its ← b.interfaces; return (keep (λ it. not (excluded_iface ex it)) its)

  unfoldable pub filtered_interface : Text → Action W Interface
  filtered_interface name w =
      if match ex name [] []
      then (err err_not_found, w)
      else (do
        it ← b.interface name
        if excluded_iface ex it then fail err_not_found else return it)
          w

  unfoldable pub filtered_set_power : Text → Bool → Action W Interface
  filtered_set_power name on = unless_excluded name (b.set_power name on)

  unfoldable pub filtered_scan : Text → Action W (List Ap)
  filtered_scan iface = unless_excluded iface (b.scan iface)

  unfoldable pub filtered_activate : Text → Text → Text → Action W Active
  filtered_activate iface profile_id bssid =
      unless_excluded iface (b.activate iface profile_id bssid)

  -- The loop of `Connections`.
  unfoldable pub visible_connections : List Active → W → List Active × W
  visible_connections [] w = ([], w)
  visible_connections (a ∷ rest) w =
      let (hidden, w1) = excluded_name a.iface w in
      let (out, w2) = visible_connections rest w1 in (if hidden then out else a ∷ out, w2)

  unfoldable pub filtered_connections : Action W (List Active)
  filtered_connections = do
    found ← b.connections
    λ w. let (out, w') = visible_connections found w in (ok out, w')

  unfoldable pub filtered_connection : Text → Action W Active
  filtered_connection conn_id = do a ← b.connection conn_id; unless_excluded a.iface (return a)

  unfoldable pub visible_connection : Text → Action W (Unit {0})
  visible_connection conn_id = do a ← b.connection conn_id; unless_excluded a.iface (return tt)

  unfoldable pub filtered_deactivate : Text → Action W (Unit {0})
  filtered_deactivate conn_id = do _ ← visible_connection conn_id; b.deactivate conn_id

  unfoldable pub filtered_status : Text → Action W Status
  filtered_status conn_id = do _ ← visible_connection conn_id; b.status conn_id

  unfoldable pub filtered_watch : Text → Action W (List Status)
  filtered_watch conn_id = do _ ← visible_connection conn_id; b.watch conn_id

  -- The methods that `filteredBackend` declares, over those that it takes from the backend.
  unfoldable pub filtered_backend : Backend W
  filtered_backend = record b {
    interfaces = filtered_interfaces;
    interface = filtered_interface;
    set_power = filtered_set_power;
    scan = filtered_scan;
    activate = filtered_activate;
    deactivate = filtered_deactivate;
    connections = filtered_connections;
    connection = filtered_connection;
    status = filtered_status;
    watch = filtered_watch;
  }

unfoldable pub with_excluded : {W : Type 0} → Backend W → List ExcludeRule → Backend W
with_excluded b rules =
    let s = new_exclude_set rules in if length s.rules == 0 then b else filtered_backend b s
