-- ===== src/Wnet/Nmcli/Saved.antt =====
-- internal/wnet/nmcli/nm.go: saved profiles and active connections.
use wfm.Prelude.{
  ℕ, Bool, true, false, ◌&&◌, ◌||◌, List, [], ◌∷◌, ◌++◌, Option, none, some, Text, text, text_eq,
  nat_eq, ◌==◌, ◌!=◌, leb, if◌then◌else◌, join,
}
use wfm.Prelude.Splitting.{lines}
use wfm.Wnet.Types.{err_other}
use wfm.Wnet.Backend.{Action, ◌>>=◌, return, fail}
use wfm.Wnet.Nmcli.Terse.{split_terse, Pairs, parse_detail}
use wfm.Wnet.Nmcli.Host.{Host, run_nmcli}

abbrev pub wifi_type : Text
wifi_type = text "802-11-wireless"

pub record ConnProfile : Type 0 where
  pub uuid : Text
  pub name : Text
  pub type : Text

-- The struct `Active` of nm.go.
pub record ListedActive : Type 0 where
  pub name : Text
  pub uuid : Text
  pub device : Text
  pub type : Text
  pub state : Text

abbrev pub conn_profile : List Text → List ConnProfile
conn_profile (uuid ∷ name ∷ type ∷ more) =
    if type == wifi_type then record { uuid = uuid; name = name; type = type } ∷ [] else []
conn_profile _ = []

unfoldable pub conn_profiles : List Text → List ConnProfile
conn_profiles [] = []
conn_profiles (line ∷ rest) = conn_profile (split_terse line) ++ conn_profiles rest

abbrev pub listed_active : List Text → List ListedActive
listed_active (name ∷ uuid ∷ device ∷ type ∷ state ∷ more) =
    if type == wifi_type
    then record { name = name; uuid = uuid; device = device; type = type; state = state } ∷ []
    else []
listed_active _ = []

unfoldable pub listed_actives : List Text → List ListedActive
listed_actives [] = []
listed_actives (line ∷ rest) = listed_active (split_terse line) ++ listed_actives rest

abbrev pub is_hex : ℕ → Bool
is_hex c = (leb b'0' c && leb c b'9') || (leb b'a' c && leb c b'f') || (leb b'A' c && leb c b'F')

-- The shape of `uuidRe`: for each byte whether it is a dash.
abbrev pub uuid_shape : List Bool
uuid_shape =
    let h4 : List Bool → List Bool = λ rest. false ∷ false ∷ false ∷ false ∷ rest in
    h4 (h4 (true ∷ h4 (true ∷ h4 (true ∷ h4 (true ∷ h4 (h4 (h4 [])))))))

-- The match of `uuidRe` at the start of a text.
unfoldable pub uuid_here : List Bool → Text → Option Text
uuid_here [] s = some []
uuid_here (dash ∷ shape) [] = none
uuid_here (dash ∷ shape) (c ∷ s) =
    let rest = uuid_here shape s in
    if (if dash then c == b'-' else is_hex c)
    then elim rest [ none ↦ none | some r ↦ some (c ∷ r) ]
    else none

-- `uuidRe.FindString`: the first match.
unfoldable pub find_uuid : Text → Option Text
unfolding uuid_here
find_uuid [] = none
find_uuid (c ∷ s) =
    let later = find_uuid s in
    elim (uuid_here uuid_shape (c ∷ s)) [ some u ↦ some u | none ↦ later ]

abbrev pub or_failed : {W : Type 0} → Option Text → Action W Text
or_failed none = fail err_other
or_failed (some u) = return u

module _ {W : Type 0} (h : Host W) where
  unfoldable pub wifi_profiles : Action W (List ConnProfile)
  wifi_profiles = do
    out ←
        run_nmcli h
          (text "-t" ∷ text "-f" ∷ text "UUID,NAME,TYPE" ∷ text "connection" ∷ text "show" ∷ [])
    return (conn_profiles (lines out))

  unfoldable pub connection_detail : Text → List Text → Action W Pairs
  connection_detail uuid fields = do
    out ← run_nmcli h (
        text "-t"
        ∷ text "-f"
        ∷ join fields (text ",")
        ∷ text "connection"
        ∷ text "show"
        ∷ uuid
        ∷ [])
    return (parse_detail out)

  unfoldable pub add_connection : List Text → Action W Text
  add_connection args = do
    out ← run_nmcli h (text "connection" ∷ text "add" ∷ args)
    or_failed (find_uuid out)

  unfoldable pub modify_connection : Text → List Text → Action W (Unit {0})
  modify_connection uuid kv = do
    _ ← run_nmcli h (text "connection" ∷ text "modify" ∷ uuid ∷ kv)
    return tt

  unfoldable pub delete_connection : Text → Action W (Unit {0})
  delete_connection uuid = do
    _ ← run_nmcli h (text "connection" ∷ text "delete" ∷ uuid ∷ [])
    return tt

  abbrev pub pinned : Text → List Text
  pinned ifname = if ifname != [] then text "ifname" ∷ ifname ∷ [] else []

  -- `waitSec` by its decimal digits.
  unfoldable pub activate_connection : Text → Text → Text → Action W (Unit {0})
  activate_connection uuid ifname wait_sec = do
    _ ← run_nmcli h (text "-w" ∷ wait_sec ∷ text "connection" ∷ text "up" ∷ uuid ∷ pinned ifname)
    return tt

  unfoldable pub deactivate_connection : Text → Action W (Unit {0})
  deactivate_connection uuid = do
    _ ← run_nmcli h (text "connection" ∷ text "down" ∷ uuid ∷ [])
    return tt

  unfoldable pub active_wifi_connections : Action W (List ListedActive)
  active_wifi_connections = do
    out ← run_nmcli h (
        text "-t"
        ∷ text "-f"
        ∷ text "NAME,UUID,DEVICE,TYPE,STATE"
        ∷ text "connection"
        ∷ text "show"
        ∷ text "--active"
        ∷ [])
    return (listed_actives (lines out))
