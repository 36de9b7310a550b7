-- ===== src/Wnet/Ubus/Changes.antt =====
-- The calls by which the backend of internal/wnet/ubus changes the node, in their order.
use wfm.Prelude.{
  Bool, true, List, [], ◌∷◌, ◌++◌, Option, none, some, ◌≡◌, Text, text, text_eq, ◌==◌,
  if◌then◌else◌, equal_fold, Any,
}
use wfm.Wnet.Types.{SecurityKind}
use wfm.Wnet.Backend.{Result, ok}
use wfm.Wnet.Ubus.Convert.{IwinfoInfo, enc_str_to_sec_kind}
use wfm.Wnet.Ubus.Convert.Wireless.{WifiIface}
use wfm.Wnet.Ubus.Wireless.{Values, Wireless}
use wfm.Wnet.Ubus.Profiles.{Config, id_of}

pub data Change : Type 0 where
  sets : (section : Text) → Values → Change
  adds : (name : Text) → Values → Change
  deletes : (section : Text) → Change
  commits : Change
  reloads : Change

-- From a state to another one by the changes, all of which succeed, with reads and waits between
-- them, and by no other change.
pub data Makes {S : Type 0} (r : Wireless S) : List Change → S → S → Type 0 where
  nothing : {s : S} → Makes r [] s s
  chained :
      {cs ds : List Change} {s t u : S} → Makes r cs s t → Makes r ds t u → Makes r (cs ++ ds) s u
  listing : {s t : S} {a : Result (List WifiIface)} → r.wifi_ifaces s ≡ (a, t) → Makes r [] s t
  reading : {s t : S} {a : Result (Text → Text)} → r.wireless_status s ≡ (a, t) → Makes r [] s t
  asking :
      {device : Text} {s t : S} {a : Result IwinfoInfo} → r.info device s ≡ (a, t) → Makes r [] s t
  choosing : {s t : S} {a : Result Text} → r.pick_radio s ≡ (a, t) → Makes r [] s t
  waiting : {s t : S} {a : Bool} → r.wait s ≡ (a, t) → Makes r [] s t
  setting :
      {section : Text} {values : Values} {s t : S}
      → r.uci_set section values s ≡ (ok tt, t)
      → Makes r (sets section values ∷ []) s t
  adding :
      {name : Text} {values : Values} {s t : S}
      → r.uci_add name values s ≡ (ok tt, t)
      → Makes r (adds name values ∷ []) s t
  deleting :
      {section : Text} {s t : S}
      → r.uci_delete section s ≡ (ok tt, t)
      → Makes r (deletes section ∷ []) s t
  committing : {s t : S} → r.commit s ≡ (ok tt, t) → Makes r (commits ∷ []) s t
  reloading : {s t : S} → r.reload_wifi s ≡ (ok tt, t) → Makes r (reloads ∷ []) s t

-- The value that a table of options has for a name.
abbrev pub value_of : Text → Values → Option Text
value_of name [] = none
value_of name ((k, v) ∷ values) =
    let later = value_of name values in if k == name then some v else later

-- The options of a station with an SSID, a kind of security and an autoconnection, bound to the
-- network of the backend, if it has one, and with a key and a radio, if they are written.
pub record IsStation (cfg : Config) (ssid : Text) (kind : SecurityKind) (on : Bool)
    (key radio : Option Text) (values : Values) : Type 0 where
  pub mode : value_of (text "mode") values ≡ some (text "sta")
  pub same_ssid : value_of (text "ssid") values ≡ some ssid
  pub encryption : Text
  pub written : value_of (text "encryption") values ≡ some encryption
  pub same_kind : enc_str_to_sec_kind encryption ≡ kind
  pub disabled : value_of (text "disabled") values ≡ some (if on then text "0" else text "1")
  pub network :
      value_of (text "network") values ≡ (if cfg.network == [] then none else some cfg.network)
  pub same_key : value_of (text "key") values ≡ key
  pub device : value_of (text "device") values ≡ radio

-- A station of the identifier in the configuration that the node lists.
pub record IsChosen {S : Type 0} (cfg : Config) (r : Wireless S) (id : Text) (s : S)
    (chosen : WifiIface) (t : S) : Type 0 where
  pub all : List WifiIface
  pub listed : r.wifi_ifaces s ≡ (ok all, t)
  pub inside : Any (λ w. w ≡ chosen) all
  pub is_sta : equal_fold chosen.mode (text "sta") ≡ true
  pub has_id : id_of cfg chosen ≡ id
