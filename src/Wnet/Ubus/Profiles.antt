-- ===== src/Wnet/Ubus/Profiles.antt =====
-- internal/wnet/ubus/profile.go. `DeriveID`, which makes an
-- identifier of an SSID and a type, and SHA-1 are parameters.
pub mod Found
pub mod Patching
pub mod Written
pub mod Adding
use wfm.Prelude.{
  ℕ, Bool, true, false, not, ◌&&◌, ◌||◌, List, [], ◌∷◌, ◌++◌, map, Option, none, some, Text, text,
  text_eq, ◌==◌, ◌!=◌, if◌then◌else◌, to_lower, equal_fold, keep, find,
}
use wfm.Wnet.Types.{
  Error, err_not_found, err_unsupported, err_other, Interface, Ap, SecurityKind, sec_open, sec_psk,
  sec_enterprise, security_kind_eq, Security, IpConfig, ip_manual, ip_method_eq, Profile,
  ProfileSpec, ProfilePatch,
}
use wfm.Wnet.Backend.{Result, ok, err, Action, after, ◌>>=◌, return, fail}
use wfm.Wnet.Ubus.Convert.{
  IwinfoInfo, ap_from_scan, is_associated, bool_to_uci, sec_type, enc_str_to_sec_kind,
  sec_kind_to_enc,
}
use wfm.Wnet.Ubus.Convert.Wireless.{WifiIface, to_profile}
use wfm.Wnet.Ubus.Wireless.{Values, Wireless}

-- The configuration of the backend and the libraries it derives names with.
pub record Config : Type 0 where
  -- The network that a station is bound to.
  pub network : Text
  -- `wnet.DeriveID`
  pub derive_id : (ssid type : Text) → Text
  -- The first six bytes of the SHA-1 of a text, in hexadecimal.
  pub short_sha1 : Text → Text

-- `New`, for an endpoint that is not empty.
abbrev pub default_network : Text → Text
default_network network = if network == [] then text "wwan" else network

abbrev pub is_manual : Option IpConfig → Bool
is_manual none = false
is_manual (some cfg) = cfg.method == ip_manual

unfoldable pub reject_unsupported : Security → (ipv4 ipv6 : Option IpConfig) → Option Error
reject_unsupported sec ipv4 ipv6 =
    if sec.kind == sec_enterprise
    then some err_unsupported
    else if is_manual ipv4 || is_manual ipv6
    then some err_unsupported
    else none

-- The option `key` of a station, if it is written.
abbrev pub kept_key : Option WifiIface → Values
kept_key none = []
kept_key (some w) = if w.key != [] then (text "key", w.key) ∷ [] else []

abbrev pub key_values : SecurityKind → (passphrase : Text) → Option WifiIface → Values
key_values sec_psk passphrase existing =
    if passphrase != [] then (text "key", passphrase) ∷ [] else kept_key existing
key_values sec_open passphrase existing = (text "key", []) ∷ []
key_values sec_enterprise passphrase existing = []

-- An SSID, security and flag that a patch leaves as they are.
abbrev pub or_kept : {A : Type 0} → A → Option A → A
or_kept kept none = kept
or_kept kept (some a) = a

abbrev pub unless_error : {S A : Type 0} → Option Error → Action S A → Action S A
unless_error none m = m
unless_error (some e) m = fail e

abbrev pub found_or_fail : {S A : Type 0} → Option A → Action S A
found_or_fail none = fail err_not_found
found_or_fail (some a) = return a

module _ (cfg : Config) where
  unfoldable pub profile_id : (ssid : Text) → SecurityKind → Text
  profile_id ssid k = cfg.derive_id ssid (sec_type k)

  -- The identifier that a section derives to.
  unfoldable pub id_of : WifiIface → Text
  unfolding profile_id
  id_of w = profile_id w.ssid (enc_str_to_sec_kind w.encryption)

  unfoldable pub section_name : (ssid : Text) → SecurityKind → Text
  section_name ssid k = text "wfm_" ++ cfg.short_sha1 (ssid ++ 0 ∷ sec_type k)

  -- `values` of `writeStation`, but for the device.
  unfoldable pub station_values :
      (ssid : Text) → Security → (autoconnect : Bool) → Option WifiIface → Values
  station_values ssid sec autoconnect existing =
      (text "mode", text "sta")
      ∷ (text "ssid", ssid)
      ∷ (text "encryption", sec_kind_to_enc sec.kind)
      ∷ (text "disabled", bool_to_uci (not autoconnect))
      ∷ ((if cfg.network != [] then (text "network", cfg.network) ∷ [] else [])
          ++ key_values sec.kind sec.passphrase existing)

module _ {S : Type 0} (cfg : Config) (r : Wireless S) where
  unfoldable pub sta_ifaces : Action S (List WifiIface)
  sta_ifaces = do all ← r.wifi_ifaces; return (keep (λ w. equal_fold w.mode (text "sta")) all)

  unfoldable pub find_by_id : Text → Action S (Option WifiIface)
  find_by_id id = do stas ← sta_ifaces; return (find (λ w. id_of cfg w == id) stas)

  unfoldable pub ubus_profiles : Action S (List Profile)
  ubus_profiles = do stas ← sta_ifaces; return (map (to_profile cfg.derive_id) stas)

  -- The station of an identifier, or that there is none.
  unfoldable pub station : Text → Action S WifiIface
  station id = find_by_id id >>= found_or_fail

  unfoldable pub ubus_profile : Text → Action S Profile
  ubus_profile id = do w ← station id; return (to_profile cfg.derive_id w)

  unfoldable pub set_and_commit : (section : Text) → Values → Action S (Unit {0})
  set_and_commit section values = do _ ← r.uci_set section values; r.commit

  abbrev pub write_new : (ssid : Text) → Security → (autoconnect : Bool) → Action S (Unit {0})
  write_new ssid sec autoconnect = do
    radio ← r.pick_radio
    _ ←
        r.uci_add (section_name cfg ssid sec.kind)
          (station_values cfg ssid sec autoconnect none ++ (text "device", radio) ∷ [])
    r.commit

  unfoldable pub write_station :
      (ssid : Text) → Security → (autoconnect : Bool) → Option WifiIface → Action S (Unit {0})
  write_station ssid sec autoconnect none = write_new ssid sec autoconnect
  write_station ssid sec autoconnect (some w) =
      set_and_commit w.section (station_values cfg ssid sec autoconnect (some w))

  unfoldable pub ubus_add_profile : ProfileSpec → Action S Profile
  ubus_add_profile spec = unless_error (if spec.ssid == [] then some err_other else none) (
      unless_error (reject_unsupported spec.security spec.ipv4 spec.ipv6) (do
        let id = profile_id cfg spec.ssid spec.security.kind
        existing ← find_by_id id
        _ ← write_station spec.ssid spec.security spec.autoconnect existing
        ubus_profile id))

  unfoldable pub delete_section : (section : Text) → Action S (Unit {0})
  delete_section section = do _ ← r.uci_delete section; r.commit

  -- The passphrase of a renamed station is that of the old one, if the patch has none.
  abbrev pub carried : Security → WifiIface → Security
  carried sec cur =
      if sec.kind == sec_psk && sec.passphrase == []
      then record sec { passphrase = cur.key }
      else sec

  -- The end of `PatchProfile`.
  abbrev pub repatch :
      WifiIface → (ssid : Text) → Security → (autoconnect : Bool) → Action S Profile
  repatch cur ssid sec autoconnect =
      (if ssid != cur.ssid || sec.kind != enc_str_to_sec_kind cur.encryption
        then (write_station ssid (carried sec cur) autoconnect none >>= λ _.
            delete_section cur.section)
        else write_station ssid sec autoconnect (some cur))
      >>= λ _. ubus_profile (profile_id cfg ssid sec.kind)

  unfoldable pub ubus_patch_profile : Text → ProfilePatch → Action S Profile
  ubus_patch_profile id patch = do
    cur ← station id
    let sec =
        or_kept (record { kind = enc_str_to_sec_kind cur.encryption; passphrase = [] })
          patch.security
    unless_error (reject_unsupported sec patch.ipv4 patch.ipv6) (
        repatch cur (or_kept cur.ssid patch.ssid) sec
          (or_kept (not cur.disabled) patch.autoconnect))

  unfoldable pub ubus_delete_profile : Text → Action S (Unit {0})
  ubus_delete_profile id = do cur ← station id; delete_section cur.section
