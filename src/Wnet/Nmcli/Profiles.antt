-- ===== src/Wnet/Nmcli/Profiles.antt =====
-- internal/wnet/nmcli/backend.go: the operations on profiles.
use wfm.Prelude.{List, [], ◌∷◌, Text, text, text_eq, ◌==◌, if◌then◌else◌}
use wfm.Wnet.Types.{err_other, Profile, ProfileSpec, ProfilePatch}
use wfm.Wnet.Backend.{Result, ok, err, Action, ◌>>=◌, return}
use wfm.Wnet.Nmcli.Terse.{Pairs, detail_get}
use wfm.Wnet.Nmcli.Host.{Host}
use wfm.Wnet.Nmcli.Devices.{or_not_found}
use wfm.Wnet.Nmcli.Saved.{
  ConnProfile, wifi_profiles, connection_detail, add_connection, modify_connection,
}
use wfm.Wnet.Nmcli.Settings.{
  profile_fields, ip_config_from_detail, security_from_key_mgmt, add_security, add_args,
  patch_security, patch_args,
}

unfoldable pub profile_from_detail : Text → Pairs → Profile
profile_from_detail id pairs = record {
  id = id;
  name = detail_get pairs (text "connection.id");
  ssid = detail_get pairs (text "802-11-wireless.ssid");
  hidden = detail_get pairs (text "802-11-wireless.hidden") == text "yes";
  autoconnect = detail_get pairs (text "connection.autoconnect") == text "yes";
  security = security_from_key_mgmt (detail_get pairs (text "802-11-wireless-security.key-mgmt"));
  ipv4 = ip_config_from_detail pairs (text "ipv4");
  ipv6 = ip_config_from_detail pairs (text "ipv6");
}

-- A value of a result that does not depend on the world.
abbrev pub lift : {W A : Type 0} → Result A → Action W A
lift r w = (r, w)

module _ {W : Type 0} (h : Host W) where
  unfoldable pub profile_by_uuid : Text → Action W Profile
  profile_by_uuid id = do
    pairs ← λ w. or_not_found (connection_detail h id profile_fields w)
    return (profile_from_detail id pairs)

  -- The loop of `Profiles`: a profile that cannot be read is left out.
  unfoldable pub profiles_of : List ConnProfile → W → List Profile × W
  profiles_of [] w = ([], w)
  profiles_of (pr ∷ profs) w =
      let (p, w1) = profile_by_uuid pr.uuid w in
      let (out, w2) = profiles_of profs w1 in (elim p [ ok x ↦ x ∷ out | err e ↦ out ], w2)

  unfoldable pub nmcli_profiles : Action W (List Profile)
  nmcli_profiles = do
    profs ← wifi_profiles h
    λ w. let (out, w') = profiles_of profs w in (ok out, w')

  unfoldable pub nmcli_add_profile : ProfileSpec → Action W Profile
  nmcli_add_profile spec w =
      if spec.ssid == []
      then (err err_other, w)
      else (do
        security ← lift (add_security spec.security)
        id ← add_connection h (add_args spec security)
        profile_by_uuid id)
          w

  -- `if len(kv) > 0`
  abbrev pub modify_any : Text → List Text → Action W (Unit {0})
  modify_any id [] = return tt
  modify_any id (k ∷ kv) = modify_connection h id (k ∷ kv)

  unfoldable pub nmcli_patch_profile : Text → ProfilePatch → Action W Profile
  nmcli_patch_profile id patch = do
    security ← lift (patch_security patch.security)
    _ ← modify_any id (patch_args patch security)
    profile_by_uuid id
