-- ===== src/Wnet/Nmdbus/Patching.antt =====
-- internal/wnet/nmdbus/nmdbus.go: the operations on profiles. The calls over D-Bus are parameters.
pub mod Frame
use wfm.Prelude.{
  ℕ, Bool, true, false, ◌&&◌, ◌||◌, not, List, [], ◌∷◌, ◌++◌, Option, none, some, Text, text,
  text_eq, ◌==◌, ◌!=◌, if◌then◌else◌,
}
use wfm.Wnet.Types.{
  Error, err_not_found, err_unsupported, err_other, SecurityKind, sec_open, sec_psk, sec_enterprise,
  security_kind_eq, Security, IpConfig, Profile, ProfileSpec, ProfilePatch,
}
use wfm.Wnet.Backend.{Result, ok, err, Action, after, ◌>>=◌, return, fail}
use wfm.Wnet.Nmdbus.Convert.{AddressLib}
use wfm.Wnet.Nmdbus.Variants.{Variant, str, boolean, bytes, Group, NmSettings, lookup, s_string}
use wfm.Wnet.Nmdbus.Settings.{ip_section, build_settings, profile_from_settings}

-- `m[key] = v`
unfoldable pub put : {A : Type 0} → Text → A → List (Text × A) → List (Text × A)
put key v [] = (key, v) ∷ []
put key v ((k, x) ∷ rest) =
    let others = put key v rest in if k == key then (k, v) ∷ rest else (k, x) ∷ others

-- `delete(m, key)`
unfoldable pub delete : {A : Type 0} → Text → List (Text × A) → List (Text × A)
delete key [] = []
delete key ((k, x) ∷ rest) =
    let others = delete key rest in if k == key then others else (k, x) ∷ others

abbrev pub or_empty : Option Group → Group
or_empty none = []
or_empty (some g) = g

-- `ensure(group)[key] = v`
unfoldable pub ensure_put : (group key : Text) → Variant → NmSettings → NmSettings
unfolding put
ensure_put group key v s = put group (put key v (or_empty (lookup group s))) s

abbrev pub put_if :
    {A : Type 0} → (group key : Text) → (A → Variant) → Option A → NmSettings → NmSettings
put_if group key variant none s = s
put_if group key variant (some a) s = ensure_put group key (variant a) s

-- `s[group][k] = v` for each secret.
unfoldable pub inject : Group → Group → Group
unfolding put
inject [] g = g
inject ((k, v) ∷ secrets) g = inject secrets (put k v g)

abbrev pub security_group : Text
security_group = text "802-11-wireless-security"

-- The stored secrets go back into the group of the security, if it is there.
abbrev pub with_secrets : (secrets : Group) → Option Group → NmSettings → NmSettings
with_secrets secrets none s = s
with_secrets secrets (some g) s = put security_group (inject secrets g) s

abbrev pub put_security : SecurityKind → (passphrase : Text) → NmSettings → NmSettings
put_security sec_psk passphrase s =
    ensure_put security_group (text "psk") (str passphrase)
      (ensure_put security_group (text "key-mgmt") (str (text "wpa-psk")) s)
put_security sec_open passphrase s = delete security_group s
put_security sec_enterprise passphrase s = s

abbrev pub patch_security : Option Security → (secrets : Group) → NmSettings → NmSettings
patch_security none secrets s = with_secrets secrets (lookup security_group s) s
patch_security (some sec) secrets s = put_security sec.kind sec.passphrase s

-- `delete(c, "timestamp")`
abbrev pub without_timestamp : Option Group → NmSettings → NmSettings
without_timestamp none s = s
without_timestamp (some g) s = put (text "connection") (delete (text "timestamp") g) s

abbrev pub is_enterprise : Option Security → Bool
is_enterprise none = false
is_enterprise (some sec) = sec.kind == sec_enterprise

abbrev pub is_absent : {A : Type 0} → Option A → Bool
is_absent none = true
is_absent (some a) = false

module _ (net : AddressLib) where
  abbrev pub put_family : (group : Text) → Option IpConfig → NmSettings → NmSettings
  put_family group none s = s
  put_family group (some cfg) s = put group (ip_section net group (some cfg)) s

  -- What the patch sets before the security, and behind it.
  unfoldable pub patch_first : ProfilePatch → NmSettings → NmSettings
  patch_first patch s = put_if (text "connection") (text "autoconnect") boolean patch.autoconnect (
      put_if (text "802-11-wireless") (text "hidden") boolean patch.hidden (
        put_if (text "802-11-wireless") (text "ssid") bytes patch.ssid
          (put_if (text "connection") (text "id") str patch.name s)))

  abbrev pub drop_timestamp : NmSettings → NmSettings
  drop_timestamp s = without_timestamp (lookup (text "connection") s) s

  unfoldable pub patch_settings : ProfilePatch → (secrets : Group) → NmSettings → NmSettings
  unfolding patch_first
  patch_settings patch secrets s = drop_timestamp (
      put_family (text "ipv6") patch.ipv6 (
        put_family (text "ipv4") patch.ipv4
          (patch_security patch.security secrets (patch_first patch s))))

-- The calls on the settings of NetworkManager; connections are known by their object paths.
pub record Bus (W : Type 0) : Type 0 where
  pub list_connections : Action W (List Text)
  pub connection_by_uuid : Text → W → Option Text × W
  pub get_settings : Text → Action W NmSettings
  pub get_secrets : Text → Action W NmSettings
  pub add_connection : NmSettings → Action W Text
  pub update_connection : Text → NmSettings → Action W (Unit {0})
  pub delete_connection : Text → Action W (Unit {0})

module _ {W : Type 0} (net : AddressLib) (b : Bus W) where
  abbrev pub found_or_fail : Option Text × W → Result Text × W
  found_or_fail (none, w) = (err err_not_found, w)
  found_or_fail (some path, w) = (ok path, w)

  unfoldable pub conn_by_uuid : Text → Action W Text
  conn_by_uuid uuid w = found_or_fail (b.connection_by_uuid uuid w)

  abbrev pub wifi_profile : Result NmSettings → List Profile
  wifi_profile (err e) = []
  wifi_profile (ok s) =
      if s_string s (text "connection") (text "type") == text "802-11-wireless"
      then profile_from_settings net s ∷ []
      else []

  -- The loop of `Profiles`.
  unfoldable pub profiles_of : List Text → W → List Profile × W
  profiles_of [] w = ([], w)
  profiles_of (path ∷ paths) w =
      let (s, w1) = b.get_settings path w in
      let (out, w2) = profiles_of paths w1 in (wifi_profile s ++ out, w2)

  unfoldable pub nm_profiles : Action W (List Profile)
  nm_profiles = do
    paths ← b.list_connections
    λ w. let (out, w') = profiles_of paths w in (ok out, w')

  abbrev pub read_profile : Text → Action W Profile
  read_profile path = do s ← b.get_settings path; return (profile_from_settings net s)

  unfoldable pub nm_profile : Text → Action W Profile
  nm_profile id = do path ← conn_by_uuid id; read_profile path

  unfoldable pub nm_add_profile : ProfileSpec → Action W Profile
  nm_add_profile spec =
      if spec.ssid == []
      then fail err_other
      else if spec.security.kind == sec_enterprise
      then fail err_unsupported
      else (b.add_connection (build_settings net spec) >>= read_profile)

  -- The secrets of a group of security that the patch leaves, and none on an error.
  abbrev pub secrets_in : Result NmSettings × W → Result Group × W
  secrets_in (err e, w) = (ok [], w)
  secrets_in (ok s, w) = (ok (or_empty (lookup security_group s)), w)

  abbrev pub secrets_for : Text → ProfilePatch → NmSettings → Action W Group
  secrets_for path patch s w =
      if is_absent patch.security && not (is_absent (lookup security_group s))
      then secrets_in (b.get_secrets path w)
      else (ok [], w)

  unfoldable pub nm_patch_profile : Text → ProfilePatch → Action W Profile
  nm_patch_profile id patch = do
    path ← conn_by_uuid id
    s ← b.get_settings path
    _ ← if is_enterprise patch.security then fail err_unsupported else return tt
    secrets ← secrets_for path patch s
    _ ← b.update_connection path (patch_settings net patch secrets s)
    read_profile path

  unfoldable pub nm_delete_profile : Text → Action W (Unit {0})
  nm_delete_profile id = do path ← conn_by_uuid id; b.delete_connection path
