-- ===== src/Wnet/Iwd/Store.antt =====
-- internal/wnet/iwd/iwd.go: the profiles, which are files of a store.
pub mod Adding
use wfm.Prelude.{
  ℕ, ◌++◌, Bool, true, false, ◌&&◌, List, [], ◌∷◌, Option, none, some, Text, text, text_eq, ◌==◌,
  ◌!=◌, if◌then◌else◌,
}
use wfm.Wnet.Types.{
  Error, err_not_found, err_unsupported, err_other, Security, SecurityKind, sec_enterprise,
  security_kind_eq, Profile, ProfileSpec, ProfilePatch,
}
use wfm.Wnet.Backend.{Result, ok, err, Action, ◌>>=◌, return, fail}
use wfm.Wnet.Iwd.Convert.{sec_kind_to_type}
use wfm.Wnet.Iwd.Names.{profile_filename, parse_profile_filename}
use wfm.Wnet.Iwd.Profile.{NetLib, render_profile, parse_profile}
use wfm.Wnet.Iwd.Profile.Ini.{parse_ini, lookup_text}

-- What `os.ReadDir` answers: the names with `IsDir`, or one of the two kinds of errors.
pub data Directory : Type 0 where
  entries : List (Text × Bool) → Directory
  absent unreadable : Directory

-- The files of the directory `store`; the Booleans tell whether a call succeeded.
pub record Files (W : Type 0) : Type 0 where
  pub read_dir : W → Directory
  pub read_file : Text → W → Option Text
  -- `os.MkdirAll`
  pub make_store : W → Bool × W
  pub write_file : (name content : Text) → W → Bool × W
  pub remove : Text → W → Bool × W

abbrev pub done : {W : Type 0} → Bool × W → Result (Unit {0}) × W
done (true, w) = (ok tt, w)
done (false, w) = (err err_other, w)

abbrev pub listed : Directory → List (Text × Bool)
listed (entries es) = es
listed absent = []
listed unreadable = []

-- The name, the SSID and the type, if the entry has the identifier.
abbrev pub match_entry :
    (derive_id : Text → Text → Text)
    → (id name : Text) → Option (Text × Text)
    → Option (Text × Text × Text)
match_entry derive_id id name none = none
match_entry derive_id id name (some (ssid, type)) =
    if derive_id ssid type == id then some (name, ssid, type) else none

abbrev pub or_else : {A : Type 0} → Option A → Option A → Option A
or_else none next = next
or_else (some a) next = some a

-- The loop of `findProfileFile`.
unfoldable pub find_entry_of :
    (derive_id : Text → Text → Text)
    → (id : Text) → List (Text × Bool)
    → Option (Text × Text × Text)
find_entry_of derive_id id [] = none
find_entry_of derive_id id ((name, true) ∷ es) = find_entry_of derive_id id es
find_entry_of derive_id id ((name, false) ∷ es) =
    or_else (match_entry derive_id id name (parse_profile_filename name))
      (find_entry_of derive_id id es)

-- The SSID where a patch has none.
abbrev pub or_kept : {A : Type 0} → A → Option A → A
or_kept kept none = kept
or_kept kept (some a) = a

-- The security of a patch, which keeps the passphrase if it leaves it blank for the same kind.
abbrev pub patched_security :
    (kind : SecurityKind) → (passphrase : Text) → Option Security → Security
patched_security kind passphrase none = record { kind = kind; passphrase = passphrase }
patched_security kind passphrase (some s) =
    if s.passphrase == [] && s.kind == kind then record s { passphrase = passphrase } else s

module _ {W : Type 0} (net : NetLib) (derive_id : Text → Text → Text) (files : Files W) where
  unfoldable pub write_profile : (name content : Text) → Action W (Unit {0})
  write_profile name content = do
    _ ← λ w. done (files.make_store w)
    λ w. done (files.write_file name content w)

  unfoldable pub find_profile_file : Text → W → Option (Text × Text × Text)
  find_profile_file id w = find_entry_of derive_id id (listed (files.read_dir w))

  -- One round of the loop of `Profiles`.
  abbrev pub profile_of : Option (Text × Text) → Option Text → List Profile
  profile_of (some (ssid, type)) (some content) = parse_profile net derive_id ssid type content ∷ []
  profile_of (some (ssid, type)) none = []
  profile_of none content = []

  unfoldable pub profiles_in : List (Text × Bool) → W → List Profile
  profiles_in [] w = []
  profiles_in ((name, true) ∷ es) w = profiles_in es w
  profiles_in ((name, false) ∷ es) w =
      profile_of (parse_profile_filename name) (files.read_file name w) ++ profiles_in es w

  unfoldable pub iwd_profiles : Action W (List Profile)
  iwd_profiles w = elim (files.read_dir w) [
    | entries es ↦ (ok (profiles_in es w), w)
    | absent ↦ (ok [], w)
    | unreadable ↦ (err err_other, w)
  ]

  abbrev pub read_profile : (ssid type : Text) → Option Text → Action W Profile
  read_profile ssid type none = fail err_other
  read_profile ssid type (some content) = return (parse_profile net derive_id ssid type content)

  abbrev pub profile_at : Option (Text × Text × Text) → Action W Profile
  profile_at none w = (err err_not_found, w)
  profile_at (some (name, ssid, type)) w = read_profile ssid type (files.read_file name w) w

  unfoldable pub iwd_profile : Text → Action W Profile
  iwd_profile id w = profile_at (find_profile_file id w) w

  -- The end of `AddProfile` and `PatchProfile`.
  abbrev pub save : (ssid type content : Text) → Action W Profile
  save ssid type content = do
    _ ← write_profile (profile_filename ssid type) content
    return (parse_profile net derive_id ssid type content)

  unfoldable pub iwd_add_profile : ProfileSpec → Action W Profile
  iwd_add_profile spec =
      if spec.ssid == []
      then fail err_other
      else if spec.security.kind == sec_enterprise
      then fail err_unsupported
      else save spec.ssid (sec_kind_to_type spec.security.kind) (
          render_profile net spec.security.kind spec.security.passphrase spec.autoconnect
            spec.hidden spec.ipv4 spec.ipv6)

  -- The passphrase that a file holds.
  abbrev pub passphrase_in : Text → Text
  passphrase_in content = lookup_text (parse_ini content) (text "Security") (text "Passphrase")

  -- `_ = os.Remove(...)`, when the file gets another name.
  abbrev pub drop_old : (new_name name : Text) → W → W
  drop_old new_name name w = if new_name != name then (files.remove name w).1 else w

  -- The end of `PatchProfile`, with the profile as it is and the security it will have.
  abbrev pub repatch : (name : Text) → ProfilePatch → (cur : Profile) → Security → Action W Profile
  repatch name patch cur security w =
      let ssid = or_kept cur.ssid patch.ssid in
      let type = sec_kind_to_type security.kind in
      if security.kind == sec_enterprise
      then (err err_unsupported, w)
      else save ssid type
          (render_profile net security.kind security.passphrase
            (or_kept cur.autoconnect patch.autoconnect) (or_kept cur.hidden patch.hidden)
            (some (or_kept cur.ipv4 patch.ipv4)) (some (or_kept cur.ipv6 patch.ipv6)))
          (drop_old (profile_filename ssid type) name w)

  abbrev pub patch_content : (name ssid type : Text) → ProfilePatch → Option Text → Action W Profile
  patch_content name ssid type patch none = fail err_other
  patch_content name ssid type patch (some content) =
      let cur = parse_profile net derive_id ssid type content in
      repatch name patch cur
        (patched_security cur.security.kind (passphrase_in content) patch.security)

  abbrev pub patch_at : ProfilePatch → Option (Text × Text × Text) → Action W Profile
  patch_at patch none w = (err err_not_found, w)
  patch_at patch (some (name, ssid, type)) w =
      patch_content name ssid type patch (files.read_file name w) w

  unfoldable pub iwd_patch_profile : Text → ProfilePatch → Action W Profile
  iwd_patch_profile id patch w = patch_at patch (find_profile_file id w) w

  abbrev pub delete_at : Option (Text × Text × Text) → Action W (Unit {0})
  delete_at none w = (err err_not_found, w)
  delete_at (some (name, ssid, type)) w = done (files.remove name w)

  unfoldable pub iwd_delete_profile : Text → Action W (Unit {0})
  iwd_delete_profile id w = delete_at (find_profile_file id w) w
