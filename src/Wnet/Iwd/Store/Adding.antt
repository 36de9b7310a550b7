-- ===== src/Wnet/Iwd/Store/Adding.antt =====
-- A profile added by internal/wnet/iwd/iwd.go is there.
use wfm.Prelude.{
  ◌<◌, Bool, true, false, List, [], ◌∷◌, Option, none, some, ◌≡◌, ◌≢◌, ◌∙◌, ◌⊎◌, inl, inr, refl,
  sym, ap, arith, Text, text_eq, nat_eq, ◌==◌, All, Any, Bool-cases,
}
use wfm.Wnet.Types.{ProfileSpec, Profile, security_kind_eq}
use wfm.Wnet.Backend.{ok, after, return}
use wfm.Wnet.Iwd.Convert.{sec_kind_to_type}
use wfm.Wnet.Iwd.Names.{profile_filename, parse_profile_filename}
use wfm.Wnet.Iwd.Names.RoundTrip.{parse_profile_filename-profile_filename}
use wfm.Wnet.Iwd.Profile.{NetLib, render_profile, parse_profile}
use wfm.Wnet.Iwd.Store.{
  Files, listed, match_entry, find_entry_of, write_profile, find_profile_file, read_profile,
  profile_at, iwd_profile, save, done, iwd_add_profile,
}

-- A file that was written is listed and read as it was written.
pub record IsFiles {W : Type 0} (files : Files W) : Type 0 where
  pub read_back :
      (name content : Text) (w w1 : W)
      → files.write_file name content w ≡ (true, w1)
      → files.read_file name w1 ≡ some content
  pub is_listed :
      (name content : Text) (w w1 : W)
      → files.write_file name content w ≡ (true, w1)
      → Any (λ e. e ≡ (name, false)) (listed (files.read_dir w1))

-- The name of a profile's file is the one that this code gives.
abbrev pub IsCanonical : Text × Bool → Type 0
IsCanonical (name, dir) =
    (ssid type : Text)
    → parse_profile_filename name ≡ some (ssid, type)
    → name ≡ profile_filename ssid type

-- The file of another network has another identifier than the network's own.
abbrev pub IsApart : (Text → Text → Text) → (ssid type : Text) → Text × Bool → Type 0
IsApart derive_id ssid type (name, dir) =
    (ssid2 type2 : Text)
    → parse_profile_filename name ≡ some (ssid2, type2)
    → derive_id ssid2 type2 ≡ derive_id ssid type
    → (ssid2 ≡ ssid) × (type2 ≡ type)

module _ (derive_id : Text → Text → Text) (ssid type : Text) where
  abbrev the_file : Text × Text × Text
  the_file = (profile_filename ssid type, ssid, type)

  -- An entry is the profile's file or is not matched.
  match_entry-cases :
      (name : Text) (p : Option (Text × Text))
      → parse_profile_filename name ≡ p
      → IsCanonical (name, false)
      → IsApart derive_id ssid type (name, false)
      → (match_entry derive_id (derive_id ssid type) name p ≡ some the_file)
        ⊎ (match_entry derive_id (derive_id ssid type) name p ≡ none)
  match_entry-cases name none e canonical apart = inr refl
  match_entry-cases name (some (s, t)) e canonical apart =
      elim (Bool-cases (derive_id s t == derive_id ssid type)) [
        | inl same ↦
            let (es, et) = apart s t e (ground (arith, same)) in
            inl (rw same (ground (arith, canonical s t e, es, et)))
        | inr other ↦ inr (rw other refl)
      ]

  match_entry_same :
      (name : Text)
      → parse_profile_filename name ≡ some (ssid, type)
      → match_entry derive_id (derive_id ssid type) name (parse_profile_filename name) ≢ none
  match_entry_same name e h = absurd (ground (arith, e, h))

  find_listed :
      (es : List (Text × Bool))
      → parse_profile_filename (profile_filename ssid type) ≡ some (ssid, type)
      → All IsCanonical es
      → All (IsApart derive_id ssid type) es
      → Any (λ e. e ≡ (profile_filename ssid type, false)) es
      → find_entry_of derive_id (derive_id ssid type) es ≡ some the_file
  unfolding find_entry_of
  find_listed [] parsed h a here = absurd here
  find_listed ((name, true) ∷ es) parsed (c, h) (a, others) (inl e) = absurd (ground (arith, e))
  find_listed ((name, true) ∷ es) parsed (c, h) (a, others) (inr there) =
      find_listed es parsed h others there
  find_listed ((name, false) ∷ es) parsed (c, h) (a, others) here =
      elim (match_entry-cases name (parse_profile_filename name) refl c a) [
        | inl found ↦ rw found refl
        | inr passed ↦ rw passed (
            find_listed es parsed h others (elim here [
              | inl e ↦ absurd (
                  match_entry_same name (ap parse_profile_filename (ap (λ x. x.0) e) ∙ parsed)
                    passed)
              | inr there ↦ there
            ]))
      ]

-- What a successful call of the file system did.
done_ok :
    {W : Type 0} (d : Bool × W) (q p : Profile) (w1 : W)
    → after (λ _. return q) (done d) ≡ (ok p, w1)
    → (p ≡ q) × (d ≡ (true, w1))
done_ok (true, w) q p w1 e = ground (arith, e)
done_ok (false, w) q p w1 e = absurd (ground (arith, e))

module _ {W : Type 0} (net : NetLib) (derive_id : Text → Text → Text) (files : Files W) where
  -- The write that a successful save ends with.
  save_ok :
      (ssid type content : Text) (w w1 : W) (p : Profile)
      → save net derive_id files ssid type content w ≡ (ok p, w1)
      → (p ≡ parse_profile net derive_id ssid type content)
        × ((w0 : W) × (files.write_file (profile_filename ssid type) content w0 ≡ (true, w1)))
  unfolding write_profile
  save_ok ssid type content w w1 p e = made (files.make_store w) e
    where
      made :
          (d : Bool × W)
          → after
              (λ _. return (parse_profile net derive_id ssid type content))
              (after
                (λ _ w. done (files.write_file (profile_filename ssid type) content w))
                (done d))
            ≡ (ok p, w1)
          → (p ≡ parse_profile net derive_id ssid type content)
            × ((w0 : W) × (files.write_file (profile_filename ssid type) content w0 ≡ (true, w1)))
      made (true, w0) e =
          let (same, wrote) =
            done_ok (files.write_file (profile_filename ssid type) content w0) _ p w1 e in
          (same, (w0, wrote))
      made (false, w0) e = absurd (ground (arith, e))

  add_ok :
      (spec : ProfileSpec) (w w1 : W) (p : Profile)
      → iwd_add_profile net derive_id files spec w ≡ (ok p, w1)
      → save net derive_id files spec.ssid
          (sec_kind_to_type spec.security.kind)
          (render_profile net spec.security.kind spec.security.passphrase spec.autoconnect
            spec.hidden spec.ipv4 spec.ipv6)
          w
        ≡ (ok p, w1)
  unfolding iwd_add_profile
  add_ok spec w w1 p e = ground (arith, e)

  -- A profile that was added is found by its identifier, with the settings that were answered:
  -- over files that are listed and read as they were written and all have the names that the code
  -- gives, none of which belongs to another network with the same identifier.
  pub iwd_profile-iwd_add_profile :
      IsFiles files
      → (spec : ProfileSpec) (w w1 : W) (p : Profile) → All (λ c. c < 256) spec.ssid
      → All IsCanonical (listed (files.read_dir w1))
      → All
          (IsApart derive_id spec.ssid (sec_kind_to_type spec.security.kind))
          (listed (files.read_dir w1))
      → iwd_add_profile net derive_id files spec w ≡ (ok p, w1)
      → iwd_profile net derive_id files
          (derive_id spec.ssid (sec_kind_to_type spec.security.kind))
          w1
        ≡ (ok p, w1)
  unfolding iwd_profile find_profile_file
  iwd_profile-iwd_add_profile store spec w w1 p bytes canonical apart e =
      let type = sec_kind_to_type spec.security.kind in
      let content =
        render_profile net spec.security.kind spec.security.passphrase spec.autoconnect spec.hidden
          spec.ipv4 spec.ipv6 in
      let (same, (w0, wrote)) = save_ok spec.ssid type content w w1 p (add_ok spec w w1 p e) in
      let name = profile_filename spec.ssid type in
      ap (λ f. profile_at net derive_id files f w1)
        (find_listed derive_id spec.ssid type (listed (files.read_dir w1))
          (parse_profile_filename-profile_filename spec.ssid spec.security.kind bytes).0 canonical
          apart (store.is_listed name content w0 w1 wrote))
      ∙ ap (λ c. read_profile net derive_id files spec.ssid type c w1)
          (store.read_back name content w0 w1 wrote)
      ∙ ap (λ x. (ok x, w1)) (sym same)
