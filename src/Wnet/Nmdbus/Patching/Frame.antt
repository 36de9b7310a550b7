-- ===== src/Wnet/Nmdbus/Patching/Frame.antt =====
-- The settings that a patch of internal/wnet/nmdbus/nmdbus.go leaves as they are.
use wfm.Prelude.{
  Bool, true, false, ◌&&◌, ◌||◌, List, [], ◌∷◌, Option, none, some, ◌≡◌, ◌∙◌, refl, sym, ap, arith,
  Text, text, text_eq, ◌==◌, if◌then◌else◌, Bool-cases, inl, inr,
}
use wfm.Wnet.Types.{
  SecurityKind, sec_open, sec_psk, sec_enterprise, Security, IpConfig, ProfilePatch,
}
use wfm.Wnet.Nmdbus.Convert.{AddressLib}
use wfm.Wnet.Nmdbus.Variants.{Variant, Group, NmSettings, lookup, in_group, s_get}
use wfm.Wnet.Nmdbus.Patching.{
  put, delete, or_empty, ensure_put, put_if, security_group, with_secrets, put_security,
  patch_security, without_timestamp, put_family, patch_first, patch_settings,
}

lookup-put :
    {A : Type 0} (key : Text) (v : A) (m : List (Text × A)) (k : Text)
    → lookup k (put key v m) ≡ (if key == k then some v else lookup k m)
unfolding put
lookup-put key v [] k = refl
lookup-put key v ((x, a) ∷ m) k = ground (arith, lookup-put key v m k)

lookup-delete :
    {A : Type 0} (key : Text) (m : List (Text × A)) (k : Text)
    → (key == k) ≡ false
    → lookup k (delete key m) ≡ lookup k m
unfolding delete
lookup-delete key [] k ne = refl
lookup-delete key ((x, a) ∷ m) k ne = ground (arith, ne, lookup-delete key m k ne)

abbrev pub is_set : {A : Type 0} → Option A → Bool
is_set none = false
is_set (some a) = true

-- Whether a patch may change the value of a key of a group.
abbrev pub touches : ProfilePatch → (group key : Text) → Bool
touches patch group key =
    (is_set patch.name && (text "connection" == group && text "id" == key))
    || (is_set patch.ssid && (text "802-11-wireless" == group && text "ssid" == key))
    || (is_set patch.hidden && (text "802-11-wireless" == group && text "hidden" == key))
    || (is_set patch.autoconnect && (text "connection" == group && text "autoconnect" == key))
    || security_group == group
    || (is_set patch.ipv4 && text "ipv4" == group)
    || (is_set patch.ipv6 && text "ipv6" == group)
    || (text "connection" == group && text "timestamp" == key)

lookup-or_empty : (o : Option Group) (key : Text) → lookup key (or_empty o) ≡ in_group o key
lookup-or_empty none key = refl
lookup-or_empty (some g) key = refl

-- One key, and the group and key that are asked for.
module _ (g k : Text) where
  put_other :
      (group : Text) (x : Group) (s : NmSettings)
      → (group == g) ≡ false
      → s_get (put group x s) g k ≡ s_get s g k
  unfolding s_get
  put_other group x s ne = ap (λ o. in_group o k) (lookup-put group x s g ∙ rw ne refl)

  -- A group put in the place of one that has the same value of the key.
  put_same :
      (group : Text) (x : Group) (s : NmSettings)
      → (group ≡ g → lookup k x ≡ in_group (lookup group s) k)
      → s_get (put group x s) g k ≡ s_get s g k
  unfolding s_get
  put_same group x s h = elim (Bool-cases (group == g)) [
    | inr ne ↦ ap (λ o. in_group o k) (lookup-put group x s g ∙ rw ne refl)
    | inl here ↦
        let same : group ≡ g = ground (arith, here) in
        let there : lookup g (put group x s) ≡ some x = lookup-put group x s g ∙ rw here refl in
        ap (λ o. in_group o k) there ∙ h same ∙ ap (λ y. in_group (lookup y s) k) same
  ]

  key_other : (group key : Text) → (group == g && key == k) ≡ false → group ≡ g → (key == k) ≡ false
  key_other group key h e = ground (arith, h, e)

  ensure_put_other :
      (group key : Text) (v : Variant) (s : NmSettings)
      → (group == g && key == k) ≡ false
      → s_get (ensure_put group key v s) g k ≡ s_get s g k
  unfolding ensure_put
  ensure_put_other group key v s h = put_same group (put key v (or_empty (lookup group s))) s (λ e.
      let ne = key_other group key h e in
      lookup-put key v (or_empty (lookup group s)) k ∙ rw ne (lookup-or_empty (lookup group s) k))

  put_if_other :
      {A : Type 0} (group key : Text) (variant : A → Variant) (o : Option A) (s : NmSettings)
      → (is_set o && (group == g && key == k)) ≡ false
      → s_get (put_if group key variant o s) g k ≡ s_get s g k
  put_if_other group key variant none s h = refl
  put_if_other group key variant (some a) s h = ensure_put_other group key (variant a) s h

  delete_other :
      (group : Text) (s : NmSettings)
      → (group == g) ≡ false
      → s_get (delete group s) g k ≡ s_get s g k
  unfolding s_get
  delete_other group s ne = ap (λ o. in_group o k) (lookup-delete group s g ne)

  security_other :
      (o : Option Security) (secrets : Group) (s : NmSettings)
      → (security_group == g) ≡ false
      → s_get (patch_security o secrets s) g k ≡ s_get s g k
  security_other none secrets s ne = restored (lookup security_group s)
    where
      restored : (o : Option Group) → s_get (with_secrets secrets o s) g k ≡ s_get s g k
      restored none = refl
      restored (some x) = put_other security_group _ s ne
  security_other (some sec) secrets s ne = kind_other sec.kind
    where
      kind_other :
          (kind : SecurityKind) → s_get (put_security kind sec.passphrase s) g k ≡ s_get s g k
      kind_other sec_psk =
          ensure_put_other security_group (text "psk") _ _ (ground (arith, ne))
          ∙ ensure_put_other security_group (text "key-mgmt") _ s (ground (arith, ne))
      kind_other sec_open = delete_other security_group s ne
      kind_other sec_enterprise = refl

  timestamp_other :
      (o : Option Group) (s : NmSettings)
      → lookup (text "connection") s ≡ o
      → (text "connection" == g && text "timestamp" == k) ≡ false
      → s_get (without_timestamp o s) g k ≡ s_get s g k
  timestamp_other none s e h = refl
  timestamp_other (some x) s e h =
      put_same (text "connection") (delete (text "timestamp") x) s (λ here.
        lookup-delete (text "timestamp") x k
          (key_other (text "connection") (text "timestamp") h here)
        ∙ ap (λ o. in_group o k) (sym e))

  module _ (net : AddressLib) where
    family_other :
        (group : Text) (o : Option IpConfig) (s : NmSettings)
        → (is_set o && group == g) ≡ false
        → s_get (put_family net group o s) g k ≡ s_get s g k
    family_other group none s h = refl
    family_other group (some cfg) s h = put_other group _ s h

-- A patch leaves the value of every key that it does not touch, outside the group of the security
-- and but for the time stamp of the connection, as it was.
pub s_get-patch_settings :
    (net : AddressLib) (patch : ProfilePatch) (secrets : Group) (s : NmSettings) (group key : Text)
    → touches patch group key ≡ false
    → s_get (patch_settings net patch secrets s) group key ≡ s_get s group key
unfolding patch_settings patch_first
s_get-patch_settings net patch secrets s g k h =
    timestamp_other g k _ _ refl (ground (arith, h))
    ∙ family_other g k net (text "ipv6") patch.ipv6 _ (ground (arith, h))
    ∙ family_other g k net (text "ipv4") patch.ipv4 _ (ground (arith, h))
    ∙ security_other g k patch.security secrets _ (ground (arith, h))
    ∙ put_if_other g k (text "connection") (text "autoconnect") _ patch.autoconnect _
        (ground (arith, h))
    ∙ put_if_other g k (text "802-11-wireless") (text "hidden") _ patch.hidden _ (ground (arith, h))
    ∙ put_if_other g k (text "802-11-wireless") (text "ssid") _ patch.ssid _ (ground (arith, h))
    ∙ put_if_other g k (text "connection") (text "id") _ patch.name s (ground (arith, h))
