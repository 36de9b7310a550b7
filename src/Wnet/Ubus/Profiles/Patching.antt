-- ===== src/Wnet/Ubus/Profiles/Patching.antt =====
-- The changes that `PatchProfile` of internal/wnet/ubus/profile.go makes, and their order.
use wfm.Prelude.{Bool, not, List, [], ◌∷◌, ◌≡◌, ◌≢◌, ◌⊎◌, Text}
use wfm.Wnet.Types.{SecurityKind, sec_enterprise, Security, ProfilePatch, Profile}
use wfm.Wnet.Ubus.Convert.{enc_str_to_sec_kind}
use wfm.Wnet.Ubus.Convert.Wireless.{WifiIface}
use wfm.Wnet.Ubus.Wireless.{Wireless}
use wfm.Wnet.Ubus.Changes.{Makes, IsChosen, Change, deletes, commits}
use wfm.Wnet.Ubus.Profiles.{Config, profile_id, or_kept}
use wfm.Wnet.Ubus.Profiles.Written.{key_of, IsAdded, IsRewritten}

abbrev pub kind_of : WifiIface → SecurityKind
kind_of w = enc_str_to_sec_kind w.encryption

-- The security of a station behind a patch.
abbrev pub patched_security : ProfilePatch → WifiIface → Security
patched_security patch cur = or_kept (record { kind = kind_of cur; passphrase = [] }) patch.security

module _ {S : Type 0} (cfg : Config) (r : Wireless S) where
  -- The change of a station: its options in its section, or, where its SSID or its kind of security
  -- becomes another one, in a new section, behind which the old one is deleted.
  abbrev pub IsMoved : WifiIface → (ssid : Text) → Security → (on : Bool) → S → S → Type 0
  IsMoved cur ssid sec on s t =
      ((ssid ≡ cur.ssid)
        × (sec.kind ≡ kind_of cur)
        × IsRewritten cfg r cur ssid sec.kind on (key_of sec.kind sec.passphrase cur.key) s t)
      ⊎ (((ssid ≢ cur.ssid) ⊎ (sec.kind ≢ kind_of cur))
          × IsAdded cfg r ssid sec.kind on (key_of sec.kind sec.passphrase cur.key)
              (deletes cur.section ∷ commits ∷ []) s t)

  abbrev pub IsRepatched : (id : Text) → ProfilePatch → Profile → S → S → Type 0
  IsRepatched id patch p s t =
      (cur : WifiIface) × (s1 s2 : S) × IsChosen cfg r id s cur s1
      × ((patched_security patch cur).kind ≢ sec_enterprise)
      × IsMoved cur (or_kept cur.ssid patch.ssid) (patched_security patch cur)
          (or_kept (not cur.disabled) patch.autoconnect) s1 s2
      × Makes r [] s2 t
      × (p.id ≡ profile_id cfg (or_kept cur.ssid patch.ssid) (patched_security patch cur).kind)

  -- What follows the new section.
  abbrev after_it : WifiIface → List Change
  after_it cur = deletes cur.section ∷ commits ∷ []
