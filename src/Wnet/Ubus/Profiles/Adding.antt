-- ===== src/Wnet/Ubus/Profiles/Adding.antt =====
-- The changes that `AddProfile` of internal/wnet/ubus/profile.go makes.
use wfm.Prelude.{[], ◌≡◌, ◌≢◌, ◌⊎◌, text_eq}
use wfm.Wnet.Types.{sec_enterprise, ProfileSpec, Profile}
use wfm.Wnet.Ubus.Convert.Wireless.{WifiIface}
use wfm.Wnet.Ubus.Wireless.{Wireless}
use wfm.Wnet.Ubus.Changes.{Makes, IsChosen}
use wfm.Wnet.Ubus.Profiles.{Config, profile_id}
use wfm.Wnet.Ubus.Profiles.Written.{key_of, IsAdded, IsRewritten}

module _ {S : Type 0} (cfg : Config) (r : Wireless S) where
  -- The options of the specification in the section of a station that has its identifier already,
  -- or in a new one.
  abbrev pub IsSaved : ProfileSpec → S → S → Type 0
  IsSaved spec s t =
      let kind = spec.security.kind in
      let passphrase = spec.security.passphrase in
      ((cur : WifiIface) × (u : S) × IsChosen cfg r (profile_id cfg spec.ssid kind) s cur u
        × IsRewritten cfg r cur spec.ssid kind spec.autoconnect (key_of kind passphrase cur.key) u
            t)
      ⊎ IsAdded cfg r spec.ssid kind spec.autoconnect (key_of kind passphrase []) [] s t

  abbrev pub IsWritten : ProfileSpec → Profile → S → S → Type 0
  IsWritten spec p s t =
      (p.id ≡ profile_id cfg spec.ssid spec.security.kind)
      × (spec.security.kind ≢ sec_enterprise)
      × (spec.ssid ≢ [])
      × ((u : S) × IsSaved spec s u × Makes r [] u t)
