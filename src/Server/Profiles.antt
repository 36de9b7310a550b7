-- ===== src/Server/Profiles.antt =====
-- internal/server/profile.go: the handlers.
use wfm.Prelude.{List, [], map, Option, none, some, Text, text_eq, ◌==◌, if◌then◌else◌}
use wfm.Wnet.Types.{Security, ProfileSpec, ProfilePatch}
use wfm.Wnet.Backend.{Backend}
use wfm.Server.Messages.{PbSecurity, PbProfile, ProfileAddRequest, ProfilePatchRequest}
use wfm.Server.Convert.{
  invalid_argument, status, UuidLib, uuid_from_bytes, err_to_status, err_to_status_list, pb_profile,
  req_security, req_ip_config,
}
use wfm.Server.Interfaces.{Rpc, respond}

unfoldable pub profile_spec : ProfileAddRequest → ProfileSpec
profile_spec req = record {
  name = req.name;
  ssid = req.ssid;
  hidden = req.hidden;
  autoconnect = req.autoconnect;
  security = req_security req.security;
  ipv4 = req_ip_config req.ipv4;
  ipv6 = req_ip_config req.ipv6;
}

-- `patch.Security` is set exactly if the request has the field.
abbrev patch_security : Option PbSecurity → Option Security
patch_security none = none
patch_security (some s) = some (req_security (some s))

unfoldable pub profile_patch : ProfilePatchRequest → ProfilePatch
profile_patch req = record {
  name = req.name;
  ssid = req.ssid;
  hidden = req.hidden;
  autoconnect = req.autoconnect;
  security = patch_security req.security;
  ipv4 = req_ip_config req.ipv4;
  ipv6 = req_ip_config req.ipv6;
}

module _ {W : Type 0} (u : UuidLib) (b : Backend W) where
  unfoldable pub profile_list : Rpc W (List PbProfile)
  profile_list w = respond err_to_status_list (map (pb_profile u)) (b.profiles w)

  unfoldable pub profile_get : Text → Rpc W PbProfile
  profile_get ref w =
      let id = uuid_from_bytes u ref in
      if id == []
      then (status invalid_argument, w)
      else respond err_to_status (pb_profile u) (b.profile id w)

  unfoldable pub profile_add : ProfileAddRequest → Rpc W PbProfile
  profile_add req w =
      if req.ssid == []
      then (status invalid_argument, w)
      else respond err_to_status (pb_profile u) (b.add_profile (profile_spec req) w)

  unfoldable pub profile_patch_rpc : ProfilePatchRequest → Rpc W PbProfile
  profile_patch_rpc req w =
      let id = uuid_from_bytes u req.ref in
      if id == []
      then (status invalid_argument, w)
      else respond err_to_status (pb_profile u) (b.patch_profile id (profile_patch req) w)

  unfoldable pub profile_erase : Text → Rpc W (Unit {0})
  profile_erase ref w =
      let id = uuid_from_bytes u ref in
      if id == []
      then (status invalid_argument, w)
      else respond err_to_status (λ done. tt) (b.delete_profile id w)
