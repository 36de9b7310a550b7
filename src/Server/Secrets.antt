-- ===== src/Server/Secrets.antt =====
-- The passphrase of a profile does not leave the server, and what a client reads back it can send.
use wfm.Prelude.{List, [], ◌∷◌, map, Option, some, ◌≡◌, refl, ap, ap₂, arith, Text, text_eq, length}
use wfm.Wnet.Types.{Security, IpConfig, Profile, Active, Error}
use wfm.Wnet.Backend.{Result, ok, err, Backend}
use wfm.Server.Messages.{
  PbProfile, Connection, ProfileAddRequest, ProfilePatchRequest, ConnectionAddRequest,
}
use wfm.Server.Convert.{
  Code, UuidLib, IsUuidLib, uuid_to_bytes, uuid_from_bytes, err_to_status, err_to_status_list,
  pb_ip_config, req_ip_config, pb_security, req_security, pb_profile, pb_interface,
}
use wfm.Server.Interfaces.{respond}
use wfm.Server.Profiles.{
  profile_list, profile_get, profile_add, profile_patch_rpc, profile_spec, profile_patch,
}
use wfm.Server.Connections.{
  connection_ap, found, wanted_bssid, pb_connection, respond_connection, connection_add,
  connection_get, pb_connections, respond_connections, connection_list,
}

abbrev pub without_passphrase : Security → Security
without_passphrase s = record { kind = s.kind; passphrase = [] }

abbrev pub redact : Profile → Profile
redact p = record p { security = without_passphrase p.security }

abbrev pub redacted : {W A : Type 0} → (A → A) → Result A × W → Result A × W
redacted f (ok a, w) = (ok (f a), w)
redacted f (err e, w) = (err e, w)

-- The backend with every passphrase erased from the profiles that it answers with.
abbrev pub redacting : {W : Type 0} → Backend W → Backend W
redacting b = record b {
  profiles = λ w. redacted (map redact) (b.profiles w);
  profile = λ id w. redacted redact (b.profile id w);
  add_profile = λ spec w. redacted redact (b.add_profile spec w);
  patch_profile = λ id patch w. redacted redact (b.patch_profile id patch w);
}

pb_profile-redact : (u : UuidLib) (p : Profile) → pb_profile u (redact p) ≡ pb_profile u p
unfolding pb_profile pb_security
pb_profile-redact u p = refl

map-redact :
    (u : UuidLib) (ps : List Profile) → map (pb_profile u) (map redact ps) ≡ map (pb_profile u) ps
map-redact u [] = refl
map-redact u (p ∷ ps) = ap₂ ◌∷◌ (pb_profile-redact u p) (map-redact u ps)

module _ {W : Type 0} (u : UuidLib) where
  respond-redacted :
      (to_status : Error → Code) (r : Result Profile × W)
      → respond to_status (pb_profile u) (redacted redact r) ≡ respond to_status (pb_profile u) r
  respond-redacted to_status (ok p, w) = rw (pb_profile-redact u p)
  respond-redacted to_status (err e, w) = refl

  respond_list-redacted :
      (r : Result (List Profile) × W)
      → respond err_to_status_list (map (pb_profile u)) (redacted (map redact) r)
        ≡ respond err_to_status_list (map (pb_profile u)) r
  respond_list-redacted (ok ps, w) = rw (map-redact u ps)
  respond_list-redacted (err e, w) = refl

  module _ (b : Backend W) where
    found-redacted :
        (r : Result Profile × W)
        → ◌≡◌ {A = Option PbProfile × W}
            (found (pb_profile u) (redacted redact r).0, (redacted redact r).1)
            (found (pb_profile u) r.0, r.1)
    found-redacted (ok p, w) = rw (pb_profile-redact u p)
    found-redacted (err e, w) = refl

    pb_connection-redacting :
        (a : Active) (w : W) → pb_connection u (redacting b) a w ≡ pb_connection u b a w
    unfolding pb_connection
    pb_connection-redacting a w =
        let (it, w1) = b.interface a.iface w in
        ap
          (λ (x : Option PbProfile × W).
            let c : Connection = record {
              id = uuid_to_bytes u a.id;
              interface = found pb_interface it;
              profile = x.0;
              access_point = connection_ap a;
            } in
            let y : Connection × W = (c, x.1) in y)
          (found-redacted (b.profile a.profile_id w1))

    respond_connection-redacting :
        (r : Result Active × W) → respond_connection u (redacting b) r ≡ respond_connection u b r
    respond_connection-redacting (ok a, w) = rw (pb_connection-redacting a w)
    respond_connection-redacting (err e, w) = refl

    pb_connections-redacting :
        (filter : Text) (actives : List Active) (w : W)
        → pb_connections u (redacting b) filter actives w ≡ pb_connections u b filter actives w
    unfolding pb_connections
    pb_connections-redacting filter [] w = refl
    pb_connections-redacting filter (a ∷ actives) w =
        let (c, w1) = pb_connection u b a w in
        rw (pb_connection-redacting a w) (
          ground (
            arith,
            pb_connections-redacting filter actives w,
            pb_connections-redacting filter actives w1,
          ))

    respond_connections-redacting :
        (filter : Text) (r : Result (List Active) × W)
        → respond_connections u (redacting b) filter r ≡ respond_connections u b filter r
    respond_connections-redacting filter (ok actives, w) =
        rw (pb_connections-redacting filter actives w)
    respond_connections-redacting filter (err e, w) = refl

    -- No answer depends on a stored passphrase: every handler that answers with profiles gives the
    -- same reply and leaves the same world over the backend with all passphrases erased.
    pub handlers-redacting :
        (ref filter : Text) (add : ProfileAddRequest) (patch : ProfilePatchRequest)
        (conn : ConnectionAddRequest) (w : W)
        → (profile_list u (redacting b) w ≡ profile_list u b w)
          × (profile_get u (redacting b) ref w ≡ profile_get u b ref w)
          × (profile_add u (redacting b) add w ≡ profile_add u b add w)
          × (profile_patch_rpc u (redacting b) patch w ≡ profile_patch_rpc u b patch w)
          × (connection_add u (redacting b) conn w ≡ connection_add u b conn w)
          × (connection_get u (redacting b) ref w ≡ connection_get u b ref w)
          × (connection_list u (redacting b) filter w ≡ connection_list u b filter w)
    unfolding profile_list profile_get profile_add profile_patch_rpc connection_add connection_get
        connection_list
    handlers-redacting ref filter add patch conn w =
        let id = uuid_from_bytes u ref in
        let prof = uuid_from_bytes u conn.profile_id in
        (
          respond_list-redacted (b.profiles w),
          rw (respond-redacted err_to_status (b.profile id w)),
          rw (respond-redacted err_to_status (b.add_profile (profile_spec add) w)),
          rw (
              respond-redacted err_to_status
                (b.patch_profile (uuid_from_bytes u patch.ref) (profile_patch patch) w)),
          rw (
              respond_connection-redacting
                (b.activate conn.interface_id prof (wanted_bssid conn.access_point_id) w)),
          rw (respond_connection-redacting (b.connection id w)),
          respond_connections-redacting filter (b.connections w),
        )

-- What a client reads of a profile's settings and sends back is what the profile holds, but for
-- the passphrase; and a reference of 16 bytes comes back from its textual form.
pub settings_round_trip :
    (u : UuidLib)
    → IsUuidLib u
    → (c : IpConfig) (s : Security) (ref : Text) → length ref ≡ 16
    → (req_ip_config (some (pb_ip_config c)) ≡ some c)
      × (req_security (some (pb_security s)) ≡ without_passphrase s)
      × (uuid_to_bytes u (uuid_from_bytes u ref) ≡ ref)
unfolding req_ip_config pb_ip_config req_security pb_security uuid_to_bytes uuid_from_bytes
settings_round_trip u law c s ref h = (
  ground arith,
  ground arith,
  rw (law.from_bytes_16 ref h, uuid_from_bytes) (rw (law.parse-string ref h, uuid_to_bytes)),
)
