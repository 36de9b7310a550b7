-- ===== src/Server/Codes.antt =====
-- Which gRPC status each handler of internal/server answers with.
use wfm.Prelude.{
  Bool, List, [], ◌≡◌, ◌≢◌, ◌↔◌, ◌⊎◌, arith, Text, text_eq, ◌==◌, if◌then◌else◌, length,
}
use wfm.Wnet.Types.{Active, Error, err_not_found, err_unsupported, err_other}
use wfm.Wnet.Backend.{Result, ok, err, Action, Backend}
use wfm.Server.Messages.{ProfileAddRequest, ProfilePatchRequest, ConnectionAddRequest}
use wfm.Server.Convert.{
  Code, invalid_argument, not_found, unimplemented, internal, Reply, status, UuidLib, IsUuidLib,
  uuid_from_bytes, err_to_status, err_to_status_list, pb_interface, pb_profile, pb_status,
}
use wfm.Server.Interfaces.{Rpc, respond, interface_list, interface_get, interface_set_power}
use wfm.Server.Profiles.{
  profile_list, profile_get, profile_add, profile_patch_rpc, profile_erase, profile_spec,
  profile_patch,
}
use wfm.Server.Connections.{
  wanted_bssid, respond_connection, respond_connections, connection_add, connection_get,
  connection_list, connection_erase, connection_get_status,
}

-- The call is refused as a bad request exactly when `Bad`, and that leaves the world as it is.
abbrev pub RejectsIf : {W A : Type 0} → Type 0 → Rpc W A → W → Type 0
RejectsIf Bad call w =
    ((call w).0 ≡ status invalid_argument ↔ Bad) × (call w ≡ (status invalid_argument, w) ↔ Bad)

-- A reference that is not the 16 bytes of a UUID.
abbrev pub IsBadRef : Text → Type 0
IsBadRef ref = length ref ≢ 16

err_to_status-ne : (e : Error) → err_to_status e ≢ invalid_argument
unfolding err_to_status
err_to_status-ne err_not_found = cc
err_to_status-ne err_unsupported = cc
err_to_status-ne err_other = cc

status-ne :
    {A : Type 0} (e : Error)
    → ◌≢◌ {A = Reply A} (status (err_to_status e)) (status invalid_argument)
unfolding err_to_status
status-ne err_not_found = cc
status-ne err_unsupported = cc
status-ne err_other = cc

respond-ne :
    {W A B : Type 0} (f : A → B) (r : Result A × W)
    → (respond err_to_status f r).0 ≢ status invalid_argument
respond-ne f (ok a, w) = cc
respond-ne f (err e, w) = status-ne e

rejects_empty :
    {W A B : Type 0} (id : Text) (f : A → B) (op : Action W A) (w : W)
    → RejectsIf
        (id ≡ [])
        (λ w. if id == [] then (status invalid_argument, w) else respond err_to_status f (op w))
        w
rejects_empty id f op w = ground (arith, respond-ne f (op w))

-- The three kinds of errors are told apart by the status, and only an error gives a status.
abbrev pub Relays : {A B : Type 0} → Reply A → Result B → Type 0
Relays x r =
    (x ≡ status not_found ↔ r ≡ err err_not_found)
    × (x ≡ status unimplemented ↔ r ≡ err err_unsupported)
    × (x ≡ status internal ↔ r ≡ err err_other)

respond-Relays :
    {W A B : Type 0} (f : A → B) (r : Result A × W) → Relays (respond err_to_status f r).0 r.0
unfolding err_to_status
respond-Relays f (ok a, w) = ground arith
respond-Relays f (err err_not_found, w) = ground arith
respond-Relays f (err err_unsupported, w) = ground arith
respond-Relays f (err err_other, w) = ground arith

respond_list-codes :
    {W A B : Type 0} (f : A → B) (r : Result A × W) (c : Code)
    → (respond err_to_status_list f r).0 ≡ status c
    → c ≡ internal
unfolding err_to_status_list
respond_list-codes f (ok a, w) c e = cc
respond_list-codes f (err x, w) c e = cc

guarded-Relays :
    {W A B : Type 0} (id : Text) (w : W) (x : Reply A × W) (r : Result B)
    → id ≢ []
    → Relays x.0 r
    → Relays (if id == [] then (status invalid_argument, w) else x).0 r
guarded-Relays id w x r n h = ground arith

respond_good :
    {W A B : Type 0} (id : Text) (w : W) (f : A → B) (r : Result A × W)
    → id ≢ []
    → Relays (if id == [] then (status invalid_argument, w) else respond err_to_status f r).0 r.0
respond_good id w f r n = guarded-Relays id w (respond err_to_status f r) r.0 n (respond-Relays f r)

module _ (u : UuidLib) (law : IsUuidLib u) where
  ref_iff : (ref : Text) → (uuid_from_bytes u ref ≡ []) ↔ IsBadRef ref
  unfolding uuid_from_bytes
  ref_iff ref = (
    λ e n. law.string-ne-nil ref (rw (law.from_bytes_16 ref n, uuid_from_bytes) at e),
    λ n. rw (law.from_bytes_other ref n, uuid_from_bytes),
  )

  respond_connection-ne :
      {W : Type 0} (b : Backend W) (r : Result Active × W)
      → (respond_connection u b r).0 ≢ status invalid_argument
  respond_connection-ne b (ok a, w) = cc
  respond_connection-ne b (err e, w) = status-ne e

  rejects_ref :
      {W A B : Type 0} (ref : Text) (f : A → B) (op : Action W A) (w : W)
      → RejectsIf
          (IsBadRef ref)
          (λ w.
            if uuid_from_bytes u ref == []
            then (status invalid_argument, w)
            else respond err_to_status f (op w))
          w
  rejects_ref ref f op w = ground (arith, ref_iff ref, respond-ne f (op w))

  connection_get-RejectsIf :
      {W : Type 0} (b : Backend W) (ref : Text) (w : W)
      → RejectsIf (IsBadRef ref) (connection_get u b ref) w
  unfolding connection_get
  connection_get-RejectsIf b ref w =
      let id = uuid_from_bytes u ref in
      ground (arith, ref_iff ref, respond_connection-ne b (b.connection id w))

  connection_add-RejectsIf :
      {W : Type 0} (b : Backend W) (conn : ConnectionAddRequest) (w : W)
      → RejectsIf ((conn.interface_id ≡ []) ⊎ IsBadRef conn.profile_id) (connection_add u b conn) w
  unfolding connection_add
  connection_add-RejectsIf b conn w =
      let prof = uuid_from_bytes u conn.profile_id in
      ground (
        arith,
        ref_iff conn.profile_id,
        respond_connection-ne b
            (b.activate conn.interface_id prof (wanted_bssid conn.access_point_id) w),
      )

  module _ {W : Type 0} (b : Backend W) where
    -- Each handler that names one resource answers `InvalidArgument` exactly when the name is
    -- missing: an empty interface name or SSID, or a reference that is not 16 bytes. The backend
    -- is not called then. (`Watch` may also pass on the status of the client's stream.)
    pub handlers-RejectsIf :
        (name ref : Text) (on : Bool) (add : ProfileAddRequest) (patch : ProfilePatchRequest)
        (conn : ConnectionAddRequest) (w : W)
        → RejectsIf (name ≡ []) (interface_get b name) w
          × RejectsIf (name ≡ []) (interface_set_power b name on) w
          × RejectsIf (IsBadRef ref) (profile_get u b ref) w
          × RejectsIf (add.ssid ≡ []) (profile_add u b add) w
          × RejectsIf (IsBadRef patch.ref) (profile_patch_rpc u b patch) w
          × RejectsIf (IsBadRef ref) (profile_erase u b ref) w
          × RejectsIf
              ((conn.interface_id ≡ []) ⊎ IsBadRef conn.profile_id)
              (connection_add u b conn)
              w
          × RejectsIf (IsBadRef ref) (connection_get u b ref) w
          × RejectsIf (IsBadRef ref) (connection_erase u b ref) w
          × RejectsIf (IsBadRef ref) (connection_get_status u b ref) w
    unfolding interface_get interface_set_power profile_get profile_add profile_patch_rpc
        profile_erase connection_add connection_get connection_erase connection_get_status
    handlers-RejectsIf name ref on add patch conn w =
        let id = uuid_from_bytes u ref in
        let patch_id = uuid_from_bytes u patch.ref in
        (
          rejects_empty name pb_interface (b.interface name) w,
          rejects_empty name pb_interface (b.set_power name on) w,
          rejects_ref ref (pb_profile u) (b.profile id) w,
          rejects_empty add.ssid (pb_profile u) (b.add_profile (profile_spec add)) w,
          rejects_ref patch.ref (pb_profile u) (b.patch_profile patch_id (profile_patch patch)) w,
          rejects_ref ref (λ done. tt) (b.delete_profile id) w,
          connection_add-RejectsIf b conn w,
          connection_get-RejectsIf b ref w,
          rejects_ref ref (λ done. tt) (b.deactivate id) w,
          rejects_ref ref pb_status (b.status id) w,
        )

    respond_connection-Relays : (r : Result Active × W) → Relays (respond_connection u b r).0 r.0
    unfolding err_to_status
    respond_connection-Relays (ok a, w) = ground arith
    respond_connection-Relays (err err_not_found, w) = ground arith
    respond_connection-Relays (err err_unsupported, w) = ground arith
    respond_connection-Relays (err err_other, w) = ground arith

    good_ref : (ref : Text) → length ref ≡ 16 → uuid_from_bytes u ref ≢ []
    good_ref ref h e = (ref_iff ref).0 e h

    -- On a request that names its resource, `NotFound` is answered exactly when the backend says
    -- that it does not exist, `Unimplemented` exactly when the backend does not support the call,
    -- and `Internal` exactly on any other error.
    pub handlers-Relays :
        (name ref : Text) (on : Bool) (add : ProfileAddRequest) (patch : ProfilePatchRequest)
        (w : W)
        → name ≢ []
        → length ref ≡ 16
        → add.ssid ≢ []
        → length patch.ref ≡ 16
        → let id = uuid_from_bytes u ref in
          let patch_id = uuid_from_bytes u patch.ref in
          Relays (interface_get b name w).0 (b.interface name w).0
          × Relays (interface_set_power b name on w).0 (b.set_power name on w).0
          × Relays (profile_get u b ref w).0 (b.profile id w).0
          × Relays (profile_add u b add w).0 (b.add_profile (profile_spec add) w).0
          × Relays
              (profile_patch_rpc u b patch w).0
              (b.patch_profile patch_id (profile_patch patch) w).0
          × Relays (profile_erase u b ref w).0 (b.delete_profile id w).0
          × Relays (connection_get u b ref w).0 (b.connection id w).0
          × Relays (connection_erase u b ref w).0 (b.deactivate id w).0
          × Relays (connection_get_status u b ref w).0 (b.status id w).0
    unfolding interface_get interface_set_power profile_get profile_add profile_patch_rpc
        profile_erase connection_get connection_erase connection_get_status
    handlers-Relays name ref on add patch w n r s p =
        let id = uuid_from_bytes u ref in
        let patch_id = uuid_from_bytes u patch.ref in
        let h : id ≢ [] = good_ref ref r in
        (
          respond_good name w pb_interface (b.interface name w) n,
          respond_good name w pb_interface (b.set_power name on w) n,
          respond_good id w (pb_profile u) (b.profile id w) h,
          respond_good add.ssid w (pb_profile u) (b.add_profile (profile_spec add) w) s,
          respond_good patch_id w (pb_profile u) (b.patch_profile patch_id (profile_patch patch) w)
              (good_ref patch.ref p),
          respond_good id w (λ done. tt) (b.delete_profile id w) h,
          guarded-Relays id w (respond_connection u b (b.connection id w)) (b.connection id w).0 h
              (respond_connection-Relays (b.connection id w)),
          respond_good id w (λ done. tt) (b.deactivate id w) h,
          respond_good id w pb_status (b.status id w) h,
        )

    respond_connections-codes :
        (filter : Text) (r : Result (List Active) × W) (c : Code)
        → (respond_connections u b filter r).0 ≡ status c
        → c ≡ internal
    unfolding err_to_status_list
    respond_connections-codes filter (ok a, w) c e = cc
    respond_connections-codes filter (err x, w) c e = cc

    -- A listing is never answered by `NotFound`, nor by any status but `Internal`.
    pub lists-Internal :
        (filter : Text) (w : W) (c : Code)
        → c ≢ internal
        → ((interface_list b w).0 ≢ status c)
          × ((profile_list u b w).0 ≢ status c)
          × ((connection_list u b filter w).0 ≢ status c)
    unfolding interface_list profile_list connection_list
    lists-Internal filter w c n = (
      λ e. n (respond_list-codes _ (b.interfaces w) c e),
      λ e. n (respond_list-codes _ (b.profiles w) c e),
      λ e. n (respond_connections-codes filter (b.connections w) c e),
    )
