-- ===== src/Server/Interfaces.antt =====
-- internal/server/interface.go
use wfm.Prelude.{Bool, List, [], map, Text, text_eq, ◌==◌, if◌then◌else◌}
use wfm.Wnet.Types.{Error}
use wfm.Wnet.Backend.{Result, ok, err, Backend}
use wfm.Server.Messages.{PbInterface}
use wfm.Server.Convert.{
  Code, invalid_argument, Reply, reply, status, err_to_status, err_to_status_list, pb_interface,
}

-- A handler, which changes the world through the backend.
abbrev pub Rpc : Type 0 → Type 0 → Type 0
Rpc W A = W → Reply A × W

-- `if err != nil { return nil, toStatus(err) }; return f(a), nil`, after a backend call.
abbrev pub respond : {W A B : Type 0} → (Error → Code) → (A → B) → Result A × W → Reply B × W
respond to_status f (ok a, w) = (reply (f a), w)
respond to_status f (err e, w) = (status (to_status e), w)

module _ {W : Type 0} (b : Backend W) where
  unfoldable pub interface_list : Rpc W (List PbInterface)
  interface_list w = respond err_to_status_list (map pb_interface) (b.interfaces w)

  unfoldable pub interface_get : Text → Rpc W PbInterface
  interface_get name w =
      if name == []
      then (status invalid_argument, w)
      else respond err_to_status pb_interface (b.interface name w)

  unfoldable pub interface_set_power : Text → Bool → Rpc W PbInterface
  interface_set_power name on w =
      if name == []
      then (status invalid_argument, w)
      else respond err_to_status pb_interface (b.set_power name on w)
