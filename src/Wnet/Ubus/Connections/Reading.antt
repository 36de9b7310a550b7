-- ===== src/Wnet/Ubus/Connections/Reading.antt =====
-- What reading leaves as it was, in internal/wnet/ubus/conn.go.
use wfm.Prelude.{◌||◌, [], Option, none, some, Text, text_eq, ◌==◌, Bool-cases, inl, inr}
use wfm.Wnet.Backend.{Result, ok, err, Action, after}
use wfm.Wnet.Ubus.Convert.{IwinfoInfo}
use wfm.Wnet.Ubus.Convert.Wireless.{WifiIface}
use wfm.Wnet.Ubus.Wireless.{Wireless}
use wfm.Wnet.Ubus.Profiles.{Config, sta_ifaces, find_by_id, station, found_or_fail}
use wfm.Wnet.Ubus.Connections.{
  Runtime, is_linked, runtime_of, runtime_by_id, linked_or_not_found, connection_of,
  connection_by_id, linked_answer, linked_now, poll_of, poll,
}

-- A relation of the state before to the one behind that the reads of the node respect.
pub record IsRead {S : Type 0} (r : Wireless S) (R : S → S → Type 0) : Type 0 where
  pub none_ : (s : S) → R s s
  pub then_ : (s t u : S) → R s t → R t u → R s u
  pub list : (s : S) → R s (r.wifi_ifaces s).1
  pub status : (s : S) → R s (r.wireless_status s).1
  pub info : (device : Text) (s : S) → R s (r.info device s).1

module _ {S : Type 0} (cfg : Config) (r : Wireless S) (R : S → S → Type 0) (read : IsRead r R) where
  pub after-Read :
      {A B : Type 0} (s : S) (f : A → Action S B) (x : Result A × S)
      → R s x.1
      → ((a : A) → (t : S) → R t (f a t).1)
      → R s (after f x).1
  after-Read s f (ok a, t) h g = read.then_ s t _ h (g a t)
  after-Read s f (err e, t) h g = h

  sta_ifaces-Read : (s : S) → R s (sta_ifaces cfg r s).1
  unfolding sta_ifaces
  sta_ifaces-Read s = after-Read s _ (r.wifi_ifaces s) (read.list s) (λ a t. read.none_ t)

  find_by_id-Read : (id : Text) (s : S) → R s (find_by_id cfg r id s).1
  unfolding find_by_id
  find_by_id-Read id s =
      after-Read s _ (sta_ifaces cfg r s) (sta_ifaces-Read s) (λ a t. read.none_ t)

  found_or_fail-Read : {A : Type 0} (o : Option A) (s : S) → R s (found_or_fail {S = S} o s).1
  found_or_fail-Read none s = read.none_ s
  found_or_fail-Read (some a) s = read.none_ s

  pub station-Read : (id : Text) (s : S) → R s (station cfg r id s).1
  unfolding station
  station-Read id s =
      after-Read s _ (find_by_id cfg r id s) (find_by_id-Read id s) (λ a t. found_or_fail-Read a t)

  runtime_of-Read : (o : Option WifiIface) (s : S) → R s (runtime_of cfg r o s).1
  runtime_of-Read none s = read.none_ s
  runtime_of-Read (some w) s =
      after-Read s _ (r.wireless_status s) (read.status s) (λ a t. read.none_ t)

  pub runtime_by_id-Read : (id : Text) (s : S) → R s (runtime_by_id cfg r id s).1
  unfolding runtime_by_id
  runtime_by_id-Read id s =
      after-Read s _ (find_by_id cfg r id s) (find_by_id-Read id s) runtime_of-Read

  linked_answer-Read :
      (w : WifiIface) (s : S) (x : Result IwinfoInfo × S)
      → R s x.1
      → R s (linked_answer cfg r w x).1
  linked_answer-Read w s (err e, t) h = h
  linked_answer-Read w s (ok info, t) h = h

  linked_now-Read : (rt : Option Runtime) (s : S) → R s (linked_now cfg r rt s).1
  linked_now-Read none s = read.none_ s
  linked_now-Read (some rt) s = elim (Bool-cases (rt.iface.disabled || rt.ifname == [])) [
    | inl e ↦ rw e (read.none_ s)
    | inr e ↦ rw e (linked_answer-Read rt.iface s (r.info rt.ifname s) (read.info rt.ifname s))
  ]

  poll_of-Read : (s : S) (x : Result (Option Runtime) × S) → R s x.1 → R s (poll_of cfg r x).1
  poll_of-Read s (err e, t) h = h
  poll_of-Read s (ok rt, t) h = read.then_ s t _ h (linked_now-Read rt t)

  pub poll-Read : (id : Text) (s : S) → R s (poll cfg r id s).1
  unfolding poll
  poll-Read id s = poll_of-Read s (runtime_by_id cfg r id s) (runtime_by_id-Read id s)

  linked_or_not_found-Read :
      (id : Text) (rt : Runtime) (s : S) (x : Result IwinfoInfo × S)
      → R s x.1
      → R s (linked_or_not_found cfg r id rt x).1
  linked_or_not_found-Read id rt s (err e, t) h = h
  linked_or_not_found-Read id rt s (ok info, t) h = elim (Bool-cases (is_linked rt.iface info)) [
    | inl e ↦ rw e h
    | inr e ↦ rw e h
  ]

  connection_of-Read :
      (id : Text) (rt : Option Runtime) (s : S) → R s (connection_of cfg r id rt s).1
  connection_of-Read id none s = read.none_ s
  connection_of-Read id (some rt) s = elim (Bool-cases (rt.iface.disabled || rt.ifname == [])) [
    | inl e ↦ rw e (read.none_ s)
    | inr e ↦ rw e (linked_or_not_found-Read id rt s (r.info rt.ifname s) (read.info rt.ifname s))
  ]

  pub connection_by_id-Read : (id : Text) (s : S) → R s (connection_by_id cfg r id s).1
  unfolding connection_by_id
  connection_by_id-Read id s =
      after-Read s _ (runtime_by_id cfg r id s) (runtime_by_id-Read id s) (connection_of-Read id)
