-- ===== src/Wnet/Ubus/Client.antt =====
-- internal/wnet/ubus/client.go: calls of ubus objects under a session. Posting a request over HTTP,
-- and reading the answer as JSON, is a parameter. A call runs on the fields of the client that
-- change and on the world. The lock around the session is left out: one caller at a time is
-- modelled, and what another one did meanwhile shows in a session that is not the stale one.
pub mod Sessions
pub mod Requests
use wfm.Prelude.{
  ℕ, suc, Bool, true, false, ◌&&◌, ◌||◌, List, [], ◌∷◌, Option, none, some, Text, text, text_eq,
  nat_eq, ◌==◌, ◌!=◌, if◌then◌else◌, ◌++◌,
}
use wfm.Prelude.Int.{ℤ, pos, int_eq}
use wfm.Wnet.Types.{Error, err_not_found, err_unsupported, err_other}
use wfm.Wnet.Backend.{Result, ok, err, Action, after, ◌>>=◌, return, fail}
use wfm.Wnet.Ubus.Json.{Json, null, string, to_object, field, as_string, as_object}
use wfm.Wnet.Ubus.Rpc.{anon_session, ubus_permission_denie, rpc_request, CallResult, rpc_response}

-- The fields of `Client` that do not change, and the post of a request: the status of the answer
-- with its body, if that is JSON, or that there is no answer.
pub record Endpoint (W : Type 0) : Type 0 where
  pub user : Text
  pub pass : Text
  pub post : Json → W → Option (ℕ × Option Json) × W

-- The fields of `Client` that change.
pub record Client : Type 0 where
  pub id : ℕ
  pub session : Text

-- `statusErr`: none for a call that succeeded.
unfoldable pub status_err : ℤ → Option Error
status_err code =
    if code == pos 0 || code == pos 5
    then none
    else if code == pos 4 || code == pos 3
    then some err_not_found
    else if code == pos 8
    then some err_unsupported
    else some err_other

abbrev pub or_fail : {W A : Type 0} → Error → Option A → Action W A
or_fail e none = fail e
or_fail e (some a) = return a

abbrev pub return_unless : {W A : Type 0} → Option Error → A → Action W A
return_unless none a = return a
return_unless (some e) a = fail e

-- What `rawCall` makes of an answer.
abbrev pub answered : Option (ℕ × Option Json) → Option CallResult
answered (some (status, some body)) = if status == 200 then rpc_response body else none
answered _ = none

-- `ubus_rpc_session` of the data of a login.
unfoldable pub session_of : Option Json → Option Text
session_of none = none
session_of (some j) = elim (as_object j) [
  | none ↦ none
  | some ms ↦ as_string (field (text "ubus_rpc_session") ms)
]

-- `json.Unmarshal(data, out)`, where there is data.
abbrev pub unmarshal : {W A : Type 0} → (zero : A) → (Json → Option A) → Option Json → Action W A
unmarshal zero decode none = return zero
unmarshal zero decode (some j) = or_fail err_other (decode j)

module _ {W : Type 0} (n : Endpoint W) where
  -- Fields that change, and the world.
  abbrev pub State : Type 0
  State = Client × W

  -- A request with the next id.
  unfoldable pub raw_call : (session obj method : Text) → Json → Action State CallResult
  raw_call session obj method args (c, w) =
      let id = suc c.id in
      let (answer, w') = n.post (rpc_request id session obj method args) w in
      or_fail err_other (answered answer) (record c { id = id }, w')

  abbrev pub store_session : Text → Action State (Unit {0})
  store_session s (c, w) =
      if s == [] then (err err_other, (c, w)) else (ok tt, (record c { session = s }, w))

  abbrev pub logged_in : CallResult → Action State (Unit {0})
  logged_in (code, data_) =
      if code == pos 0
      then (or_fail err_other (session_of data_) >>= store_session)
      else fail err_other

  unfoldable pub login : Action State (Unit {0})
  login =
      raw_call anon_session (text "session") (text "login")
        (to_object ((text "username", string n.user) ∷ (text "password", string n.pass) ∷ []))
      >>= logged_in

  abbrev pub current : Action State Text
  current (c, w) = (ok c.session, (c, w))

  abbrev pub login_first : Action State Text
  login_first = login >>= λ _. current

  unfoldable pub session_id : Action State Text
  session_id (c, w) = if c.session == [] then login_first (c, w) else current (c, w)

  -- Another caller may have logged in since `stale` was refused.
  unfoldable pub relogin : (stale : Text) → Action State Text
  relogin stale (c, w) =
      if c.session != stale then current (c, w) else login_first (record c { session = [] }, w)

  abbrev pub retry : (session obj method : Text) → Json → CallResult → Action State CallResult
  retry session obj method args (code, data_) =
      if code == ubus_permission_denie
      then (relogin session >>= λ s. raw_call s obj method args)
      else return (code, data_)

  abbrev pub succeeded : CallResult → Action State (Option Json)
  succeeded (code, data_) = return_unless (status_err code) data_

  unfoldable pub call : (obj method : Text) → Json → Action State (Option Json)
  call obj method args = do
    session ← session_id
    r ← raw_call session obj method args
    r ← retry session obj method args r
    succeeded r

  -- `Call` with `out`, which is `zero` before.
  unfoldable pub call_for :
      {A : Type 0} → (zero : A) → (Json → Option A) → (obj method : Text) → Json → Action State A
  call_for zero decode obj method args = call obj method args >>= unmarshal zero decode

  -- `Call` without `out`.
  unfoldable pub call_unit : (obj method : Text) → Json → Action State (Unit {0})
  call_unit obj method args = call obj method args >>= λ _. return tt
