-- ===== src/Wnet/Ubus/Rpc.antt =====
-- internal/wnet/ubus/client.go: a request of JSON-RPC and what `rawCall` reads of its answer.
use wfm.Prelude.{ℕ, ◌||◌, List, [], ◌∷◌, Option, none, some, Text, text, ◌==◌, if◌then◌else◌}
use wfm.Prelude.Int.{ℤ, pos, negsuc, int_eq}
use wfm.Wnet.Ubus.Json.{
  Json, null, number, string, array, to_items, to_object, field, as_string, as_int, as_object,
  as_list, ◌>>=◌,
}

abbrev pub anon_session : Text
anon_session = text "00000000000000000000000000000000"

abbrev pub ubus_permission_denie : ℤ
ubus_permission_denie = pos 6

-- `rpcRequest`
unfoldable pub rpc_request : ℕ → (session obj method : Text) → Json → Json
rpc_request id session obj method args = to_object (
    (text "jsonrpc", string (text "2.0"))
    ∷ (text "id", number (pos id))
    ∷ (text "method", string (text "call"))
    ∷ (text "params", array (to_items (string session ∷ string obj ∷ string method ∷ args ∷ [])))
    ∷ [])

-- The status and the data of a call.
abbrev pub CallResult : Type 0
CallResult = ℤ × Option Json

abbrev pub first_of : List Json → Option Json
first_of [] = none
first_of (j ∷ _) = some j

-- `result is [status] or [status, data]`
abbrev pub result_of_parts : List Json → Option CallResult
result_of_parts [] = none
result_of_parts (status ∷ parts) = do code ← as_int status; some (code, first_of parts)

unfoldable pub result_of : Json → Option CallResult
result_of result = do parts ← as_list some result; result_of_parts parts

-- `rr.Error`, of which a null is none.
unfoldable pub result_of_error : List (Text × Json) → Option CallResult
result_of_error error = do
  code ← as_int (field (text "code") error)
  _ ← as_string (field (text "message") error)
  if code == negsuc 32000 || code == negsuc 32001 then some (ubus_permission_denie, none) else none

abbrev pub result_unless_error : (error result : Json) → Option CallResult
result_unless_error null result = result_of result
result_unless_error error result = do e ← as_object error; result_of_error e

-- The result that the body of an answer holds.
unfoldable pub rpc_response : Json → Option CallResult
rpc_response body = do
  ms ← as_object body
  result_unless_error (field (text "error") ms) (field (text "result") ms)
