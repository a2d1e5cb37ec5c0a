-- ===== src/JsonRpc/Responses.antt =====
-- About Response.from_json and the json methods of the responses (client/json_rpc.py).
use pyre_check.Base.{◌≡◌, Bool, ok, err, arith, Option, if◌then◌else◌, true, ◌↔◌, false, ◌≢◌}
use pyre_check.JsonRpc.{
  Response, response_from_json, success_from_json, error_from_json, verify_json_rpc_version,
  parse_json_rpc_id, as_string, as_int, as_dict, as_result, id_of, message_of, Exception,
  response_json, rpc, invalid_request, success, RequestId, id_json,
}
use pyre_check.Json.{Fields, get, contains, Json, string, null}
use pyre_check.JsonRpc.Requests.{verify_iff, parse_id_iff}

abbrev has_null_result : Response → Bool
has_null_result (success id null) = true
has_null_result _ = false

-- Reading the JSON that a response writes gives the response, unless it is a success whose result
-- is None: that JSON is refused with InvalidRequestError.
pub response_from_json-response_json :
    (r : Response)
    → response_from_json (response_json r)
      ≡ (if has_null_result r then err (rpc invalid_request) else ok r)
unfolding response_from_json success_from_json error_from_json verify_json_rpc_version
    parse_json_rpc_id as_string as_int as_dict as_result message_of response_json get contains
response_from_json-response_json r = ground arith

-- A dict with neither a `result` nor an `error` field, and one with another version, is refused
-- with InvalidRequestError.
pub response_from_json_errors :
    (json : Fields) (e : Exception) → response_from_json json ≡ err e → e ≡ rpc invalid_request
unfolding response_from_json success_from_json error_from_json verify_json_rpc_version
    parse_json_rpc_id as_string as_int as_dict as_result id_of
response_from_json_errors json e h = ground arith

as_result_iff : (v result : Json) → (as_result v ≡ ok result) ↔ ((v ≡ result) × (result ≢ null))
unfolding as_result
as_result_iff v result = ground arith

-- A dict is accepted as a success response exactly when it has a `result` that is not null, version
-- "2.0" and an id that is absent, null, a number, a Boolean or a string.
pub response_from_json_success_iff :
    (json : Fields) (id : Option RequestId) (result : Json)
    → (response_from_json json ≡ ok (success id result)) ↔ (
        (contains "result" json ≡ true)
        × (get "jsonrpc" json ≡ string "2.0")
        × (get "result" json ≡ result)
        × (result ≢ null)
        × (get "id" json ≡ id_json id))
unfolding response_from_json success_from_json error_from_json
response_from_json_success_iff json id result = (
  λ h.
      ground
        (arith, verify_iff json, parse_id_iff json id, as_result_iff (get "result" json) result),
  λ (has, version, is_result, set, is_id). rw (
    has,
    (verify_iff json).1 version,
    (as_result_iff _ _).1 (is_result, set),
    (parse_id_iff json _).1 is_id,
  ),
)
