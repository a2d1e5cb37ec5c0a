-- ===== src/Examples/Rpc.antt =====
-- Requests and responses at concrete messages.
use pyre_check.Base.{◌≡◌, some, none, true, ok, err, ◌↔◌, pos, String, Option, false}
use pyre_check.Json.{Fields, field, bool, get, null, number, string, end, Json, int}
use pyre_check.JsonRpc.{
  attribute_error, parse_error, Request, request_from_json, response_from_json, response_json,
  success, whole, rpc, by_name, invalid_request, request_from_string,
}
use pyre_check.JsonRpc.Requests.{request_from_json_iff, is_dict, request_from_string_errors}
use pyre_check.JsonRpc.Responses.{response_from_json-response_json}

abbrev open_request : Request
open_request = record {
  method = "textDocument/didOpen";
  id = some (whole (number (pos 7)));
  parameters = some (by_name (field "uri" (string "file:///a.py") end));
}

abbrev notification : Request
notification = record { method = "exit"; id = none; parameters = none }

abbrev notification_json : Fields
notification_json =
    field "jsonrpc" (string "2.0") (field "method" (string "exit") (field "id" null end))

request_from_json_iff_example : (request_from_json notification_json ≡ ok notification) ↔ (
    (get "jsonrpc" notification_json ≡ string "2.0")
    × (get "method" notification_json ≡ string "exit")
    × (get "id" notification_json ≡ null)
    × (get "params" notification_json ≡ null))
request_from_json_iff_example = request_from_json_iff notification_json notification

response_from_json-response_json_example :
    response_from_json (response_json (success none null)) ≡ err (rpc invalid_request)
response_from_json-response_json_example = response_from_json-response_json (success none null)

abbrev success_json : Fields
success_json = field "jsonrpc" (string "2.0") (field "result" (bool true) end)

-- A text that is read as a number.
abbrev numbers : String → Option Json
numbers text = some (int (pos 7))

request_from_string_errors_example :
    ((request_from_string numbers "7" ≡ err (rpc parse_error)) ↔ (numbers "7" ≡ none))
    × ((request_from_string numbers "7" ≡ err attribute_error)
        ↔ ((json : Json) × (numbers "7" ≡ some json) × (is_dict json ≡ false)))
request_from_string_errors_example = request_from_string_errors numbers "7"
