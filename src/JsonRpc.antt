-- ===== src/JsonRpc.antt =====
-- client/json_rpc.py: JSON-RPC requests and responses, and the exceptions of the protocol. The
-- messages of the exceptions are not modelled.
pub mod Requests
pub mod Responses
use pyre_check.Base.{
  ℕ, String, ◌≡◌, refl, Bool, true, false, Option, none, some, ◌==◌, if◌then◌else◌, ℤ, pos, negsuc,
  Result, ok, err, ◌>>=◌, ◌>>◌, guard,
}
use pyre_check.Json.{
  Json, null, bool, int, float, string, array, dict, Items, Fields, end, field, get, contains,
  PythonInt, number, truth,
}

-- The subclasses of JSONRPCException, those of language_server_protocol.py included.
pub data RpcError : Type 0 where
  parse_error invalid_request method_not_found invalid_parameter internal_error : RpcError
  server_not_initialized request_cancelled : RpcError

unfoldable pub error_code : RpcError → ℤ
error_code parse_error = negsuc 32699
error_code invalid_request = negsuc 32599
error_code method_not_found = negsuc 32600
error_code invalid_parameter = negsuc 32601
error_code internal_error = negsuc 32602
error_code server_not_initialized = negsuc 32001
error_code request_cancelled = negsuc 32799

-- What Python code of the client may raise here.
pub data Exception : Type 0 where
  rpc : RpcError → Exception
  attribute_error unbound_local_error value_error : Exception

pub data RequestId : Type 0 where
  whole : PythonInt → RequestId
  name : String → RequestId

pub data Parameters : Type 0 where
  by_position : Items → Parameters
  by_name : Fields → Parameters

pub record Request : Type 0 where
  pub method : String
  pub id : Option RequestId
  pub parameters : Option Parameters

-- `result` and `data` are Python objects: None is `null`.
pub data Response : Type 0 where
  success : (id : Option RequestId) (result : Json) → Response
  error : (id : Option RequestId) (code : PythonInt) (message : String) (info : Json) → Response

abbrev pub int_json : PythonInt → Json
int_json (number n) = int n
int_json (truth b) = bool b

abbrev pub id_json : Option RequestId → Json
id_json none = null
id_json (some (whole n)) = int_json n
id_json (some (name s)) = string s

abbrev pub parameters_json : Option Parameters → Json
parameters_json none = null
parameters_json (some (by_position values)) = array values
parameters_json (some (by_name values)) = dict values

-- `**({key: value} if value is not None else {})`, in front of `rest`
abbrev pub field_if_set : String → Json → Fields → Fields
field_if_set key null rest = rest
field_if_set key value rest = field key value rest

unfoldable pub request_json : Request → Fields
request_json r = field "jsonrpc" (string "2.0") (
    field "method" (string r.method)
      (field_if_set "id" (id_json r.id) (field_if_set "params" (parameters_json r.parameters) end)))

unfoldable pub response_json : Response → Fields
response_json (success id result) =
    field "jsonrpc" (string "2.0") (field_if_set "id" (id_json id) (field "result" result end))
response_json (error id code message info) = field "jsonrpc" (string "2.0") (
    field_if_set "id" (id_json id) (
      field "error"
        (dict (
          field "code" (int_json code)
            (field "message" (string message) (field_if_set "data" info end))))
        end))

abbrev pub Parsed {ℓ} : Type ℓ → Type ℓ
Parsed A = Result Exception A

abbrev pub invalid {ℓ} : {A : Type ℓ} → Parsed A
invalid = err (rpc invalid_request)

-- The test of `_verify_json_rpc_version` on the value that it reads.
version_ok : Json → Bool
version_ok (string version) = version == "2.0"
version_ok _ = false

unfoldable pub verify_json_rpc_version : Fields → Parsed (Unit {0})
unfolding version_ok
verify_json_rpc_version json = guard (version_ok (get "jsonrpc" json)) (rpc invalid_request)

-- `_parse_json_rpc_id` on the value of the field.
id_of : Json → Parsed (Option RequestId)
id_of null = ok none
id_of (int n) = ok (some (whole (number n)))
id_of (bool b) = ok (some (whole (truth b)))
id_of (string s) = ok (some (name s))
id_of _ = invalid

unfoldable pub parse_json_rpc_id : Fields → Parsed (Option RequestId)
unfolding id_of
parse_json_rpc_id json = id_of (get "id" json)

unfoldable pub as_string : Json → Parsed String
as_string (string s) = ok s
as_string _ = invalid

unfoldable pub as_int : Json → Parsed PythonInt
as_int (int n) = ok (number n)
as_int (bool b) = ok (truth b)
as_int _ = invalid

unfoldable pub as_dict : Json → Parsed Fields
as_dict (dict fields) = ok fields
as_dict _ = invalid

unfoldable pub as_parameters : Json → Parsed (Option Parameters)
as_parameters null = ok none
as_parameters (array values) = ok (some (by_position values))
as_parameters (dict values) = ok (some (by_name values))
as_parameters _ = err (rpc invalid_parameter)

unfoldable pub request_from_json : Fields → Parsed Request
request_from_json json = do
  verify_json_rpc_version json
  method ← as_string (get "method" json)
  parameters ← as_parameters (get "params" json)
  id ← parse_json_rpc_id json
  ok (record { method = method; id = id; parameters = parameters })

-- `result` of SuccessResponse.from_json: None is refused.
unfoldable pub as_result : Json → Parsed Json
as_result null = invalid
as_result value = ok value

unfoldable pub success_from_json : Fields → Parsed Response
success_from_json json = do
  verify_json_rpc_version json
  result ← as_result (get "result" json)
  id ← parse_json_rpc_id json
  ok (success id result)

-- `error.get("message", "")`
unfoldable pub message_of : Fields → Json
message_of json = if contains "message" json then get "message" json else string ""

unfoldable pub error_from_json : Fields → Parsed Response
error_from_json json = do
  verify_json_rpc_version json
  fields ← as_dict (get "error" json)
  code ← as_int (get "code" fields)
  message ← as_string (message_of fields)
  id ← parse_json_rpc_id json
  ok (error id code message (get "data" fields))

unfoldable pub response_from_json : Fields → Parsed Response
response_from_json json =
    if contains "result" json
    then success_from_json json
    else if contains "error" json
    then error_from_json json
    else invalid

-- What `json.loads` answers: a value, or JSONDecodeError. A value that is no dict has no `get`.
abbrev pub decode {ℓ} : {A : Type ℓ} → (Fields → Parsed A) → Option Json → Parsed A
decode from_json none = err (rpc parse_error)
decode from_json (some (dict fields)) = from_json fields
decode from_json (some _) = err attribute_error

-- `json.loads` and `json.dumps` are the standard library's.
module _ (loads : String → Option Json) where
  unfoldable pub request_from_string : String → Parsed Request
  request_from_string text = decode request_from_json (loads text)
