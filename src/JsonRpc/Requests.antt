-- ===== src/JsonRpc/Requests.antt =====
-- About Request.from_json, Request.from_string and Request.json (client/json_rpc.py).
use pyre_check.Json.{null, bool, int, float, string, array, dict, Json, Fields, get}
use pyre_check.Base.{
  refl, ap, inl, inr, ◌≡◌, ◌↔◌, true, Option, ok, arith, eq_iff, >>=-eq-ok, String, err, ◌⊎◌, Bool,
  false, none, some, inl, inr, ap,
}
use pyre_check.JsonRpc.{
  RequestId, Parameters, Request, id_json, parameters_json, request_json, request_from_json,
  version_ok, id_of, as_parameters, as_string, verify_json_rpc_version, parse_json_rpc_id,
  Exception, rpc, invalid_request, invalid_parameter, request_from_string, parse_error,
  attribute_error, decode,
}

-- Reading the JSON that a request writes gives the request.
pub request_from_json-request_json : (r : Request) → request_from_json (request_json r) ≡ ok r
unfolding request_from_json verify_json_rpc_version parse_json_rpc_id as_string as_parameters
    request_json get
request_from_json-request_json r = ground arith

version_ok_iff : (v : Json) → (version_ok v ≡ true) ↔ (v ≡ string "2.0")
unfolding version_ok
version_ok_iff (string s) = ground (arith, eq_iff s "2.0")
version_ok_iff _ = ground arith

id_of_iff : (v : Json) (id : Option RequestId) → (id_of v ≡ ok id) ↔ (v ≡ id_json id)
unfolding id_of
id_of_iff v id = ground arith

as_parameters_iff :
    (v : Json) (p : Option Parameters) → (as_parameters v ≡ ok p) ↔ (v ≡ parameters_json p)
unfolding as_parameters
as_parameters_iff v p = ground arith

pub verify_iff :
    (json : Fields) → (verify_json_rpc_version json ≡ ok tt) ↔ (get "jsonrpc" json ≡ string "2.0")
unfolding verify_json_rpc_version
verify_iff json = ground (arith, version_ok_iff (get "jsonrpc" json))

pub parse_id_iff :
    (json : Fields) (id : Option RequestId)
    → (parse_json_rpc_id json ≡ ok id) ↔ (get "id" json ≡ id_json id)
unfolding parse_json_rpc_id
parse_id_iff json id = id_of_iff (get "id" json) id

as_string_iff : (v : Json) (s : String) → (as_string v ≡ ok s) ↔ (v ≡ string s)
unfolding as_string
as_string_iff v s = ground arith

-- A dict is accepted as the request `r` exactly when its version is "2.0" and its method, id and
-- parameters are those of `r`, where an absent or null id or parameter field stands for None.
pub request_from_json_iff :
    (json : Fields) (r : Request)
    → (request_from_json json ≡ ok r) ↔ (
        (get "jsonrpc" json ≡ string "2.0")
        × (get "method" json ≡ string r.method)
        × (get "id" json ≡ id_json r.id)
        × (get "params" json ≡ parameters_json r.parameters))
unfolding request_from_json
request_from_json_iff json r = (
  λ h.
      let (_, version, h₁) = >>=-eq-ok (verify_json_rpc_version json) _ h in
      let (method, is_method, h₂) = >>=-eq-ok (as_string (get "method" json)) _ h₁ in
      let (parameters, is_parameters, h₃) = >>=-eq-ok (as_parameters (get "params" json)) _ h₂ in
      let (id, is_id, h₄) = >>=-eq-ok (parse_json_rpc_id json) _ h₃ in
      ground (
        arith,
        (verify_iff json).0 version,
        (as_string_iff (get "method" json) method).0 is_method,
        (parse_id_iff json id).0 is_id,
        (as_parameters_iff (get "params" json) parameters).0 is_parameters,
      ),
  λ (version, method, id, parameters). rw (
    (verify_iff json).1 version,
    (as_string_iff _ _).1 method,
    (as_parameters_iff _ _).1 parameters,
    (parse_id_iff json _).1 id,
  ),
)

-- What `Request.from_json` raises is InvalidRequestError or InvalidParameterError.
pub request_from_json_errors :
    (json : Fields) (e : Exception)
    → request_from_json json ≡ err e
    → (e ≡ rpc invalid_request) ⊎ (e ≡ rpc invalid_parameter)
unfolding request_from_json verify_json_rpc_version parse_json_rpc_id as_string as_parameters id_of
request_from_json_errors json e h = ground arith

-- The values that have a method `get`.
abbrev pub is_dict : Json → Bool
is_dict (dict fields) = true
is_dict _ = false

abbrev is_dict_of : Option Json → Bool
is_dict_of none = false
is_dict_of (some json) = is_dict json

module _ (loads : String → Option Json) where
  -- `Request.from_string` raises ParseError exactly for a text that is no JSON, and AttributeError
  -- exactly for one whose JSON is no object.
  pub request_from_string_errors :
      (text : String)
      → ((request_from_string loads text ≡ err (rpc parse_error)) ↔ (loads text ≡ none))
        × ((request_from_string loads text ≡ err attribute_error)
            ↔ ((json : Json) × (loads text ≡ some json) × (is_dict json ≡ false)))
  unfolding request_from_string
  request_from_string_errors text = by_document (loads text)
    where
      by_document :
          (o : Option Json)
          → ((decode request_from_json o ≡ err (rpc parse_error)) ↔ (o ≡ none))
            × ((decode request_from_json o ≡ err attribute_error)
                ↔ ((json : Json) × (o ≡ some json) × (is_dict json ≡ false)))
      by_document none = ((λ h. refl, λ h. refl), (λ h. cc, λ h. let (json, e, other) = h in cc))
      by_document (some (dict fields)) = (
        (λ h. elim (request_from_json_errors fields _ h) [ inl e ↦ cc | inr e ↦ cc ], λ h. cc),
        (
          λ h. elim (request_from_json_errors fields _ h) [ inl e ↦ cc | inr e ↦ cc ],
          λ h. let (json, e, other) = h in cc (ap is_dict_of e, other),
        ),
      )
      by_document (some null) = ((λ h. cc, λ h. cc), (λ h. (null, refl, refl), λ h. refl))
      by_document (some (bool b)) = ((λ h. cc, λ h. cc), (λ h. (bool b, refl, refl), λ h. refl))
      by_document (some (int n)) = ((λ h. cc, λ h. cc), (λ h. (int n, refl, refl), λ h. refl))
      by_document (some (float x)) = ((λ h. cc, λ h. cc), (λ h. (float x, refl, refl), λ h. refl))
      by_document (some (string s)) = ((λ h. cc, λ h. cc), (λ h. (string s, refl, refl), λ h. refl))
      by_document (some (array l)) = ((λ h. cc, λ h. cc), (λ h. (array l, refl, refl), λ h. refl))
