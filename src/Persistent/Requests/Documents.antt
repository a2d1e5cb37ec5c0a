-- ===== src/Persistent/Requests/Documents.antt =====
-- How a run of Server goes on behind a request, by the document that it names
-- (client/commands/v2/persistent.py).
use pyre_check.Base.{
  refl, ◌≡◌, some, none, Option, true, false, Bool, String, ◌==◌, ok, err, Result, inl, inr, ◌||◌,
  Option-cases, if◌then◌else◌, ◌&&◌, ◌∙◌, Bool-cases,
}
use pyre_check.Json.{Fields}
use pyre_check.Persistent.Requests.{
  DocumentUri, document_path, path_of_parsed, path_of_uri, answered, crashed, handle, process,
  to_file_path, unsupported, Outcome,
}
use pyre_check.JsonRpc.{
  Parameters, RequestId, Exception, by_name, rpc, Request, by_position, unbound_local_error,
  attribute_error, value_error,
}
use pyre_check.Persistent.Server.{
  World, process_open_request, process_close_request, process_did_save_request,
}

abbrev pub is_missing : Option DocumentUri → Bool
is_missing none = true
is_missing (some parsed) = false

-- The notifications that name a document.
abbrev pub names_document : String → Bool
names_document method =
    method == "textDocument/didOpen"
    || method == "textDocument/didClose"
    || method == "textDocument/didSave"

module _ (load : String → Fields → Option String) (parse_uri : String → Option DocumentUri) where
  -- The URI of a document that cannot be parsed.
  abbrev pub is_unparseable : Option String → Bool
  is_unparseable none = false
  is_unparseable (some uri) = is_missing (parse_uri uri)

  abbrev pub uri_in : String → Option Parameters → Option String
  uri_in method (some (by_name fields)) = load method fields
  uri_in method _ = none

  -- What the reading of a path leads to, where `c` is how the run ends if it goes on.
  path_ending : Outcome → Result Exception String → Outcome
  path_ending c (ok file) = c
  path_ending c (err (rpc e)) = c
  path_ending c (err attribute_error) = crashed attribute_error
  path_ending c (err unbound_local_error) = crashed unbound_local_error
  path_ending c (err value_error) = crashed value_error

  file_ending :
      (c : Outcome) (uri : DocumentUri)
      → path_ending c (path_of_parsed load parse_uri (some uri)) ≡ c
  unfolding path_of_parsed path_ending
  file_ending c uri = elim (Option-cases (to_file_path uri)) [
    | inl e ↦ rw (path_of_parsed, e) refl
    | inr (file, e) ↦ rw (path_of_parsed, e) refl
  ]

  parsed_ending :
      (c : Outcome) (uri : String)
      → path_ending c (path_of_uri load parse_uri (some uri))
        ≡ (if is_unparseable (some uri) then crashed value_error else c)
  unfolding path_of_parsed path_of_uri path_ending
  parsed_ending c uri = elim (Option-cases (parse_uri uri)) [
    | inl e ↦ rw (path_of_uri, path_of_parsed, e) refl
    | inr (parsed, e) ↦ rw (path_of_uri, e) (file_ending c parsed)
  ]

  uri_ending :
      (c : Outcome) (uri : Option String)
      → path_ending c (path_of_uri load parse_uri uri)
        ≡ (if is_unparseable uri then crashed value_error else c)
  unfolding path_of_uri path_ending
  uri_ending c none = refl
  uri_ending c (some uri) = parsed_ending c uri

  document_ending :
      (c : Outcome) (method : String) (parameters : Option Parameters)
      → path_ending c (document_path load parse_uri method parameters)
        ≡ (if is_unparseable (uri_in method parameters) then crashed value_error else c)
  unfolding document_path path_ending
  document_ending c method none = refl
  document_ending c method (some (by_position values)) = refl
  document_ending c method (some (by_name fields)) = uri_ending c (load method fields)

  module _ (id : Option RequestId) (w : World) (go_on : World → Outcome × World) (c : Outcome)
      (goes_on : (w : World) → (go_on w).0 ≡ c) where
    process_ending :
        (handler : String → World → World) (file : Result Exception String)
        → (answered load parse_uri id (process load parse_uri handler file w) go_on).0
          ≡ path_ending c file
    unfolding process answered path_ending
    process_ending handler (ok file) = goes_on _
    process_ending handler (err (rpc e)) = goes_on _
    process_ending handler (err attribute_error) = refl
    process_ending handler (err unbound_local_error) = refl
    process_ending handler (err value_error) = refl

    unsupported_ending :
        (other : Option RequestId)
        → (answered load parse_uri id (unsupported load parse_uri other w) go_on).0 ≡ c
    unfolding unsupported answered
    unsupported_ending none = goes_on _
    unsupported_ending (some other) = goes_on _

    named_ending :
        (handler : String → World → World) (method : String) (parameters : Option Parameters)
        → (answered load parse_uri id
            (process load parse_uri handler (document_path load parse_uri method parameters) w)
            go_on).0
          ≡ (if is_unparseable (uri_in method parameters) then crashed value_error else c)
    named_ending handler method parameters =
        process_ending handler (document_path load parse_uri method parameters)
        ∙ document_ending c method parameters

    pub handle-ending :
        (r : Request)
        → (answered load parse_uri id (handle load parse_uri r w) go_on).0 ≡ (
            if names_document r.method && is_unparseable (uri_in r.method r.parameters)
            then crashed value_error
            else c)
    unfolding handle
    handle-ending r = elim (Bool-cases (r.method == "textDocument/didOpen")) [
      | inl opens ↦ rw (handle, opens) (named_ending process_open_request r.method r.parameters)
      | inr not_open ↦ elim (Bool-cases (r.method == "textDocument/didClose")) [
        | inl closes ↦
            rw (handle, not_open, closes) (named_ending process_close_request r.method r.parameters)
        | inr not_close ↦ elim (Bool-cases (r.method == "textDocument/didSave")) [
          | inl saves ↦
              rw (handle, not_open, not_close, saves)
                (named_ending process_did_save_request r.method r.parameters)
          | inr not_save ↦ rw (handle, not_open, not_close, not_save) (unsupported_ending r.id)
        ]
      ]
    ]
