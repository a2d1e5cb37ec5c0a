-- ===== src/Persistent/Requests.antt =====
-- The loops of Server over the messages of the editor (client/commands/v2/persistent.py), and the
-- parameters of the notifications (language_server_protocol.py).
pub mod Outcomes
pub mod Documents
use pyre_check.Base.{
  [], ◌∷◌, ◌++◌, List, refl, ◌≡◌, some, none, Option, true, false, Bool, arith, String, ◌==◌, ap,
  ok, err, Result, inl, inr, ◌>>=◌, ◌>>◌, if◌then◌else◌, ℕ,
}
use pyre_check.Json.{Fields}
use pyre_check.PathLib.{path, path_text}
use pyre_check.JsonRpc.{
  Request, RpcError, Exception, Parameters, RequestId, invalid_request, by_position,
  unbound_local_error, attribute_error, value_error, rpc, by_name, error_code, request_cancelled,
}
use pyre_check.Persistent.Server.{
  Background, World, ensure_task_running, ensure_task_stop, process_open_request, write, background,
  error_response, fresh, process_close_request, process_did_save_request,
}

pub record DocumentUri : Type 0 where
  pub scheme : String
  pub authority : String
  pub file : String
  pub query : String
  pub fragment : String

-- The text of `Path(self.path)`, by which the documents are told apart.
unfoldable pub to_file_path : DocumentUri → Option String
to_file_path uri = if uri.scheme == "file" then some (path_text (path uri.file)) else none

-- A message of the editor, as read_json_rpc gives it or fails.
pub data Event : Type 0 where
  message : Request → Event
  malformed : Exception → Event
  step : Background → Event

-- The process ends with an exit code, or with an exception that nothing catches.
pub data Outcome : Type 0 where
  exit_code : ℕ → Outcome
  crashed : Exception → Outcome

-- ExitCode.FAILURE
abbrev pub failure : ℕ
failure = 2

abbrev Handled : Type 0
Handled = Result Exception (Unit {0}) × World

-- Where reading a message raises: the handler for an exception of the protocol names the message
-- before it is bound, and raises again. Another exception is not handled.
unfoldable pub unread : Exception → Exception
unread (rpc e) = unbound_local_error
unread attribute_error = attribute_error
unread unbound_local_error = unbound_local_error
unread value_error = value_error

-- `load` is the schema of dataclasses_json, which finds the URI of the text document or refuses the
-- fields; `parse_uri` is DocumentUri.parse, which calls urllib, or None for its ValueError.
module _ (load : String → Fields → Option String) (parse_uri : String → Option DocumentUri) where
  path_of_parsed : Option DocumentUri → Result Exception String
  unfolding to_file_path
  path_of_parsed none = err value_error
  path_of_parsed (some uri) = elim (to_file_path uri) [
    | none ↦ err (rpc invalid_request)
    | some file ↦ ok file
  ]

  path_of_uri : Option String → Result Exception String
  unfolding path_of_parsed
  path_of_uri none = err (rpc invalid_request)
  path_of_uri (some uri) = path_of_parsed (parse_uri uri)

  -- The path of the document that the parameters of a method name.
  unfoldable pub document_path : String → Option Parameters → Result Exception String
  unfolding path_of_uri
  document_path method none = err (rpc invalid_request)
  document_path method (some (by_position values)) = err (rpc invalid_request)
  document_path method (some (by_name fields)) = path_of_uri (load method fields)

  process : (String → World → World) → Result Exception String → World → Handled
  process handler (err e) w = (err e, w)
  process handler (ok file) w = (ok tt, handler file w)

  -- A notification is passed over, a request is refused.
  unsupported : Option RequestId → World → Handled
  unsupported none w = (ok tt, w)
  unsupported (some id) w = (err (rpc request_cancelled), w)

  -- The branches of `_run` that neither return nor end the loop.
  unfoldable pub handle : Request → World → Handled
  unfolding process unsupported
  handle r w =
      if r.method == "textDocument/didOpen"
      then process process_open_request (document_path r.method r.parameters) w
      else if r.method == "textDocument/didClose"
      then process process_close_request (document_path r.method r.parameters) w
      else if r.method == "textDocument/didSave"
      then process process_did_save_request (document_path r.method r.parameters) w
      else unsupported r.id w

  -- _read_lsp_request: an exception of the protocol in the body is answered, and the loop goes on;
  -- another one ends it.
  unfoldable pub answered : Option RequestId → Handled → (World → Outcome × World) → Outcome × World
  answered id (ok _, w) go_on = go_on w
  answered id (err (rpc e), w) go_on = go_on (write (error_response id (error_code e)) w)
  answered id (err attribute_error, w) go_on = (crashed attribute_error, w)
  answered id (err unbound_local_error, w) go_on = (crashed unbound_local_error, w)
  answered id (err value_error, w) go_on = (crashed value_error, w)

  -- wait_for_exit. The end of the input is a ParseError.
  unfoldable pub wait_for_exit : List Event → World → Outcome × World
  unfolding unread
  wait_for_exit [] w = (crashed unbound_local_error, w)
  wait_for_exit (malformed e ∷ rest) w = (crashed (unread e), w)
  wait_for_exit (step b ∷ rest) w = wait_for_exit rest (background b w.phase w)
  wait_for_exit (message r ∷ rest) w =
      let later = wait_for_exit rest (write (error_response r.id (error_code invalid_request)) w) in
      if r.method == "exit" then (exit_code 0, w) else later

  -- `_run`. The coroutine that would answer `shutdown` is made and not awaited: nothing is written.
  unfoldable pub run_loop : List Event → World → Outcome × World
  unfolding answered wait_for_exit unread
  run_loop [] w = (crashed unbound_local_error, w)
  run_loop (malformed e ∷ rest) w = (crashed (unread e), w)
  run_loop (step b ∷ rest) w = run_loop rest (background b w.phase w)
  run_loop (message r ∷ rest) w =
      let later = answered r.id (handle r w) (run_loop rest) in
      if r.method == "exit"
      then (exit_code failure, w)
      else if r.method == "shutdown"
      then wait_for_exit rest w
      else later

  stopped : Outcome × World → Outcome × World
  stopped (outcome, w) = (outcome, ensure_task_stop w)

  -- `run`, from the state that run_persistent makes.
  unfoldable pub run : List Event → Outcome × World
  unfolding stopped
  run events = stopped (run_loop events (ensure_task_running fresh))
