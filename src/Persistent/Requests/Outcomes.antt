-- ===== src/Persistent/Requests/Outcomes.antt =====
-- About the loops and the exit codes of Server (client/commands/v2/persistent.py).
use pyre_check.Base.{
  [], ◌∷◌, List, refl, some, none, Option, String, ◌==◌, ok, err, Result, inl, inr, Bool-cases,
  if◌then◌else◌, ◌&&◌,
}
use pyre_check.Json.{Fields}
use pyre_check.Persistent.Requests.{
  unread, Event, DocumentUri, Outcome, answered, crashed, handle, process, run_loop, wait_for_exit,
  malformed, step, message, document_path, exit_code, failure, unsupported,
}
use pyre_check.JsonRpc.{
  rpc, value_error, attribute_error, Exception, Request, RequestId, unbound_local_error,
}
use pyre_check.Persistent.Server.{
  World, background, process_open_request, process_close_request, process_did_save_request,
}
use pyre_check.Persistent.Server.Sync.{
  IsSynced, write-IsSynced, background-IsSynced, process_open_request-IsSynced,
  process_close_request-IsSynced, process_did_save_request-IsSynced,
}
use pyre_check.Persistent.Requests.Documents.{names_document, is_unparseable, uri_in}

module _ (load : String → Fields → Option String) (parse_uri : String → Option DocumentUri) where
  handled-IsSynced :
      (handler : String → World → World) (file : Result Exception String) (w : World)
      → ((f : String) → IsSynced (handler f w))
      → IsSynced w
      → IsSynced (process load parse_uri handler file w).1
  unfolding process
  handled-IsSynced handler (err e) w k h = h
  handled-IsSynced handler (ok file) w k h = k file

  handle-IsSynced : (r : Request) (w : World) → IsSynced w → IsSynced (handle load parse_uri r w).1
  unfolding handle
  handle-IsSynced r w h = elim (Bool-cases (r.method == "textDocument/didOpen")) [
    | inl opens ↦ rw opens (
        handled-IsSynced process_open_request (document_path load parse_uri r.method r.parameters) w
          (λ f. process_open_request-IsSynced f w h) h)
    | inr not_open ↦ rw not_open (elim (Bool-cases (r.method == "textDocument/didClose")) [
      | inl closes ↦ rw closes (
          handled-IsSynced process_close_request
            (document_path load parse_uri r.method r.parameters) w
            (λ f. process_close_request-IsSynced f w h) h)
      | inr not_close ↦ rw not_close (elim (Bool-cases (r.method == "textDocument/didSave")) [
        | inl saves ↦ rw saves (
            handled-IsSynced process_did_save_request
              (document_path load parse_uri r.method r.parameters) w
              (λ f. process_did_save_request-IsSynced f w h) h)
        | inr not_save ↦ rw not_save (other_method r.id)
      ])
    ])
  ]
    where
      other_method : (id : Option RequestId) → IsSynced (unsupported load parse_uri id w).1
      other_method none = h
      other_method (some _) = h

  answered-IsSynced :
      (id : Option RequestId) (a : Result Exception (Unit {0}) × World)
      (go_on : World → Outcome × World)
      → IsSynced a.1
      → ((w : World) → IsSynced w → IsSynced (go_on w).1)
      → IsSynced (answered load parse_uri id a go_on).1
  unfolding answered
  answered-IsSynced id (ok _, w) go_on h k = k w h
  answered-IsSynced id (err (rpc e), w) go_on h k = k _ (write-IsSynced _ w tt h)
  answered-IsSynced id (err attribute_error, w) go_on h k = h
  answered-IsSynced id (err unbound_local_error, w) go_on h k = h
  answered-IsSynced id (err value_error, w) go_on h k = h

  wait_for_exit-IsSynced :
      (events : List Event) (w : World)
      → IsSynced w
      → IsSynced (wait_for_exit load parse_uri events w).1
  unfolding wait_for_exit
  wait_for_exit-IsSynced [] w h = h
  wait_for_exit-IsSynced (malformed e ∷ rest) w h = h
  wait_for_exit-IsSynced (step b ∷ rest) w h =
      wait_for_exit-IsSynced rest (background b w.phase w) (background-IsSynced b w.phase w refl h)
  wait_for_exit-IsSynced (message r ∷ rest) w h = elim (Bool-cases (r.method == "exit")) [
    | inl e ↦ rw e h
    | inr e ↦ rw e (wait_for_exit-IsSynced rest _ (write-IsSynced _ w tt h))
  ]

  -- From a world in which the editor shows, for each file, the server's diagnostics if the file is
  -- open and none if it is closed, every run of the loop, over any messages and any steps of the
  -- background task, ends in such a world.
  pub run_loop-IsSynced :
      (events : List Event) (w : World) → IsSynced w → IsSynced (run_loop load parse_uri events w).1
  unfolding run_loop
  run_loop-IsSynced [] w h = h
  run_loop-IsSynced (malformed e ∷ rest) w h = h
  run_loop-IsSynced (step b ∷ rest) w h =
      run_loop-IsSynced rest (background b w.phase w) (background-IsSynced b w.phase w refl h)
  run_loop-IsSynced (message r ∷ rest) w h = elim (Bool-cases (r.method == "exit")) [
    | inl e ↦ rw e h
    | inr e ↦ elim (Bool-cases (r.method == "shutdown")) [
      | inl s ↦ rw (e, s) (wait_for_exit-IsSynced rest w h)
      | inr s ↦
          rw (e, s)
            (answered-IsSynced r.id (handle load parse_uri r w) (run_loop load parse_uri rest)
              (handle-IsSynced r w h) (run_loop-IsSynced rest))
    ]
  ]

-- How a run ends, by its messages alone.
abbrev pub ending_after_shutdown : List Event → Outcome
ending_after_shutdown [] = crashed unbound_local_error
ending_after_shutdown (malformed e ∷ rest) = crashed (unread e)
ending_after_shutdown (step b ∷ rest) = ending_after_shutdown rest
ending_after_shutdown (message r ∷ rest) =
    let later = ending_after_shutdown rest in if r.method == "exit" then exit_code 0 else later

module _ (load : String → Fields → Option String) (parse_uri : String → Option DocumentUri) where
  abbrev pub ending : List Event → Outcome
  ending [] = crashed unbound_local_error
  ending (malformed e ∷ rest) = crashed (unread e)
  ending (step b ∷ rest) = ending rest
  ending (message r ∷ rest) =
      let later = ending rest in
      if r.method == "exit"
      then exit_code failure
      else if r.method == "shutdown"
      then ending_after_shutdown rest
      else if names_document r.method
          && is_unparseable load parse_uri (uri_in load parse_uri r.method r.parameters)
      then crashed value_error
      else later
