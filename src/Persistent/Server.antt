-- ===== src/Persistent/Server.antt =====
-- Server and PyreServerHandler of client/commands/v2/persistent.py, with BackgroundTaskManager of
-- client/commands/v2/async_server_connection.py. Events happen one after another: a message of the
-- editor, or a step of the background task. What a handler writes while it waits is written at once.
pub mod Sync
use pyre_check.Base.{
  [], ◌∷◌, ◌++◌, List, refl, ◌≡◌, some, none, Option, true, false, Bool, arith, String, ◌==◌, ap,
  ok, err, Result, inl, inr, ◌>>=◌, ◌>>◌, if◌then◌else◌, keep, not, ℤ, ◌&&◌,
}
use pyre_check.Persistent.Diagnostics.{
  Diagnostic, DiagnosticMap, TypeError, lookup, type_errors_to_diagnostics,
}
use pyre_check.Configuration.Parse.{among}
use pyre_check.JsonRpc.{RequestId}

-- Where the background task is: not running, connecting to a Pyre server, starting one, or reading
-- the type errors of one.
pub data Phase : Type 0 where
  idle connecting launching subscribed : Phase

-- MessageType, as far as it is used.
pub data Level : Type 0 where
  error_level warning_level info_level : Level

-- What is written to the editor.
pub data Message : Type 0 where
  publish : String → List Diagnostic → Message
  show_message : Level → Message
  error_response : Option RequestId → ℤ → Message

-- ServerState, the background task and what has been written, the newest first.
pub record World : Type 0 where
  pub opened_documents : List String
  pub diagnostics : DiagnosticMap
  pub phase : Phase
  pub output : List Message

abbrev pub fresh : World
fresh = record { opened_documents = []; diagnostics = []; phase = idle; output = [] }

abbrev pub write : Message → World → World
write message w = record w { output = message ∷ w.output }

abbrev pub is_task_running : World → Bool
is_task_running w = elim w.phase [ idle ↦ false | _ ↦ true ]

unfoldable pub ensure_task_running : World → World
ensure_task_running w = if is_task_running w then w else record w { phase = connecting }

-- `set.add` and `set.remove`
abbrev pub add_document : String → List String → List String
add_document file opened = if among file opened then opened else file ∷ opened

abbrev pub remove_document : String → List String → List String
remove_document file opened = keep (λ other. not (other == file)) opened

publish_if_any : String → Option (List Diagnostic) → World → World
publish_if_any file none w = w
publish_if_any file (some diagnostics) w = write (publish file diagnostics) w

unfoldable pub process_open_request : String → World → World
unfolding publish_if_any ensure_task_running
process_open_request file w =
    let w' = record w { opened_documents = add_document file w.opened_documents } in
    if not (is_task_running w')
    then ensure_task_running w'
    else publish_if_any file (lookup file w.diagnostics) w'

clear_if_any : String → Option (List Diagnostic) → World → World
clear_if_any file none w = w
clear_if_any file (some diagnostics) w = write (publish file []) w

-- Closing a file that is not open is a KeyError, which is caught and logged.
unfoldable pub process_close_request : String → World → World
unfolding clear_if_any
process_close_request file w =
    let w' = record w { opened_documents = remove_document file w.opened_documents } in
    if among file w.opened_documents then clear_if_any file (lookup file w.diagnostics) w' else w

unfoldable pub process_did_save_request : String → World → World
unfolding ensure_task_running
process_did_save_request file w =
    if not (is_task_running w) && among file w.opened_documents then ensure_task_running w else w

-- show_type_errors_to_client: each open file is cleared and gets its diagnostics.
show_file : String → Option (List Diagnostic) → List Message → List Message
show_file file none output = publish file [] ∷ output
show_file file (some diagnostics) output = publish file diagnostics ∷ publish file [] ∷ output

show_files : DiagnosticMap → List String → List Message → List Message
unfolding show_file
show_files diagnostics [] output = output
show_files diagnostics (file ∷ files) output =
    show_files diagnostics files (show_file file (lookup file diagnostics) output)

unfoldable pub show_type_errors_to_client : World → World
unfolding show_files
show_type_errors_to_client w = record w {
  output = show_files w.diagnostics w.opened_documents w.output;
}

unfoldable pub update_type_errors : List TypeError → World → World
update_type_errors errors w = record w { diagnostics = type_errors_to_diagnostics errors }

-- What the background task may do next. `type_errors` is a message of the Pyre server, the first
-- answer or one of the own subscription; `lost` ends the subscription, `quits` a task that has none.
pub data Background : Type 0 where
  established launches launched launch_failed lost quits : Background
  type_errors : List TypeError → Background

-- The `finally` of subscribe_to_type_error, and of `_run_task`.
unfoldable pub lose_connection : World → World
unfolding show_type_errors_to_client
lose_connection w =
    let w' = record (write (show_message warning_level) w) { diagnostics = [] } in
    record (show_type_errors_to_client w') { phase = idle }

-- PyreServerHandler.run. A step that the task cannot take in its phase does not happen.
unfoldable pub background : Background → Phase → World → World
unfolding lose_connection update_type_errors show_type_errors_to_client
background established connecting w = record (write (show_message info_level) w) {
  phase = subscribed;
}
background launches connecting w = record (write (show_message info_level) w) { phase = launching }
background launched launching w = record (write (show_message info_level) w) { phase = subscribed }
background launch_failed launching w = record (write (show_message error_level) w) { phase = idle }
background (type_errors errors) subscribed w =
    show_type_errors_to_client (update_type_errors errors w)
background lost subscribed w = lose_connection w
background quits connecting w = record w { phase = idle }
background quits launching w = record w { phase = idle }
background _ _ w = w

-- ensure_task_stop: a task that is subscribed runs its `finally`.
stop_task : Phase → World → World
unfolding lose_connection
stop_task subscribed w = lose_connection w
stop_task idle w = w
stop_task _ w = record w { phase = idle }

unfoldable pub ensure_task_stop : World → World
unfolding stop_task
ensure_task_stop w = stop_task w.phase w
