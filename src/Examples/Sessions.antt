-- ===== src/Examples/Sessions.antt =====
-- A session of the language server.
use pyre_check.Base.{[], ◌∷◌, List, refl, ◌≡◌, some, none, Option, String, pos, if◌then◌else◌, ◌==◌}
use pyre_check.Json.{Fields, as_string?, get, field, string, end}
use pyre_check.Persistent.Diagnostics.{
  TypeError, lookup, type_errors_to_diagnostics, type_error_to_diagnostic,
}
use pyre_check.Persistent.Requests.{
  DocumentUri, Event, run, message, run_loop, step, crashed, handle, document_path,
}
use pyre_check.Persistent.Server.Sync.{IsSynced}
use pyre_check.Persistent.Server.{fresh, established, type_errors, lost}
use pyre_check.JsonRpc.{by_name, value_error}
use pyre_check.PathLib.{path, path_text}
use pyre_check.Persistent.Requests.Outcomes.{run_loop-IsSynced}
use pyre_check.Persistent.Diagnostics.Grouping.{lookup-type_errors_to_diagnostics}

abbrev uri_of : String → Fields → Option String
uri_of method fields = as_string? (get "uri" fields)

abbrev file_uri : String → Option DocumentUri
file_uri uri =
    if uri == "file://["
    then none
    else some (record { scheme = "file"; authority = ""; file = uri; query = ""; fragment = "" })

abbrev opens : Event
opens = message (record {
  method = "textDocument/didOpen";
  id = none;
  parameters = some (by_name (field "uri" (string "/a.py") end));
})

abbrev bad_line : TypeError
bad_line = record {
  line = pos 3;
  column = pos 0;
  stop_line = pos 3;
  stop_column = pos 4;
  file = "/a.py";
  description = "Incompatible return type";
}

abbrev exits : Event
exits = message (record { method = "exit"; id = none; parameters = none })

abbrev session : List Event
session = step established ∷ opens ∷ step (type_errors (bad_line ∷ [])) ∷ step lost ∷ exits ∷ []

fresh-IsSynced : IsSynced fresh
unfolding lookup
fresh-IsSynced = record { shown = λ file. refl; empty = λ p. refl }

run_loop-IsSynced_example : IsSynced (run_loop uri_of file_uri session fresh).1
run_loop-IsSynced_example = run_loop-IsSynced uri_of file_uri session fresh fresh-IsSynced

lookup-type_errors_to_diagnostics_example :
    lookup "/a.py" (type_errors_to_diagnostics (bad_line ∷ []))
    ≡ some (type_error_to_diagnostic bad_line ∷ [])
lookup-type_errors_to_diagnostics_example =
    lookup-type_errors_to_diagnostics "/a.py" (bad_line ∷ [])

abbrev opens_unparseable : Event
opens_unparseable = message (record {
  method = "textDocument/didOpen";
  id = none;
  parameters = some (by_name (field "uri" (string "file://[") end));
})

unparseable_test :
    (run uri_of file_uri (opens ∷ opens_unparseable ∷ exits ∷ [])).0 ≡ crashed value_error
unfolding run run_loop handle document_path get path path_text
unparseable_test = refl
