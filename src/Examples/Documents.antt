-- ===== src/Examples/Documents.antt =====
-- Documents that are read: errors, answers and events of a server, and specifications of tests.
use pyre_check.Errors.{
  error_from_json, Error, error_of_fields, error_to_json, item, item_or, to_path,
}
use pyre_check.Json.{field, end, string, dict, int, array, cons, nil, Json, contains, get, elements}
use pyre_check.Base.{[], ◌∷◌, refl, ◌≡◌, some, Option, false, String, ok, pos, ◌↔◌, map_ok}
use pyre_check.ServerEvent.{wait_on}
use pyre_check.Specification.{
  RepositoryState, state_from_json, update_from_json, state_to_json, updated, batch, file_state, hg,
}
use pyre_check.Errors.Reads.{error_from_json-error_to_json}
use pyre_check.ServerEvent.Waiting.{AnnouncesSocket, Continues, wait_on_iff}
use pyre_check.Specification.States.{state_from_json-state_to_json}
use pyre_check.PathLib.{path, root_of, segments}

abbrev error_json : Json
error_json = dict (
    field "line" (int (pos 3)) (
      field "column" (int (pos 0)) (
        field "stop_line" (int (pos 3)) (
          field "stop_column" (int (pos 4)) (
            field "path" (string "a//b.py") (
              field "code" (int (pos 7))
                (field "name" (string "x") (field "description" (string "y") end))))))))

abbrev read_error : Error
read_error = record {
  line = int (pos 3);
  column = int (pos 0);
  stop_line = int (pos 3);
  stop_column = int (pos 4);
  file = record { root = ""; parts = "a" ∷ "b.py" ∷ [] };
  code = int (pos 7);
  name = string "x";
  description = string "y";
  long_description = string "";
  concise_description = string "";
}

reads_error : error_from_json error_json ≡ ok read_error
unfolding error_from_json error_of_fields item item_or get contains to_path path root_of segments
reads_error = refl

error_from_json-error_to_json_example :
    error_from_json (dict (error_to_json read_error)) ≡ ok read_error
error_from_json-error_to_json_example =
    error_from_json-error_to_json error_json read_error reads_error

-- A server that announces its socket on every line.
abbrev announces : String → Option Json
announces line = some (array (cons (string "SocketCreated") (cons (string "/tmp/s") nil)))

wait_on_iff_example : (wait_on announces false ("first" ∷ "second" ∷ []) ≡ ok ("second" ∷ [])) ↔ (
    AnnouncesSocket (announces "first") × Continues announces false ("second" ∷ []) ("second" ∷ []))
wait_on_iff_example = wait_on_iff announces false ("first" ∷ "second" ∷ []) ("second" ∷ [])

abbrev hg_json : Json
hg_json = dict (field "kind" (string "hg") (field "commit_hash" (string "abc") end))

abbrev batch_json : Json
batch_json = dict (field "updates" (array (cons hg_json nil)) (field "kind" (string "batch") end))

reads_batch : update_from_json batch_json ≡ ok (batch (hg (string "abc") ∷ []))
unfolding update_from_json contains get
reads_batch = refl

abbrev state_json : Json
state_json = dict (
    field "kind" (string "updated") (
      field "base" (dict (field "kind" (string "file") (field "files" (dict end) end)))
        (field "updates" (array (cons batch_json nil)) end)))

abbrev read_state : RepositoryState
read_state = updated (file_state end) (batch (hg (string "abc") ∷ []) ∷ [])

reads_state : state_from_json state_json ≡ ok read_state
unfolding state_from_json contains get map_ok elements update_from_json
reads_state = refl

state_from_json-state_to_json_example : state_from_json (state_to_json read_state) ≡ ok read_state
state_from_json-state_to_json_example =
    state_from_json-state_to_json state_json read_state reads_state
