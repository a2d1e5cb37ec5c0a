-- ===== src/ServerEvent.antt =====
-- client/commands/v2/server_event.py: what a Pyre server that starts says, and who waits for it. The
-- synchronous and the asynchronous waiter are the same code.
pub mod Waiting
use pyre_check.Json.{
  cons, nil, null, array, string, dict, int, float, bool, end, field, Items, Json,
}
use pyre_check.Base.{
  [], ◌∷◌, ◌++◌, List, refl, ◌≡◌, some, none, Option, true, false, Bool, arith, String, ◌==◌, ap,
  ok, err, Result, inl, inr, ◌>>=◌, ◌>>◌, if◌then◌else◌,
}
use pyre_check.PathLib.{PurePath, path}

pub data Event : Type 0 where
  socket_created : PurePath → Event
  server_initialized : Event
  server_exception : Json → Event

-- EventParsingException, and what Python raises where the JSON has another shape.
pub data EventError : Type 0 where
  unrecognized type_error key_error : EventError
  failed_to_start : Json → EventError
  unexpected_initial unexpected_second : Event → EventError

abbrev pub Parsed {ℓ} : Type ℓ → Type ℓ
Parsed A = Result EventError A

-- `SocketCreated(socket_path=Path(...))`
socket_event : Json → Parsed (Option Event)
socket_event (string s) = ok (some (socket_created (path s)))
socket_event _ = err type_error

-- The kinds with a second item.
with_item : String → Json → Parsed (Option Event)
unfolding socket_event
with_item kind item =
    if kind == "SocketCreated"
    then socket_event item
    else if kind == "ServerInitialized"
    then ok (some server_initialized)
    else if kind == "Exception"
    then ok (some (server_exception item))
    else ok none

event_of_items : Items → Parsed (Option Event)
unfolding with_item
event_of_items (cons (string kind) nil) =
    if kind == "ServerInitialized" then ok (some server_initialized) else ok none
event_of_items (cons (string kind) (cons item rest)) = with_item kind item
event_of_items _ = ok none

-- A text has a length and a first character, a dict has a length and no key 0, and the rest have no
-- length.
event_of_json : Json → Parsed (Option Event)
unfolding event_of_items
event_of_json (array items) = event_of_items items
event_of_json (string text) = ok none
event_of_json (dict end) = ok none
event_of_json (dict (field key value rest)) = err key_error
event_of_json _ = err type_error

required : Option Event → Parsed Event
required none = err unrecognized
required (some (server_exception message)) = err (failed_to_start message)
required (some event) = ok event

decoded_event : Option Json → Parsed (Option Event)
unfolding event_of_json
decoded_event none = ok none
decoded_event (some json) = event_of_json json

-- `readline`, which gives an empty text at the end of the stream, and the lines that are left.
abbrev pub next_line : List String → String × List String
next_line [] = ("", [])
next_line (line ∷ rest) = (line, rest)

second_event : Event → Parsed (Unit {0})
second_event server_initialized = ok tt
second_event event = err (unexpected_second event)

-- `loads` is json.loads on a line without its surrounding white space.
module _ (loads : String → Option Json) where
  unfoldable pub create_from_string : String → Parsed (Option Event)
  unfolding decoded_event
  create_from_string text = decoded_event (loads text)

  unfoldable pub parse_server_event : String → Parsed Event
  unfolding required
  parse_server_event text = create_from_string text >>= required

  after_socket : Bool → List String → Parsed (List String)
  unfolding second_event
  after_socket false rest = ok rest
  after_socket true rest = do
    event ← parse_server_event (next_line rest).0
    second_event event
    ok (next_line rest).1

  first_event : Bool → Event → List String → Parsed (List String)
  unfolding after_socket
  first_event wait_on_initialization (socket_created socket_path) rest =
      after_socket wait_on_initialization rest
  first_event wait_on_initialization event rest = err (unexpected_initial event)

  -- The lines that are left where the waiter returns.
  unfoldable pub wait_on : Bool → List String → Parsed (List String)
  unfolding first_event
  wait_on wait_on_initialization events = do
    event ← parse_server_event (next_line events).0
    first_event wait_on_initialization event (next_line events).1
