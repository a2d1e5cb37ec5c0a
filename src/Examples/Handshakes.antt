-- ===== src/Examples/Handshakes.antt =====
-- A handshake of an editor with the language server.
use pyre_check.Persistent.Initialize.{message, success, try_initialize, Incoming}
use pyre_check.JsonRpc.{Request, whole, by_name, RequestId}
use pyre_check.Json.{Fields, end, number}
use pyre_check.Base.{[], ◌∷◌, List, ◌≡◌, some, none, Option, String, ◌↔◌, pos}
use pyre_check.Persistent.Initialize.Handshake.{Initializes, Confirms, try_initialize_success_iff}

-- A schema that accepts every client.
abbrev load : Fields → Option String
load values = some "any"

abbrev initialize : Request
initialize = record {
  method = "initialize";
  id = some (whole (number (pos 1)));
  parameters = some (by_name end);
}

abbrev initialized : Request
initialized = record { method = "initialized"; id = none; parameters = none }

abbrev exit : Request
exit = record { method = "exit"; id = none; parameters = none }

try_initialize_success_iff_example :
    ((try_initialize String load (message initialize ∷ message initialized ∷ [])).outcome
      ≡ success "any")
    ↔ ((r : Request) × (rest : List Incoming) × (id : RequestId) × (message initialize
            ∷ message initialized
            ∷ []
          ≡ message r ∷ rest)
        × (r.id ≡ some id)
        × Initializes String load r "any"
        × Confirms String load rest)
try_initialize_success_iff_example =
    try_initialize_success_iff String load (message initialize ∷ message initialized ∷ []) "any"
