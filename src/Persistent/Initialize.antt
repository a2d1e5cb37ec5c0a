-- ===== src/Persistent/Initialize.antt =====
-- The handshake with the editor: try_initialize, and the loop of run_persistent around it
-- (client/commands/v2/persistent.py).
pub mod Handshake
pub mod Rounds
use pyre_check.JsonRpc.{
  by_name, by_position, Request, RequestId, Parameters, RpcError, unbound_local_error, Exception,
  invalid_request, parse_error, server_not_initialized,
}
use pyre_check.Base.{
  [], ◌∷◌, ◌++◌, List, refl, ◌≡◌, some, none, Option, true, false, Bool, arith, String, ◌==◌, ap,
  ok, err, Result, inl, inr, ◌>>=◌, ◌>>◌, if◌then◌else◌, ℕ, guard, suc, zero,
}
use pyre_check.Json.{Fields}

-- A message of the editor, as read_json_rpc gives it or fails. The end of the input is a ParseError.
pub data Incoming : Type 0 where
  message : Request → Incoming
  malformed : RpcError → Incoming

-- What is written: the result of the request, or an exception's code with the advice not to retry.
pub data Reply : Type 0 where
  initialize_result : RequestId → Reply
  no_retry : RequestId → RpcError → Reply

-- `load` is the schema of InitializeParameters, which gives the client's capabilities.
module _ (Capabilities : Type 0) (load : Fields → Option Capabilities) where
  pub data Initialization : Type 0 where
    success : Capabilities → Initialization
    failure : Option RpcError → Initialization
    exits : Initialization
    crashed : Exception → Initialization

  loaded : Option Capabilities → Result RpcError Capabilities
  loaded none = err invalid_request
  loaded (some capabilities) = ok capabilities

  parameters_of : Option Parameters → Result RpcError Capabilities
  unfolding loaded
  parameters_of none = err server_not_initialized
  parameters_of (some (by_position values)) = err invalid_request
  parameters_of (some (by_name values)) = loaded (load values)

  -- The checks of the request, up to the result that is written.
  unfoldable pub accept : Request → Result RpcError Capabilities
  unfolding parameters_of
  accept r =
      if r.method == "initialize" then parameters_of r.parameters else err server_not_initialized

  confirmed : Incoming → Result RpcError (Unit {0})
  confirmed (malformed e) = err e
  confirmed (message n) = guard (n.method == "initialized") server_not_initialized

  -- The second message, and what is left behind it.
  unfoldable pub confirm : List Incoming → Result RpcError (Unit {0}) × List Incoming
  unfolding confirmed
  confirm [] = (err parse_error, [])
  confirm (m ∷ rest) = (confirmed m, rest)

  -- The outcome, what is written, and the messages that are left.
  pub record Attempt : Type 0 where
    pub outcome : Initialization
    pub written : List Reply
    pub left : List Incoming

  confirmation : RequestId → Capabilities → Result RpcError (Unit {0}) × List Incoming → Attempt
  confirmation id capabilities (ok _, rest) = record {
    outcome = success capabilities;
    written = initialize_result id ∷ [];
    left = rest;
  }
  confirmation id capabilities (err e, rest) = record {
    outcome = failure (some e);
    written = initialize_result id ∷ no_retry id e ∷ [];
    left = rest;
  }

  acceptance : RequestId → Result RpcError Capabilities → List Incoming → Attempt
  unfolding confirmation confirm
  acceptance id (err e) rest = record {
    outcome = failure (some e);
    written = no_retry id e ∷ [];
    left = rest;
  }
  acceptance id (ok capabilities) rest = confirmation id capabilities (confirm rest)

  attempt : Request → Option RequestId → List Incoming → Attempt
  unfolding acceptance accept
  attempt r none rest = record {
    outcome = if r.method == "exit" then exits else failure none;
    written = [];
    left = rest;
  }
  attempt r (some id) rest = acceptance id (accept r) rest

  -- Where the first read fails, the handler names the request before it is bound.
  unfoldable pub try_initialize : List Incoming → Attempt
  unfolding attempt
  try_initialize [] = record { outcome = crashed unbound_local_error; written = []; left = [] }
  try_initialize (malformed e ∷ rest) = record {
    outcome = crashed unbound_local_error;
    written = [];
    left = rest;
  }
  try_initialize (message r ∷ rest) = attempt r r.id rest

  -- What the loop comes to: the server runs on the messages that are left, the process ends with an
  -- exit code, or it crashes. Each attempt reads a message, so there are enough rounds where there
  -- are more than there are messages; `unfinished` is a loop that has run out of them.
  pub data Session : Type 0 where
    serves : Capabilities → List Incoming → Session
    exit_code : ℕ → Session
    crashes : Exception → Session
    unfinished : Session

  round : Initialization → List Incoming → Session → Session
  round (success capabilities) left later = serves capabilities left
  round (failure e) left later = later
  round exits left later = exit_code 0
  round (crashed e) left later = crashes e

  pub run_persistent : ℕ → List Incoming → Session
  unfolding round try_initialize
  run_persistent zero incoming = unfinished
  run_persistent (suc fuel) incoming =
      let tried = try_initialize incoming in
      let later = run_persistent fuel tried.left in round tried.outcome tried.left later
