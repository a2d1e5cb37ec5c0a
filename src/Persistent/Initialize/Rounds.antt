-- ===== src/Persistent/Initialize/Rounds.antt =====
-- About the loop of run_persistent (client/commands/v2/persistent.py).
use pyre_check.Persistent.Initialize.{
  Session, unfinished, round, run_persistent, message, malformed, success, failure, exits, crashed,
  Incoming, accept, acceptance, attempt, confirm, confirmation, try_initialize, Initialization,
}
use pyre_check.JsonRpc.{Request, RequestId, RpcError}
use pyre_check.Json.{Fields}
use pyre_check.Base.{
  refl, ◌≡◌, some, none, Option, ok, List, Result, ◌∷◌, err, [], ◌≢◌, length, ℕ, ◌≤◌, arith, ◌<◌,
  suc, zero,
}

module _ (Capabilities : Type 0) (load : Fields → Option Capabilities) where
  confirmation-left :
      (id : RequestId) (given : Capabilities) (r : Result RpcError (Unit {0}) × List Incoming)
      → (confirmation Capabilities load id given r).left ≡ r.1
  unfolding confirmation
  confirmation-left id given (ok _, rest) = refl
  confirmation-left id given (err e, rest) = refl

  confirm-shorter : (rest : List Incoming) → length (confirm Capabilities load rest).1 ≤ length rest
  unfolding confirm
  confirm-shorter [] = omega arith
  confirm-shorter (m ∷ rest) = omega arith

  attempt-left :
      (r : Request) (o : Option RequestId) (rest : List Incoming)
      → length (attempt Capabilities load r o rest).left ≤ length rest
  unfolding attempt
  attempt-left r none rest = omega arith
  attempt-left r (some id) rest = by_acceptance (accept Capabilities load r)
    where
      le_self : (n : ℕ) → n ≤ n
      le_self n = omega arith

      by_acceptance :
          (a : Result RpcError Capabilities)
          → length (acceptance Capabilities load id a rest).left ≤ length rest
      by_acceptance (err e) = le_self (length rest)
      by_acceptance (ok c) =
          rw (confirmation-left id c (confirm Capabilities load rest)) (confirm-shorter rest)

  round-ends :
      (o : Initialization Capabilities load) (left : List Incoming)
      (later : Session Capabilities load)
      → later ≢ unfinished
      → round Capabilities load o left later ≢ unfinished
  unfolding round
  round-ends (success c) left later h = λ p. cc
  round-ends (failure e) left later h = h
  round-ends exits left later h = λ p. cc
  round-ends (crashed e) left later h = λ p. cc

  -- The loop of `run_persistent` ends, in fewer rounds than there are messages and one more.
  pub run_persistent_ends :
      (fuel : ℕ) (incoming : List Incoming)
      → length incoming < fuel
      → run_persistent Capabilities load fuel incoming ≢ unfinished
  unfolding run_persistent try_initialize round
  run_persistent_ends zero incoming h = elim h [ ]
  run_persistent_ends (suc fuel) [] h = λ p. cc
  run_persistent_ends (suc fuel) (malformed e ∷ rest) h = λ p. cc
  run_persistent_ends (suc fuel) (message r ∷ rest) h =
      round-ends (attempt Capabilities load r r.id rest).outcome _ _ (
        run_persistent_ends fuel (attempt Capabilities load r r.id rest).left
          (omega (arith, attempt-left r r.id rest)))
