-- ===== src/Persistent/Initialize/Handshake.antt =====
-- About try_initialize (client/commands/v2/persistent.py).
use pyre_check.Persistent.Initialize.{
  message, malformed, success, failure, exits, Incoming, parameters_of, loaded, accept, acceptance,
  attempt, confirm, confirmation, try_initialize, confirmed, Initialization, initialize_result,
  no_retry,
}
use pyre_check.JsonRpc.{by_name, by_position, Request, Parameters, RequestId, RpcError}
use pyre_check.Json.{Fields}
use pyre_check.Base.{
  refl, ◌≡◌, some, none, Option, ◌==◌, ok, inl, inr, ◌↔◌, Bool-cases, Option-cases, eq_iff, List,
  Result, ◌∷◌, Bool, ap, err, if◌then◌else◌, subst, ◌∙◌, [], ◌≢◌, true, false,
}

module _ (Capabilities : Type 0) (load : Fields → Option Capabilities) where
  -- A request to initialize whose parameters are passed by name and have the capabilities.
  abbrev pub Initializes : Request → Capabilities → Type 0
  Initializes r capabilities =
      (r.method ≡ "initialize")
      × ((values : Fields) × (r.parameters ≡ some (by_name values))
          × (load values ≡ some capabilities))

  parameters_of_iff :
      (o : Option Parameters) (capabilities : Capabilities)
      → (parameters_of Capabilities load o ≡ ok capabilities)
        ↔ ((values : Fields) × (o ≡ some (by_name values)) × (load values ≡ some capabilities))
  unfolding parameters_of loaded
  parameters_of_iff none c = (λ h. cc, λ h. let (values, e, l) = h in cc)
  parameters_of_iff (some (by_position items)) c = (λ h. cc, λ h. let (values, e, l) = h in cc)
  parameters_of_iff (some (by_name fields)) c = elim (Option-cases (load fields)) [
    | inl e ↦ rw e (λ h. cc, λ h. let (values, same, l) = h in cc (e, l, same))
    | inr (given, e) ↦ rw e (
      λ h. (fields, refl, cc),
      λ h.
          let (values, same, l) = h in
          let is_fields : values ≡ fields = cc (same) in
          let again : load fields ≡ some c = rw is_fields at l in cc (e, again),
    )
  ]

  accept_iff :
      (r : Request) (capabilities : Capabilities)
      → (accept Capabilities load r ≡ ok capabilities) ↔ Initializes r capabilities
  unfolding accept
  accept_iff r c = elim (Bool-cases (r.method == "initialize")) [
    | inl e ↦
        let params = parameters_of_iff r.parameters c in
        rw e (λ h. ((eq_iff r.method "initialize").0 e, params.0 h), λ h. params.1 h.1)
    | inr e ↦ rw e (λ h. cc, λ h. cc (e, (eq_iff r.method "initialize").1 h.0))
  ]

  -- The next message is the notification that the client has been initialized.
  abbrev pub Confirms : List Incoming → Type 0
  Confirms rest =
      (n : Request) × (later : List Incoming) × (rest ≡ message n ∷ later)
      × (n.method ≡ "initialized")

  confirm_iff :
      (rest : List Incoming) → ((confirm Capabilities load rest).0 ≡ ok tt) ↔ Confirms rest
  unfolding confirm confirmed
  confirm_iff [] = (λ h. cc, λ h. let (n, later, same, e) = h in cc)
  confirm_iff (malformed e ∷ rest) = (λ h. cc, λ h. let (n, later, same, e') = h in cc)
  confirm_iff (message m ∷ rest) = elim (Bool-cases (m.method == "initialized")) [
    | inl e ↦ rw e (λ h. (m, rest, refl, (eq_iff m.method "initialized").0 e), λ h. refl)
    | inr e ↦ rw e (
      λ h. cc,
      λ h.
          let (n, later, same, is_initialized) = h in
          let is_m : m ≡ n = cc (same) in
          cc (
            e,
            (eq_iff m.method "initialized").1
                (ap (λ (x : Request). x.method) is_m ∙ is_initialized),
          ),
    )
  ]

  confirmation_iff :
      (id : RequestId) (given c : Capabilities) (r : Result RpcError (Unit {0}) × List Incoming)
      → ((confirmation Capabilities load id given r).outcome ≡ success c)
        ↔ ((given ≡ c) × (r.0 ≡ ok tt))
  unfolding confirmation
  confirmation_iff id given c (ok _, rest) = (λ h. (cc, refl), λ h. ap success h.0)
  confirmation_iff id given c (err e, rest) = (λ h. cc, λ h. cc (h.1))

  acceptance_iff :
      (id : RequestId) (a : Result RpcError Capabilities) (rest : List Incoming) (c : Capabilities)
      → ((acceptance Capabilities load id a rest).outcome ≡ success c)
        ↔ ((a ≡ ok c) × Confirms rest)
  unfolding acceptance
  acceptance_iff id (err e) rest c = (λ h. cc, λ h. cc (h.0))
  acceptance_iff id (ok given) rest c =
      let inner = confirmation_iff id given c (confirm Capabilities load rest) in
      (
        λ h. let (same, confirmed) = inner.0 h in (ap ok same, (confirm_iff rest).0 confirmed),
        λ h. let same : given ≡ c = cc (h.0) in inner.1 (same, (confirm_iff rest).1 h.1),
      )

  attempt_iff :
      (r : Request) (o : Option RequestId) (rest : List Incoming) (c : Capabilities)
      → ((attempt Capabilities load r o rest).outcome ≡ success c)
        ↔ ((id : RequestId) × (o ≡ some id) × Initializes r c × Confirms rest)
  unfolding attempt
  attempt_iff r none rest c =
      (λ h. absurd (no_notification (r.method == "exit") h), λ h. let (id, e, i, k) = h in cc)
    where
      left_alone : Bool → Initialization Capabilities load
      left_alone b = if b then exits else failure none

      no_notification : (b : Bool) → left_alone b ≢ success c
      no_notification true h = cc
      no_notification false h = cc
  attempt_iff r (some id) rest c =
      let inner = acceptance_iff id (accept Capabilities load r) rest c in
      (
        λ h.
            let (accepted, confirms) = inner.0 h in
            (id, refl, (accept_iff r c).0 accepted, confirms),
        λ h.
            let (same_id, e, initializes, confirms) = h in
            inner.1 ((accept_iff r c).1 initializes, confirms),
      )

  -- The handshake succeeds with the client's capabilities exactly when the first message is a request
  -- to initialize that has an id and those capabilities, and the second message has the method
  -- `initialized`.
  pub try_initialize_success_iff :
      (incoming : List Incoming) (c : Capabilities)
      → ((try_initialize Capabilities load incoming).outcome ≡ success c) ↔ (
          (r : Request) × (rest : List Incoming) × (id : RequestId) × (incoming ≡ message r ∷ rest)
          × (r.id ≡ some id)
          × Initializes r c
          × Confirms rest)
  unfolding try_initialize
  try_initialize_success_iff [] c = (λ h. cc, λ h. let (r, rest, id, e, has_id, i, k) = h in cc)
  try_initialize_success_iff (malformed f ∷ later) c =
      (λ h. cc, λ h. let (r, rest, id, e, has_id, i, k) = h in cc)
  try_initialize_success_iff (message m ∷ later) c =
      let inner = attempt_iff m m.id later c in
      (
        λ h. let (id, has_id, i, k) = inner.0 h in (m, later, id, refl, has_id, i, k),
        λ h.
            let (r, rest, id, e, has_id, i, k) = h in
            let is_m : r ≡ m = cc (e) in
            let is_later : rest ≡ later = cc (e) in
            inner.1 (
              id,
              rw is_m at has_id,
              subst (λ (x : Request). Initializes x c) is_m i,
              subst Confirms is_later k,
            ),
      )

  confirmation_twice :
      (id i : RequestId) (given : Capabilities) (r : Result RpcError (Unit {0}) × List Incoming)
      (e : RpcError)
      → ((confirmation Capabilities load id given r).written
          ≡ initialize_result i ∷ no_retry i e ∷ [])
        ↔ ((id ≡ i) × (r.0 ≡ err e))
  unfolding confirmation
  confirmation_twice id i given (ok _, rest) e = (λ h. cc, λ h. cc (h.1))
  confirmation_twice id i given (err f, rest) e =
      (λ h. (cc, cc), λ h. let same : f ≡ e = cc (h.1) in rw (h.0, same))

  acceptance_twice :
      (id i : RequestId) (a : Result RpcError Capabilities) (rest : List Incoming) (e : RpcError)
      → ((acceptance Capabilities load id a rest).written ≡ initialize_result i ∷ no_retry i e ∷ [])
        ↔ ((id ≡ i)
            × ((c : Capabilities) × (a ≡ ok c))
            × ((confirm Capabilities load rest).0 ≡ err e))
  unfolding acceptance
  acceptance_twice id i (err f) rest e = (λ h. cc, λ h. let (same, (c, a), f) = h in cc)
  acceptance_twice id i (ok given) rest e =
      let inner = confirmation_twice id i given (confirm Capabilities load rest) e in
      (
        λ h. let (same, failed) = inner.0 h in (same, (given, refl), failed),
        λ h. let (same, (c, a), failed) = h in inner.1 (same, failed),
      )

  attempt_twice :
      (r : Request) (o : Option RequestId) (rest : List Incoming) (i : RequestId) (e : RpcError)
      → ((attempt Capabilities load r o rest).written ≡ initialize_result i ∷ no_retry i e ∷ []) ↔ (
          (o ≡ some i)
          × ((c : Capabilities) × Initializes r c)
          × ((confirm Capabilities load rest).0 ≡ err e))
  unfolding attempt
  attempt_twice r none rest i e = (λ h. cc, λ h. cc (h.0))
  attempt_twice r (some id) rest i e =
      let inner = acceptance_twice id i (accept Capabilities load r) rest e in
      (
        λ h.
            let (same, (c, accepted), failed) = inner.0 h in
            (ap some same, (c, (accept_iff r c).0 accepted), failed),
        λ h.
            let (same, (c, initializes), failed) = h in
            inner.1 (cc (same), (c, (accept_iff r c).1 initializes), failed),
      )

  -- A request is answered twice, with the result and then with an error, exactly when it is a request
  -- to initialize that has an id and the capabilities, and what follows is not the confirmation: the
  -- error is that of the second message, or ParseError at the end of the input.
  pub try_initialize_twice_iff :
      (r : Request) (rest : List Incoming) (id : RequestId) (e : RpcError)
      → ((try_initialize Capabilities load (message r ∷ rest)).written
          ≡ initialize_result id ∷ no_retry id e ∷ [])
        ↔ ((r.id ≡ some id)
            × ((c : Capabilities) × Initializes r c)
            × ((confirm Capabilities load rest).0 ≡ err e))
  unfolding try_initialize
  try_initialize_twice_iff r rest id e = attempt_twice r r.id rest id e
