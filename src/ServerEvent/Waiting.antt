-- ===== src/ServerEvent/Waiting.antt =====
-- About Waiter (client/commands/v2/server_event.py).
use pyre_check.Json.{dict, end, field, Json, Items, cons, array, string, Json, Items, nil}
use pyre_check.Base.{
  refl, ◌≡◌, some, Option, String, ◌>>=◌, ok, arith, eq_iff, none, ◌≢◌, Bool, List, ◌↔◌, false, ◌⊎◌,
  true, >>=-eq-ok, inl, inr,
}
use pyre_check.ServerEvent.{
  Parsed, Event, with_item, decoded_event, socket_event, required, server_initialized,
  socket_created, event_of_items, wait_on, parse_server_event, create_from_string, next_line,
  first_event, after_socket, second_event, server_exception,
}
use pyre_check.PathLib.{PurePath, path}

-- A JSON list that begins with the kind.
abbrev pub Announces : String → Option Json → Type 0
Announces kind document = (rest : Items) × (document ≡ some (array (cons (string kind) rest)))

-- A JSON list of the kind "SocketCreated", a path and perhaps more.
abbrev pub AnnouncesSocket : Option Json → Type 0
AnnouncesSocket document =
    (socket : String) × (rest : Items) × (document
      ≡ some (array (cons (string "SocketCreated") (cons (string socket) rest))))

abbrev event_of : Option Json → Parsed Event
event_of document = decoded_event document >>= required

kind_socket :
    (kind : String) (item : Json) (p : PurePath)
    → (with_item kind item >>= required) ≡ ok (socket_created p)
    → (kind ≡ "SocketCreated") × ((socket : String) × (item ≡ string socket))
unfolding with_item socket_event required
kind_socket kind (string s) p h = (ground (arith, eq_iff kind "SocketCreated"), (s, refl))
kind_socket kind _ p h = ground (arith, eq_iff kind "SocketCreated")

kind_initialized :
    (kind : String) (item : Json)
    → (with_item kind item >>= required) ≡ ok server_initialized
    → kind ≡ "ServerInitialized"
unfolding with_item socket_event required
kind_initialized kind (string s) h = ground (arith, eq_iff kind "ServerInitialized")
kind_initialized kind _ h = ground (arith, eq_iff kind "ServerInitialized")

alone :
    (kind : String)
    → event_of (some (array (cons (string kind) nil))) ≡ ok server_initialized
    → kind ≡ "ServerInitialized"
unfolding decoded_event event_of_items required
alone kind h = ground (arith, eq_iff kind "ServerInitialized")

alone_is_no_socket :
    (kind : String) (p : PurePath)
    → event_of (some (array (cons (string kind) nil))) ≢ ok (socket_created p)
unfolding decoded_event event_of_items required
alone_is_no_socket kind p h = ground arith

socket_announced :
    (document : Option Json) (p : PurePath)
    → event_of document ≡ ok (socket_created p)
    → AnnouncesSocket document
unfolding decoded_event event_of_items required
socket_announced none p h = cc
socket_announced (some (array (cons (string kind) (cons item rest)))) p h =
    let (is_socket, (socket, is_text)) = kind_socket kind item p h in (socket, rest, cc)
socket_announced (some (array (cons (string kind) nil))) p h = absurd (alone_is_no_socket kind p h)
socket_announced (some (dict end)) p h = cc
socket_announced (some (dict (field key value rest))) p h = cc
socket_announced (some _) p h = cc

announced_socket :
    (document : Option Json)
    → AnnouncesSocket document
    → (p : PurePath) × (event_of document ≡ ok (socket_created p))
unfolding decoded_event event_of_items with_item socket_event required
announced_socket document (socket, rest, e) = (path socket, rw e)

initialized_announced :
    (document : Option Json)
    → event_of document ≡ ok server_initialized
    → Announces "ServerInitialized" document
unfolding decoded_event event_of_items required
initialized_announced none h = cc
initialized_announced (some (array (cons (string kind) (cons item rest)))) h =
    let is_initialized = kind_initialized kind item h in (cons item rest, cc)
initialized_announced (some (array (cons (string kind) nil))) h =
    let is_initialized = alone kind h in (nil, cc)
initialized_announced (some (dict end)) h = cc
initialized_announced (some (dict (field key value rest))) h = cc
initialized_announced (some _) h = cc

announced_initialized :
    (document : Option Json)
    → Announces "ServerInitialized" document
    → event_of document ≡ ok server_initialized
unfolding decoded_event event_of_items with_item required
announced_initialized document (nil, e) = rw e
announced_initialized document (cons item rest, e) = rw e

module _ (loads : String → Option Json) where
  abbrev pub Continues : Bool → List String → List String → Type 0
  Continues wait_on_initialization lines rest =
      ((wait_on_initialization ≡ false) × (rest ≡ lines))
      ⊎ ((wait_on_initialization ≡ true)
          × Announces "ServerInitialized" (loads (next_line lines).0)
          × (rest ≡ (next_line lines).1))

  is_second : (event : Event) → second_event event ≡ ok tt → event ≡ server_initialized
  unfolding second_event
  is_second server_initialized h = refl
  is_second (socket_created p) h = cc
  is_second (server_exception m) h = cc

  after_socket-Continues :
      (wait : Bool) (lines rest : List String)
      → after_socket loads wait lines ≡ ok rest
      → Continues wait lines rest
  unfolding after_socket parse_server_event create_from_string
  after_socket-Continues false lines rest h = inl (refl, cc)
  after_socket-Continues true lines rest h =
      let (event, read, h₁) = >>=-eq-ok (event_of (loads (next_line lines).0)) _ h in
      let (u, second, h₂) = >>=-eq-ok (second_event event) _ h₁ in
      let announced =
        initialized_announced (loads (next_line lines).0) (rw (is_second event second) at read) in
      inr (refl, announced, cc)

  Continues-after_socket :
      (wait : Bool) (lines rest : List String)
      → Continues wait lines rest
      → after_socket loads wait lines ≡ ok rest
  unfolding after_socket parse_server_event create_from_string second_event
  Continues-after_socket wait lines rest (inl (no_wait, e)) = rw (no_wait, e)
  Continues-after_socket wait lines rest (inr (waits, announced, e)) =
      rw (waits, after_socket, announced_initialized (loads (next_line lines).0) announced, e)

  -- The waiter returns exactly when the first line announces a socket and, if it is to wait for the
  -- initialization, the second line announces that; it has read one line, or two.
  pub wait_on_iff :
      (wait_on_initialization : Bool) (events rest : List String)
      → (wait_on loads wait_on_initialization events ≡ ok rest) ↔ (
          AnnouncesSocket (loads (next_line events).0)
          × (((wait_on_initialization ≡ false) × (rest ≡ (next_line events).1))
              ⊎ ((wait_on_initialization ≡ true)
                  × Announces "ServerInitialized" (loads (next_line (next_line events).1).0)
                  × (rest ≡ (next_line (next_line events).1).1))))
  unfolding wait_on parse_server_event create_from_string first_event
  wait_on_iff wait events rest = (
    λ h.
        let (event, first, h₁) = >>=-eq-ok (event_of (loads (next_line events).0)) _ h in
        after_first event first h₁,
    λ h.
        let (p, read) = announced_socket (loads (next_line events).0) h.0 in
        rw (wait_on, read) (Continues-after_socket wait (next_line events).1 rest h.1),
  )
    where
      after_first :
          (event : Event)
          → event_of (loads (next_line events).0) ≡ ok event
          → first_event loads wait event (next_line events).1 ≡ ok rest
          → AnnouncesSocket (loads (next_line events).0) × Continues wait (next_line events).1 rest
      after_first (socket_created p) e h = (
        socket_announced (loads (next_line events).0) p e,
        after_socket-Continues wait (next_line events).1 rest h,
      )
      after_first server_initialized e h = cc
      after_first (server_exception m) e h = cc
