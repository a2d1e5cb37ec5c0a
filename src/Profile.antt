-- ===== src/Profile.antt =====
-- The log of client/commands/profile.py: its events, and the views of them that are printed.
-- `parse_event` reads the event of a line, or raises.
pub mod Updates
pub mod Log
use Prim.Native.String
use pyre_check.Base.{
  Dict, List, [], ◌∷◌, ok, err, Result, ◌>>=◌, if◌then◌else◌, Option, some, none, ℕ, zero, suc, ℤ,
  pos, negsuc, Bool, String, ◌==◌, set_item, get_item, map_ok, map, ◌+◌, ◌-◌, leb,
}
use pyre_check.Texts.{Bytes, codes, strip, is_empty, parse_int}
use pyre_check.Texts.Lines.{split_lines}

pub record EventMetadata : Type 0 where
  pub name : String
  pub worker_id : ℤ
  pub pid : ℤ
  pub timestamp : ℤ
  pub tags : Dict String

-- DurationEvent and CounterEvent; an event of the class Event itself cannot be made.
pub data Event : Type 0 where
  duration_event : EventMetadata → ℤ → Event
  counter_event : EventMetadata → Option String → Event

unfoldable pub metadata_of : Event → EventMetadata
metadata_of (duration_event metadata duration) = metadata
metadata_of (counter_event metadata description) = metadata

-- The RuntimeError with the number of a line, and the ValueError of `int`.
pub data ProfileError : Type 0 where
  malformed_line : ℕ → ProfileError
  invalid_literal : ProfileError

abbrev pub Profiled {ℓ} : Type ℓ → Type ℓ
Profiled A = Result ProfileError A

-- `int(text)`
int_or_raise : Option ℤ → Profiled ℤ
int_or_raise (some value) = ok value
int_or_raise none = err invalid_literal

int_of : String → Profiled ℤ
unfolding int_or_raise parse_int
int_of text = int_or_raise (parse_int (codes text))

-- The phase of an event with its duration, and the number of the dependencies if there is one.
add_phase : Option String → Option String → ℤ → Dict ℤ → Profiled (Dict ℤ)
unfolding int_of
add_phase none dependencies duration result = ok result
add_phase (some phase_name) none duration result = ok (set_item phase_name duration result)
add_phase (some phase_name) (some dependencies) duration result = int_of dependencies >>= λ count.
    ok (
      set_item (String.◌++◌ phase_name ": triggered dependencies") count
        (set_item phase_name duration result))

unfoldable pub add_phase_duration_to_result : EventMetadata → ℤ → Dict ℤ → Profiled (Dict ℤ)
unfolding add_phase
add_phase_duration_to_result metadata duration result =
    add_phase (get_item "phase_name" metadata.tags)
      (get_item "number_of_triggered_dependencies" metadata.tags) duration result

or_malformed : {A : Type 0} → ℕ → Option A → Profiled A
or_malformed line (some a) = ok a
or_malformed line none = err (malformed_line line)

unfoldable pub parse_lines : (Bytes → Option Event) → ℕ → List Bytes → Profiled (List Event)
unfolding or_malformed strip is_empty
parse_lines parse_event index [] = ok []
parse_lines parse_event index (line ∷ lines) =
    let rest = parse_lines parse_event (index + 1) lines in
    if is_empty (strip line)
    then rest
    else or_malformed (index + 1) (parse_event (strip line)) >>= λ event.
        rest >>= λ events. ok (event ∷ events)

unfoldable pub parse_events : (Bytes → Option Event) → Bytes → Profiled (List Event)
unfolding parse_lines split_lines
parse_events parse_event input = parse_lines parse_event 0 (split_lines input)

-- The dict that is printed for an event; `args` of a counter are numbers.
pub data TraceEvent : Type 0 where
  complete : (pid tid ts : ℤ) (name : String) (dur : ℤ) (args : Dict String) → TraceEvent
  counter : (pid tid ts : ℤ) (name : String) (args : Dict ℤ) → TraceEvent

-- a - b on the native numbers.
abbrev pub difference : ℕ → ℕ → ℤ
difference a b = if leb b a then pos (a - b) else negsuc (b - a - 1)

abbrev pub sub_ℤ : ℤ → ℤ → ℤ
sub_ℤ (pos a) (pos b) = difference a b
sub_ℤ (pos a) (negsuc b) = pos (a + b + 1)
sub_ℤ (negsuc a) (pos b) = negsuc (a + b)
sub_ℤ (negsuc a) (negsuc b) = difference b a

unfoldable pub to_traceevent : Event → Profiled TraceEvent
unfolding int_of
to_traceevent (duration_event metadata duration) = ok (
    complete metadata.worker_id metadata.pid (sub_ℤ metadata.timestamp duration) metadata.name
      duration metadata.tags)
to_traceevent (counter_event metadata description) =
    map_ok (λ (tag : String × String). int_of tag.1 >>= λ value. ok (tag.0, value)) metadata.tags
    >>= λ arguments.
        ok (counter metadata.worker_id metadata.pid metadata.timestamp metadata.name arguments)

unfoldable pub to_traceevents : List Event → Profiled (List TraceEvent)
unfolding to_traceevent
to_traceevents events = map_ok to_traceevent events

unfoldable pub is_initialization : Event → Bool
unfolding metadata_of
is_initialization event = (metadata_of event).name == "initialization"

-- The events up to the first that is the initialization, and those behind it.
unfoldable pub split_pre_and_post_initialization : List Event → List Event × List Event
unfolding is_initialization
split_pre_and_post_initialization [] = ([], [])
split_pre_and_post_initialization (event ∷ events) =
    let later = split_pre_and_post_initialization events in
    if is_initialization event then (event ∷ [], events) else (event ∷ later.0, later.1)

unfoldable pub add_cold_start_phases : List Event → Dict ℤ → Profiled (Dict ℤ)
unfolding add_phase_duration_to_result
add_cold_start_phases [] result = ok result
add_cold_start_phases (counter_event metadata description ∷ events) result =
    add_cold_start_phases events result
add_cold_start_phases (duration_event metadata duration ∷ events) result =
    add_phase_duration_to_result metadata duration result >>= λ phases.
    add_cold_start_phases events
      (if metadata.name == "initialization" then set_item "total" duration phases else phases)

unfoldable pub to_cold_start_phases : List Event → Profiled (Dict ℤ)
unfolding add_cold_start_phases split_pre_and_post_initialization
to_cold_start_phases events = add_cold_start_phases (split_pre_and_post_initialization events).0 []

-- The updates from the events on, with what is collected for the one that is open.
unfoldable pub collect_updates : List Event → Dict ℤ → Profiled (List (Dict ℤ))
unfolding add_phase_duration_to_result
collect_updates [] current = ok []
collect_updates (counter_event metadata description ∷ events) current =
    collect_updates events current
collect_updates (duration_event metadata duration ∷ events) current =
    add_phase_duration_to_result metadata duration current >>= λ phases.
    let opened = collect_updates events [] in
    let further = collect_updates events phases in
    if metadata.name == "incremental check"
    then opened >>= (λ updates. ok (set_item "total" duration phases ∷ updates))
    else further

unfoldable pub to_incremental_updates : List Event → Profiled (List (Dict ℤ))
unfolding collect_updates split_pre_and_post_initialization
to_incremental_updates events = collect_updates (split_pre_and_post_initialization events).1 []
