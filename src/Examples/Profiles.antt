-- ===== src/Examples/Profiles.antt =====
-- A log of events on concrete inputs.
use pyre_check.Texts.{Bytes}
use pyre_check.Texts.Lines.{split_lines}
use pyre_check.Profile.{
  Event, EventMetadata, duration_event, counter_event, malformed_line, parse_events,
  split_pre_and_post_initialization, to_incremental_updates, to_cold_start_phases,
}
use pyre_check.Profile.Updates.{check_durations, to_incremental_updates-totals}
use pyre_check.Profile.Log.{FirstMalformed, parse_events_malformed_iff}
use pyre_check.Base.{
  Dict, get_item, List, [], ◌∷◌, ◌≡◌, ◌↔◌, refl, ok, err, String, Option, some, none, map, pos, ℤ,
}

abbrev event_at : String → ℤ → Dict String → EventMetadata
event_at name timestamp tags = record {
  name = name;
  worker_id = pos 1;
  pid = pos 1;
  timestamp = timestamp;
  tags = tags;
}

abbrev log : List Event
log =
    duration_event (event_at "initialization" (pos 9) []) (pos 7)
    ∷ duration_event
        (event_at "check" (pos 12)
          (("phase_name", "Parsing") ∷ ("number_of_triggered_dependencies", "3") ∷ []))
        (pos 2)
    ∷ counter_event (event_at "memory" (pos 13) []) none
    ∷ duration_event (event_at "incremental check" (pos 15) []) (pos 4)
    ∷ []

abbrev updates : List (Dict ℤ)
updates =
    (("Parsing", pos 2) ∷ ("Parsing: triggered dependencies", pos 3) ∷ ("total", pos 4) ∷ []) ∷ []

updates_test : to_incremental_updates log ≡ ok updates
unfolding to_incremental_updates
updates_test = refl

to_incremental_updates-totals_example :
    map (get_item "total") updates
    ≡ map some (check_durations (split_pre_and_post_initialization log).1)
to_incremental_updates-totals_example = to_incremental_updates-totals log updates updates_test

cold_start_test : to_cold_start_phases log ≡ ok (("total", pos 7) ∷ [])
unfolding to_cold_start_phases
cold_start_test = refl

abbrev no_event : Bytes → Option Event
no_event line = none

parse_events_malformed_iff_example :
    (parse_events no_event (10 ∷ b'x' ∷ []) ≡ err (malformed_line 2))
    ↔ FirstMalformed no_event 2 (split_lines (10 ∷ b'x' ∷ []))
parse_events_malformed_iff_example = parse_events_malformed_iff no_event (10 ∷ b'x' ∷ []) 2

malformed_test : parse_events no_event (10 ∷ b'x' ∷ []) ≡ err (malformed_line 2)
unfolding parse_events
malformed_test = refl
