-- ===== src/Profile/Updates.antt =====
-- What the cold start and the incremental updates show of the events.
use pyre_check.Profile.{
  Event, EventMetadata, counter_event, duration_event, is_initialization, metadata_of,
  split_pre_and_post_initialization, Profiled, to_cold_start_phases, add_cold_start_phases,
  to_incremental_updates, collect_updates, add_phase_duration_to_result,
}
use pyre_check.Base.{
  Dict, List, [], ◌∷◌, ◌++◌, ok, ◌>>=◌, if◌then◌else◌, Option, some, none, ℤ, ◌==◌, set_item,
  get_item, map, ◌≡◌, refl, ◌∙◌, ap, ap₂, sym, Bool-cases, inl, inr, >>=-eq-ok, get_item-set_item,
}

-- Nothing is lost, the second part begins behind the first initialization, and without one it is empty.
pub split_pre_and_post_initialization-append :
    (events : List Event)
    → (let parts = split_pre_and_post_initialization events in parts.0 ++ parts.1 ≡ events)
unfolding split_pre_and_post_initialization
split_pre_and_post_initialization-append [] = refl
split_pre_and_post_initialization-append (event ∷ events) =
    elim (Bool-cases (is_initialization event)) [
      | inl h ↦ rw h refl
      | inr h ↦ rw h (ap (◌∷◌ event) (split_pre_and_post_initialization-append events))
    ]

-- The durations of the incremental checks, in order.
unfoldable pub check_durations : List Event → List ℤ
check_durations [] = []
check_durations (counter_event metadata description ∷ events) = check_durations events
check_durations (duration_event metadata duration ∷ events) =
    let later = check_durations events in
    if metadata.name == "incremental check" then duration ∷ later else later

abbrev total_of : Dict ℤ → Option ℤ
total_of update = get_item "total" update

get_item-total :
    (duration : ℤ) (phases : Dict ℤ) → total_of (set_item "total" duration phases) ≡ some duration
get_item-total duration phases = get_item-set_item "total" "total" duration phases

-- What a duration event does behind its phase.
collected : EventMetadata → ℤ → List Event → Dict ℤ → Profiled (List (Dict ℤ))
unfolding collect_updates
collected metadata duration events phases =
    if metadata.name == "incremental check"
    then collect_updates events [] >>= (λ rest. ok (set_item "total" duration phases ∷ rest))
    else collect_updates events phases

collect_updates-totals :
    (events : List Event) (current : Dict ℤ) (updates : List (Dict ℤ))
    → collect_updates events current ≡ ok updates
    → map total_of updates ≡ map some (check_durations events)
unfolding collect_updates check_durations collected
collect_updates-totals [] current updates h =
    let same : [] ≡ updates = cc (h) in ap (map total_of) (sym same)
collect_updates-totals (counter_event metadata description ∷ events) current updates h =
    collect_updates-totals events current updates h
collect_updates-totals (duration_event metadata duration ∷ events) current updates h =
    let (phases, _, later) =
      >>=-eq-ok (add_phase_duration_to_result metadata duration current)
        (λ phases. collected metadata duration events phases) h in
    elim (Bool-cases (metadata.name == "incremental check")) [
      | inl check ↦
          let (rest, opened, last) =
            >>=-eq-ok (collect_updates events [])
              (λ rest. ok (set_item "total" duration phases ∷ rest)) (rw check at later) in
          let same : set_item "total" duration phases ∷ rest ≡ updates = cc (last) in
          rw check (
            ap (map total_of) (sym same)
            ∙ ap₂ ◌∷◌ (get_item-total duration phases)
                (collect_updates-totals events [] rest opened))
      | inr other ↦ rw other (collect_updates-totals events phases updates (rw other at later))
    ]

-- Where the updates are computed without an error, there is one for each incremental check behind the
-- initialization, in their order, and its "total" is the duration of that check.
pub to_incremental_updates-totals :
    (events : List Event) (updates : List (Dict ℤ))
    → to_incremental_updates events ≡ ok updates
    → map (get_item "total") updates
      ≡ map some (check_durations (split_pre_and_post_initialization events).1)
unfolding to_incremental_updates
to_incremental_updates-totals events updates h =
    collect_updates-totals (split_pre_and_post_initialization events).1 [] updates h

-- The first initialization, if it has a duration.
unfoldable pub initialization_duration : List Event → Option ℤ
initialization_duration [] = none
initialization_duration (counter_event metadata description ∷ events) =
    let later = initialization_duration events in
    if metadata.name == "initialization" then none else later
initialization_duration (duration_event metadata duration ∷ events) =
    let later = initialization_duration events in
    if metadata.name == "initialization" then some duration else later

add_cold_start_phases-total :
    (events : List Event) (result phases : Dict ℤ) (duration : ℤ)
    → initialization_duration events ≡ some duration
    → add_cold_start_phases (split_pre_and_post_initialization events).0 result ≡ ok phases
    → get_item "total" phases ≡ some duration
unfolding initialization_duration add_cold_start_phases split_pre_and_post_initialization
    is_initialization metadata_of
add_cold_start_phases-total [] result phases duration h k = cc (h)
add_cold_start_phases-total (counter_event metadata description ∷ events) result phases duration h
      k =
    elim (Bool-cases (metadata.name == "initialization")) [
      | inl first ↦ cc (rw first at h)
      | inr later ↦
          add_cold_start_phases-total events result phases duration (rw later at h) (rw later at k)
    ]
add_cold_start_phases-total (duration_event metadata d ∷ events) result phases duration h k =
    elim (Bool-cases (metadata.name == "initialization")) [
      | inl first ↦
          let (added, _, last) =
            >>=-eq-ok (add_phase_duration_to_result metadata d result)
              (λ r. ok (if metadata.name == "initialization" then set_item "total" d r else r))
              (rw first at k) in
          let same : set_item "total" d added ≡ phases = cc (rw first at last) in
          let equal : d ≡ duration = cc (rw first at h) in
          ap (get_item "total") (sym same) ∙ get_item-total d added ∙ ap some equal
      | inr later ↦
          let (added, _, last) =
            >>=-eq-ok (add_phase_duration_to_result metadata d result)
              (λ r.
                add_cold_start_phases (split_pre_and_post_initialization events).0
                  (if metadata.name == "initialization" then set_item "total" d r else r))
              (rw later at k) in
          add_cold_start_phases-total events added phases duration (rw later at h)
            (rw later at last)
    ]

-- Where the first initialization of a log has a duration, and the phases of the cold start are computed
-- without an error, their "total" is that duration, whatever the phases are called.
pub to_cold_start_phases-total :
    (events : List Event) (phases : Dict ℤ) (duration : ℤ)
    → initialization_duration events ≡ some duration
    → to_cold_start_phases events ≡ ok phases
    → get_item "total" phases ≡ some duration
unfolding to_cold_start_phases
to_cold_start_phases-total events phases duration h k =
    add_cold_start_phases-total events [] phases duration h k
