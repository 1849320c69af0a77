-- ===== src/Commuter/Sessions/Outcomes.antt =====
-- What one evaluation of a journey does (`JourneySessionTracker.evaluate`).
use metropulse.Prelude.{
  ℕ, ◌-◌, String, Bool, true, false, not, ◌&&◌, Option, none, some, List, [], ◌∷◌, ◌++◌, ◌≡◌, refl,
  ◌⊎◌, inl, inr, Bool-cases, contains, comparable_string, ◌==◌, ltb, if◌then◌else◌,
}
use metropulse.Prelude.Dict.{Dict}
use metropulse.Trains.Resolver.{StationRef, TripContext}
use metropulse.Commuter.Journeys.{
  Journey, Status, Published, completed, missed, abandoned, is_active, has_open, finish, complete,
  mark_missed, abandon,
}
use metropulse.Commuter.Sessions.{
  Vehicle, Tracker, SessionOutcome, was_abandoned, was_completed, was_missed, at_interchange,
  is_delayed, Kind, journey_completed, missed_stop, interchange_reminder, journey_delay,
  Notification, Sessions, finished, ended, has_passed, due_interchange, remind, due_delay, warn,
  maybe_notify_delay, maybe_remind, advance, tracked, advance_tracked, evaluate,
}

abbrev pub is_end : Kind → Bool
is_end journey_completed = true
is_end missed_stop = true
is_end _ = false

abbrev pub outcome_of : Kind → SessionOutcome
outcome_of journey_completed = was_completed
outcome_of missed_stop = was_missed
outcome_of interchange_reminder = at_interchange
outcome_of journey_delay = is_delayed

module _ (tracker : Tracker) where
  open tracker use {number, trains, max_age, delay_notify_seconds}
  open number use {Num}

  -- the state after a journey has been ended, and its user told or not
  abbrev pub closed :
      Journey
      → ℕ
      → Sessions Num
      → Status
      → Bool
      → List Published
      → List (Notification Num)
      → Sessions Num
  closed journey now st status auto announced told = record {
    tables = finish journey.user_id journey.id status auto announced now st.tables;
    notifications = st.notifications ++ told;
  }

  pub data Effect (journey : Journey) (now : ℕ) (st : Sessions Num)
      : Option SessionOutcome × Sessions Num → Type 0 where
    unchanged : Effect journey now st (none, st)
    gone :
        (auto : Bool) (announced : List Published)
        → Effect journey now st
            (some was_abandoned, closed journey now st abandoned auto announced [])
    told :
        (kind : Kind) (status : Status) (auto : Bool) (announced : List Published)
        → is_end kind ≡ true
        → is_active status ≡ false
        → Effect journey now st (
          some (outcome_of kind),
          closed journey now st status auto announced (ended tracker kind journey ∷ []),
        )
    reminded :
        (next_station : StationRef)
        → contains next_station.stop_id journey.notified_interchanges ≡ false
        → Effect journey now st (some at_interchange, remind tracker journey next_station st)
    warned :
        (delay : Num)
        → journey.delay_notified ≡ false
        → Effect journey now st (some is_delayed, warn tracker journey delay st)

  finished-Effect :
      (kind : Kind) (status : Status) (auto : Bool) (announced : List Published) (journey : Journey)
      (now : ℕ) (st : Sessions Num)
      → is_end kind ≡ true
      → is_active status ≡ false
      → Effect journey now st (
          finished tracker
            (outcome_of kind)
            journey
            (finish journey.user_id journey.id status auto announced now)
            (ended tracker kind journey ∷ [])
            st)
  unfolding finished
  finished-Effect kind status auto announced journey now st h over =
      elim (Bool-cases (has_open journey.user_id journey.id st.tables.journeys)) [
        | inl e ↦ rw e (told kind status auto announced h over)
        | inr e ↦ rw e unchanged
      ]

  abandon-Effect :
      (journey : Journey) (now : ℕ) (st : Sessions Num)
      → Effect journey now st
          (finished tracker was_abandoned journey (abandon journey.user_id journey.id now) [] st)
  unfolding finished abandon
  abandon-Effect journey now st =
      elim (Bool-cases (has_open journey.user_id journey.id st.tables.journeys)) [
        | inl e ↦ rw e (gone false [])
        | inr e ↦ rw e unchanged
      ]

  first_time :
      (a b : Bool) (x : Num)
      → ((if not a && not b then some x else none) ≡ none)
        ⊎ ((a ≡ false) × ((if not a && not b then some x else none) ≡ some x))
  first_time true b x = inl refl
  first_time false true x = inl refl
  first_time false false x = inr (refl, refl)

  maybe_notify_delay-Effect :
      (journey : Journey) (now : ℕ) (delay : Option Num) (st : Sessions Num)
      → Effect journey now st
          (maybe_notify_delay tracker journey (due_delay tracker journey delay) st)
  unfolding maybe_notify_delay due_delay
  maybe_notify_delay-Effect journey now none st = unchanged
  maybe_notify_delay-Effect journey now (some delay) st =
      elim (first_time journey.delay_notified (number.lt delay delay_notify_seconds) delay) [
        | inl e ↦ rw e unchanged
        | inr (new, e) ↦ rw e (warned delay new)
      ]

  maybe_remind-Effect :
      (journey : Journey) (now : ℕ) (next : Option StationRef) (delay : Option Num)
      (st : Sessions Num)
      → Effect journey now st (
          maybe_remind tracker journey
            (due_interchange tracker journey next)
            (due_delay tracker journey delay)
            st)
  unfolding maybe_remind due_interchange
  maybe_remind-Effect journey now none delay st = maybe_notify_delay-Effect journey now delay st
  maybe_remind-Effect journey now (some next) delay st =
      elim (Bool-cases (contains next.stop_id journey.interchange_stop_ids)) [
        | inr e ↦ rw e (maybe_notify_delay-Effect journey now delay st)
        | inl e ↦ elim (Bool-cases (contains next.stop_id journey.notified_interchanges)) [
          | inl old ↦ rw (e, old) (maybe_notify_delay-Effect journey now delay st)
          | inr new ↦ rw (e, new) (reminded next new)
        ]
      ]

  advance-Effect :
      (journey : Journey) (now : ℕ) (vehicle : Vehicle Num) (context : TripContext Num)
      (current : StationRef) (st : Sessions Num)
      → Effect journey now st (advance tracker journey now vehicle context current st)
  unfolding advance complete mark_missed
  advance-Effect journey now vehicle context current st =
      elim (Bool-cases (current.stop_id == journey.destination_stop_id)) [
        | inl e ↦ rw e (finished-Effect journey_completed completed true _ journey now st refl refl)
        | inr e ↦
            elim (Bool-cases
              (has_passed tracker journey.destination_stop_id current.sequence context.stops)) [
                | inl f ↦
                    rw (e, f) (finished-Effect missed_stop missed true _ journey now st refl refl)
                | inr f ↦ rw (e, f) (maybe_remind-Effect journey now _ _ st)
              ]
      ]

  pub evaluate-Effect :
      (journey : Journey) (now : ℕ) (snapshot : Dict String (Vehicle Num)) (st : Sessions Num)
      → Effect journey now st (evaluate tracker journey now snapshot st)
  unfolding evaluate abandon
  evaluate-Effect journey now snapshot st =
      elim (Bool-cases (ltb max_age (now - journey.started_at))) [
        | inl e ↦ rw e (abandon-Effect journey now st)
        | inr e ↦ rw e (on_the_way (tracked tracker journey snapshot))
      ]
    where
      on_the_way :
          (found : Option (Vehicle Num × (TripContext Num × StationRef)))
          → Effect journey now st (advance_tracked tracker journey now found st)
      on_the_way none = unfold advance_tracked in unchanged
      on_the_way (some found) =
          unfold advance_tracked in advance-Effect journey now found.0 found.1.0 found.1.1 st

  -- No outcome leaves everything as it was; a journey that times out is nobody told of; and with any
  -- other outcome exactly one notification is added, to the user of the journey, about that journey,
  -- of the kind that belongs to the outcome.
  abbrev pub IsTold : Journey → Sessions Num → Option SessionOutcome × Sessions Num → Type 0
  IsTold journey st end =
      ((end.0 ≡ none) × (end.1 ≡ st))
      ⊎ (((end.0 ≡ some was_abandoned) × (end.1.notifications ≡ st.notifications))
          ⊎ ((n : Notification Num) × ((end.1.notifications ≡ st.notifications ++ n ∷ [])
                × ((n.user_id ≡ journey.user_id)
                    × ((n.journey_id ≡ journey.id) × (end.0 ≡ some (outcome_of n.kind)))))))
