-- ===== src/Commuter/Sessions.antt =====
-- Journey sessions: `JourneySessionTracker` of
-- src/metropulse/application/commuter/journey_session.py, and the journeys of
-- `CommuterRuleEngine.evaluate_realtime` (src/metropulse/application/commuter/rule_engine.py).
pub mod Outcomes
pub mod Flags
pub mod Runs
pub mod Flagged
pub mod Once
pub mod Single
pub mod Examples
use metropulse.Prelude.{
  ℕ, ◌+◌, ◌-◌, String, Bool, true, false, not, ◌&&◌, Option, none, some, List, [], ◌∷◌, ◌++◌,
  if◌then◌else◌, ◌==◌, comparable_string, comparable_nat, ltb, contains, ◌>>=◌,
}
use metropulse.Prelude.Dict.{Dict, lookup}
use metropulse.Prelude.Int.{ℤ, ltb_ℤ}
use metropulse.Planner.Number.{Number}
use metropulse.Trains.Resolver.{StationRef, StopOnTrip, TripContext, TrainLocation}
use metropulse.Commuter.Journeys.{
  Journey, Tables, is_active, has_open, complete, mark_missed, abandon, Operation, operate,
}

-- what the tracker reads of a `VehiclePosition`
pub record Vehicle (Num : Type 0) : Type 0 where
  pub trip_id : Option String
  pub latitude : Num
  pub longitude : Num

-- What the tracker asks the resolver and the estimator: `delay_seconds` is that of the estimate, none
-- where there is no estimate or no delay.
pub record Trains (Num : Type 0) : Type 0 where
  pub resolve_trip : String → Option (TripContext Num)
  pub locate : Vehicle Num → TripContext Num → TrainLocation Num
  pub delay_seconds : Vehicle Num → TripContext Num → Option Num

pub data SessionOutcome : Type 0 where
  was_abandoned was_completed was_missed at_interchange is_delayed : SessionOutcome

pub data Kind : Type 0 where
  journey_completed missed_stop interchange_reminder journey_delay : Kind

-- A notification, without its title and body.
pub record Notification (Num : Type 0) : Type 0 where
  pub user_id : String
  pub kind : Kind
  pub journey_id : ℕ
  pub stop_id : Option String
  pub delay_seconds : Option Num

pub record Sessions (Num : Type 0) : Type 0 where
  pub tables : Tables
  pub notifications : List (Notification Num)

-- a text that is neither None nor empty
abbrev pub given : Option String → Option String
given none = none
given (some text) = if text == "" then none else some text

unfoldable pub row_of : ℕ → List Journey → Option Journey
row_of id [] = none
row_of id (journey ∷ journeys) = if journey.id == id then some journey else row_of id journeys

-- an assignment to `journey.payload`
unfoldable pub update_row : ℕ → (Journey → Journey) → List Journey → List Journey
update_row id f [] = []
update_row id f (journey ∷ journeys) =
    if journey.id == id then f journey ∷ journeys else journey ∷ update_row id f journeys

unfoldable pub remember_interchange : String → Journey → Journey
remember_interchange stop_id journey = record journey {
  notified_interchanges = journey.notified_interchanges ++ stop_id ∷ [];
}

unfoldable pub remember_delay : Journey → Journey
remember_delay journey = record journey { delay_notified = true }

-- What a tracker is made with.
pub record Tracker : Type 1 where
  pub number : Number
  pub trains : Trains number.Num
  pub max_age : ℕ
  pub delay_notify_seconds : number.Num

module _ (tracker : Tracker) where
  open tracker use {number, trains, max_age, delay_notify_seconds}
  open number use {Num, lt}

  -- the first stop of the trip at the destination, and whether the train is beyond it
  unfoldable pub has_passed : String → ℤ → List (StopOnTrip Num) → Bool
  has_passed destination current [] = false
  has_passed destination current (stop ∷ stops) =
      if stop.stop_id == destination
      then ltb_ℤ stop.sequence current
      else has_passed destination current stops

  -- `if finished is None: return None`
  unfoldable pub finished :
      SessionOutcome
      → Journey
      → (Tables → Tables)
      → List (Notification Num)
      → Sessions Num
      → Option SessionOutcome × Sessions Num
  finished outcome journey change notifications st =
      if has_open journey.user_id journey.id st.tables.journeys
      then (
        some outcome,
        record { tables = change st.tables; notifications = st.notifications ++ notifications },
      )
      else (none, st)

  unfoldable pub ended : Kind → Journey → Notification Num
  ended kind journey = record {
    user_id = journey.user_id;
    kind = kind;
    journey_id = journey.id;
    stop_id = some journey.destination_stop_id;
    delay_seconds = none;
  }

  -- the next station, where a reminder of it is due
  unfoldable pub due_interchange : Journey → Option StationRef → Option StationRef
  due_interchange journey none = none
  due_interchange journey (some next_station) =
      if contains next_station.stop_id journey.interchange_stop_ids
        && not (contains next_station.stop_id journey.notified_interchanges)
      then some next_station
      else none

  unfoldable pub reminder : Journey → StationRef → Notification Num
  reminder journey next_station = record {
    user_id = journey.user_id;
    kind = interchange_reminder;
    journey_id = journey.id;
    stop_id = some next_station.stop_id;
    delay_seconds = none;
  }

  -- A notification, and an assignment to the payload of the row.
  abbrev pub told_and_remembered :
      Journey → Notification Num → (Journey → Journey) → Sessions Num → Sessions Num
  told_and_remembered journey notification remember st = record {
    tables = record st.tables { journeys = update_row journey.id remember st.tables.journeys };
    notifications = st.notifications ++ notification ∷ [];
  }

  unfoldable pub remind : Journey → StationRef → Sessions Num → Sessions Num
  remind journey next_station st =
      told_and_remembered journey (reminder journey next_station)
        (remember_interchange next_station.stop_id) st

  -- the delay, where a notification of it is due
  unfoldable pub due_delay : Journey → Option Num → Option Num
  due_delay journey none = none
  due_delay journey (some delay) =
      if not journey.delay_notified && not (lt delay delay_notify_seconds) then some delay else none

  unfoldable pub delay_notice : Journey → Num → Notification Num
  delay_notice journey delay = record {
    user_id = journey.user_id;
    kind = journey_delay;
    journey_id = journey.id;
    stop_id = none;
    delay_seconds = some delay;
  }

  unfoldable pub warn : Journey → Num → Sessions Num → Sessions Num
  warn journey delay st = told_and_remembered journey (delay_notice journey delay) remember_delay st

  unfoldable pub maybe_notify_delay :
      Journey → Option Num → Sessions Num → Option SessionOutcome × Sessions Num
  maybe_notify_delay journey none st = (none, st)
  maybe_notify_delay journey (some delay) st = (some is_delayed, warn journey delay st)

  unfoldable pub maybe_remind :
      Journey → Option StationRef → Option Num → Sessions Num → Option SessionOutcome × Sessions Num
  maybe_remind journey none delay st = maybe_notify_delay journey delay st
  maybe_remind journey (some next_station) delay st =
      (some at_interchange, remind journey next_station st)

  unfoldable pub advance :
      Journey
      → ℕ
      → Vehicle Num
      → TripContext Num
      → StationRef
      → Sessions Num
      → Option SessionOutcome × Sessions Num
  advance journey now vehicle context current st =
      if current.stop_id == journey.destination_stop_id
      then finished was_completed journey (complete journey.user_id journey.id true now)
          (ended journey_completed journey ∷ []) st
      else if has_passed journey.destination_stop_id current.sequence context.stops
      then finished was_missed journey (mark_missed journey.user_id journey.id now)
          (ended missed_stop journey ∷ []) st
      else maybe_remind journey
          (due_interchange journey (trains.locate vehicle context).next_station)
          (due_delay journey (trains.delay_seconds vehicle context)) st

  -- the vehicle, its trip and its current station, or an early return
  unfoldable pub tracked :
      Journey → Dict String (Vehicle Num) → Option (Vehicle Num × (TripContext Num × StationRef))
  tracked journey snapshot = do
    vehicle_id ← given journey.vehicle_id
    vehicle ← lookup vehicle_id snapshot
    trip_id ← given vehicle.trip_id
    context ← trains.resolve_trip trip_id
    current ← (trains.locate vehicle context).current_station
    some (vehicle, (context, current))

  unfoldable pub advance_tracked :
      Journey
      → ℕ
      → Option (Vehicle Num × (TripContext Num × StationRef))
      → Sessions Num
      → Option SessionOutcome × Sessions Num
  advance_tracked journey now none st = (none, st)
  advance_tracked journey now (some found) st = advance journey now found.0 found.1.0 found.1.1 st

  unfoldable pub evaluate :
      Journey → ℕ → Dict String (Vehicle Num) → Sessions Num → Option SessionOutcome × Sessions Num
  evaluate journey now snapshot st =
      if ltb max_age (now - journey.started_at)
      then finished was_abandoned journey (abandon journey.user_id journey.id now) [] st
      else advance_tracked journey now (tracked journey snapshot) st

  -- The session holds the rows themselves: what is evaluated is the row as it then is.
  unfoldable pub evaluate_row :
      Option Journey
      → ℕ
      → Dict String (Vehicle Num)
      → Sessions Num
      → Option SessionOutcome × Sessions Num
  evaluate_row none now snapshot st = (none, st)
  evaluate_row (some journey) now snapshot st = evaluate journey now snapshot st

  unfoldable pub evaluate_all :
      List ℕ → ℕ → Dict String (Vehicle Num) → Sessions Num → List SessionOutcome × Sessions Num
  evaluate_all [] now snapshot st = ([], st)
  evaluate_all (id ∷ ids) now snapshot st =
      let here = evaluate_row (row_of id st.tables.journeys) now snapshot st in
      let rest = evaluate_all ids now snapshot here.1 in (outcomes here.0 rest.0, rest.1)
    where
      outcomes : Option SessionOutcome → List SessionOutcome → List SessionOutcome
      outcomes none os = os
      outcomes (some o) os = o ∷ os

  -- `JourneyRepository(session).list_active()`
  unfoldable pub active_ids : List Journey → List ℕ
  active_ids [] = []
  active_ids (journey ∷ journeys) =
      let rest = active_ids journeys in if is_active journey.status then journey.id ∷ rest else rest

  -- the journeys of `evaluate_realtime`
  unfoldable pub evaluate_realtime :
      ℕ → Dict String (Vehicle Num) → Sessions Num → List SessionOutcome × Sessions Num
  evaluate_realtime now snapshot st = evaluate_all (active_ids st.tables.journeys) now snapshot st

  -- A cycle of the worker, or a request of a user.
  pub data Happening : Type 0 where
    cycle : ℕ → Dict String (Vehicle Num) → Happening
    request : Operation → ℕ → Happening

  unfoldable pub happen : (String → Bool) → Sessions Num → Happening → Sessions Num
  happen known st (cycle now snapshot) = (evaluate_realtime now snapshot st).1
  happen known st (request operation now) = record st {
    tables = operate known st.tables operation now;
  }

  unfoldable pub happen_all : (String → Bool) → Sessions Num → List Happening → Sessions Num
  happen_all known st [] = st
  happen_all known st (happening ∷ rest) = happen_all known (happen known st happening) rest
