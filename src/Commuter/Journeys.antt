-- ===== src/Commuter/Journeys.antt =====
-- Tracked journeys: `JourneyService` of src/metropulse/application/commuter/journeys.py over the
-- rows of its tables, one transaction after another.
pub mod Active
pub mod Ended
pub mod Examples
use metropulse.Prelude.{
  ℕ, suc, ◌+◌, String, Bool, true, false, not, ◌&&◌, Option, none, some, List, [], ◌∷◌, ◌++◌,
  if◌then◌else◌, ◌==◌, comparable_string, comparable_nat, ◌⊎◌, inl, inr,
}

pub data Status : Type 0 where
  active completed missed abandoned : Status

pub record Journey : Type 0 where
  pub id : ℕ
  pub user_id : String
  pub origin_stop_id : String
  pub destination_stop_id : String
  pub route_id : Option String
  pub vehicle_id : Option String
  pub trip_id : Option String
  pub status : Status
  pub started_at : ℕ
  pub ended_at : Option ℕ
  -- the entries of `payload`
  pub interchange_stop_ids : List String
  pub notified_interchanges : List String
  pub delay_notified : Bool

pub data EventType : Type 0 where
  superseded : EventType
  started : Option String → EventType
  ended : Status → Bool → EventType

pub record JourneyEvent : Type 0 where
  pub journey_id : ℕ
  pub event_type : EventType
  pub occurred_at : ℕ

-- What is published on the event stream.
pub data Published : Type 0 where
  journey_started : ℕ → String → ℕ → Published
  journey_completed : ℕ → String → Bool → Bool → ℕ → Published

pub record Tables : Type 0 where
  pub journeys : List Journey
  pub events : List JourneyEvent
  pub next_id : ℕ
  pub published : List Published

pub data StartError : Type 0 where
  value_error : StartError
  unknown_entity : String → StartError

-- What a client asks `start` for.
pub record Request : Type 0 where
  pub user_id : String
  pub origin_stop_id : String
  pub destination_stop_id : String
  pub vehicle_id : Option String
  pub route_id : Option String
  pub trip_id : Option String
  pub interchange_stop_ids : List String

abbrev pub is_active : Status → Bool
is_active active = true
is_active _ = false

-- the rows that `active_for_user` selects
abbrev pub is_active_for : String → Journey → Bool
is_active_for user_id journey = journey.user_id == user_id && is_active journey.status

unfoldable pub end_journey : Status → ℕ → Journey → Journey
end_journey status now journey = record journey { status = status; ended_at = some now }

-- the first row that `active_for_user` selects is abandoned
unfoldable pub supersede : String → ℕ → List Journey → List Journey
supersede user_id now [] = []
supersede user_id now (journey ∷ journeys) =
    if is_active_for user_id journey
    then end_journey abandoned now journey ∷ journeys
    else journey ∷ supersede user_id now journeys

unfoldable pub superseded_events : String → ℕ → List Journey → List JourneyEvent
superseded_events user_id now [] = []
superseded_events user_id now (journey ∷ journeys) =
    if is_active_for user_id journey
    then record { journey_id = journey.id; event_type = superseded; occurred_at = now } ∷ []
    else superseded_events user_id now journeys

-- the first stop that is not found
unfoldable pub first_unknown : (String → Bool) → List String → Option String
first_unknown known [] = none
first_unknown known (stop_id ∷ stop_ids) =
    if known stop_id then first_unknown known stop_ids else some stop_id

unfoldable pub new_journey : ℕ → ℕ → Request → Journey
new_journey id now request = record {
  id = id;
  user_id = request.user_id;
  origin_stop_id = request.origin_stop_id;
  destination_stop_id = request.destination_stop_id;
  route_id = request.route_id;
  vehicle_id = request.vehicle_id;
  trip_id = request.trip_id;
  status = active;
  started_at = now;
  ended_at = none;
  interchange_stop_ids = request.interchange_stop_ids;
  notified_interchanges = [];
  delay_notified = false;
}

unfoldable pub begin_journey : Request → ℕ → Tables → Tables
begin_journey request now tables = record {
  journeys =
      supersede request.user_id now tables.journeys ++ new_journey tables.next_id now request ∷ [];
  events =
      tables.events
      ++ (superseded_events request.user_id now tables.journeys
          ++ record {
            journey_id = tables.next_id;
            event_type = started request.vehicle_id;
            occurred_at = now;
          }
            ∷ []);
  next_id = tables.next_id + 1;
  published = tables.published ++ journey_started tables.next_id request.user_id now ∷ [];
}

abbrev pub begun : Option String → Request → ℕ → Tables → StartError ⊎ Tables
begun (some stop_id) request now tables = inl (unknown_entity stop_id)
begun none request now tables = inr (begin_journey request now tables)

unfoldable pub start : (String → Bool) → Request → ℕ → Tables → StartError ⊎ Tables
start known request now tables =
    if request.origin_stop_id == request.destination_stop_id
    then inl value_error
    else begun
        (first_unknown known
          (request.origin_stop_id ∷ request.destination_stop_id ∷ request.interchange_stop_ids))
        request now tables

-- `journey.user_id == user_id and journey.status == "active"`, of the row with this key
abbrev pub is_open : String → ℕ → Journey → Bool
is_open user_id journey_id journey = journey.id == journey_id && is_active_for user_id journey

-- `_finish` on the rows; the key is that of one row at most
unfoldable pub finish_rows : String → ℕ → Status → ℕ → List Journey → List Journey
finish_rows user_id journey_id status now [] = []
finish_rows user_id journey_id status now (journey ∷ journeys) =
    if is_open user_id journey_id journey
    then end_journey status now journey ∷ journeys
    else journey ∷ finish_rows user_id journey_id status now journeys

unfoldable pub has_open : String → ℕ → List Journey → Bool
has_open user_id journey_id [] = false
has_open user_id journey_id (journey ∷ journeys) =
    if is_open user_id journey_id journey then true else has_open user_id journey_id journeys

unfoldable pub finish : String → ℕ → Status → Bool → List Published → ℕ → Tables → Tables
finish user_id journey_id status auto announced now tables =
    if has_open user_id journey_id tables.journeys
    then (record tables {
      journeys = finish_rows user_id journey_id status now tables.journeys;
      events =
          tables.events
          ++ record { journey_id = journey_id; event_type = ended status auto; occurred_at = now }
            ∷ [];
      published = tables.published ++ announced;
    })
    else tables

unfoldable pub complete : String → ℕ → Bool → ℕ → Tables → Tables
complete user_id journey_id auto now =
    finish user_id journey_id completed auto
      (journey_completed journey_id user_id auto false now ∷ []) now

unfoldable pub mark_missed : String → ℕ → ℕ → Tables → Tables
mark_missed user_id journey_id now =
    finish user_id journey_id missed true (journey_completed journey_id user_id true true now ∷ [])
      now

unfoldable pub abandon : String → ℕ → ℕ → Tables → Tables
abandon user_id journey_id now = finish user_id journey_id abandoned false [] now

-- What is asked of the service, in any order and by any users; what fails changes no row.
pub data Operation : Type 0 where
  start_it : Request → Operation
  complete_it : String → ℕ → Bool → Operation
  miss_it : String → ℕ → Operation
  abandon_it : String → ℕ → Operation

abbrev pub or_unchanged : Tables → StartError ⊎ Tables → Tables
or_unchanged tables (inl error) = tables
or_unchanged tables (inr after) = after

unfoldable pub operate : (String → Bool) → Tables → Operation → ℕ → Tables
operate known tables (start_it request) now = or_unchanged tables (start known request now tables)
operate known tables (complete_it user_id journey_id auto) now =
    complete user_id journey_id auto now tables
operate known tables (miss_it user_id journey_id) now = mark_missed user_id journey_id now tables
operate known tables (abandon_it user_id journey_id) now = abandon user_id journey_id now tables

unfoldable pub operate_all : (String → Bool) → Tables → List (Operation × ℕ) → Tables
operate_all known tables [] = tables
operate_all known tables ((operation, now) ∷ rest) =
    operate_all known (operate known tables operation now) rest
