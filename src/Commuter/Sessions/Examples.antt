-- ===== src/Commuter/Sessions/Examples.antt =====
-- A journey that is followed.
use metropulse.Prelude.{ℕ, ◌≤◌, String, true, false, none, some, List, [], ◌∷◌, ◌≡◌, refl}
use metropulse.Prelude.Dict.{Dict}
use metropulse.Prelude.Int.{pos}
use metropulse.Planner.Number.{whole_seconds}
use metropulse.Trains.Resolver.{StationRef, TripContext}
use metropulse.Commuter.Journeys.{Journey, active, Tables, complete_it}
use metropulse.Commuter.Sessions.{
  Vehicle, Trains, Tracker, Sessions, evaluate, Happening, cycle, request, happen_all,
  evaluate_realtime, evaluate_all, evaluate_row, active_ids, row_of, tracked, advance_tracked,
  advance, has_passed, maybe_remind, due_interchange, due_delay, at_interchange, remind,
}
use metropulse.Commuter.Sessions.Flagged.{count}
use metropulse.Commuter.Sessions.Once.{is_delay_of, is_reminder_of, happen_all_once}

abbrev station : String → ℕ → StationRef
station stop_id sequence = record { stop_id = stop_id; name = stop_id; sequence = pos sequence }

abbrev trip : TripContext ℕ
trip = record {
  trip_id = "T";
  route_id = "R";
  route = none;
  headsign = none;
  direction_id = none;
  shape_id = none;
  stops = [];
  geometry = none;
}

-- the train is at A, comes to B, and is 400 seconds late
abbrev trains : Trains ℕ
trains = record {
  resolve_trip = λ trip_id. some trip;
  locate = λ vehicle context. record {
    current_station = some (station "A" 1);
    next_station = some (station "B" 2);
    destination = none;
    at_station = true;
    distance_along_m = none;
    shape_offset_m = none;
    remaining_stations = [];
  };
  delay_seconds = λ vehicle context. some 400;
}

abbrev tracker : Tracker
tracker = record {
  number = whole_seconds;
  trains = trains;
  max_age = 21600;
  delay_notify_seconds = 300;
}

abbrev journey : Journey
journey = record {
  id = 1;
  user_id = "u";
  origin_stop_id = "A";
  destination_stop_id = "C";
  route_id = none;
  vehicle_id = some "v";
  trip_id = none;
  status = active;
  started_at = 10;
  ended_at = none;
  interchange_stop_ids = "B" ∷ [];
  notified_interchanges = [];
  delay_notified = false;
}

abbrev snapshot : Dict String (Vehicle ℕ)
snapshot = ("v", record { trip_id = some "T"; latitude = 0; longitude = 0 }) ∷ []

abbrev begun : Tables
begun = record { journeys = journey ∷ []; events = []; next_id = 2; published = [] }

abbrev quiet : Sessions ℕ
quiet = record { tables = begun; notifications = [] }

reminded_first : (evaluate_realtime tracker 20 snapshot quiet).0 ≡ at_interchange ∷ []
unfolding evaluate_realtime evaluate_all evaluate_row active_ids row_of evaluate tracked
    advance_tracked advance has_passed maybe_remind due_interchange due_delay remind
reminded_first = refl

abbrev day : List (Happening tracker)
day =
    cycle 20 snapshot
    ∷ cycle 30 snapshot
    ∷ cycle 40 snapshot
    ∷ request (complete_it "u" 1 false) 50
    ∷ cycle 60 snapshot
    ∷ []

happen_all_once_example :
    (count (is_delay_of tracker 1) (happen_all tracker (λ stop_id. true) quiet day).notifications
      ≤ 1)
    × ((stop_id : String)
        → count
            (is_reminder_of tracker 1 stop_id)
            (happen_all tracker (λ s. true) quiet day).notifications
          ≤ 1)
happen_all_once_example = happen_all_once tracker (λ stop_id. true) begun day 1
