-- ===== src/Trains/Resolver.antt =====
-- src/metropulse/application/route_resolver.py: the context of a trip, as `_build_context` makes it.
-- The tables are what their queries return; `none` is the AssertionError of a projection.
pub mod Sequence
use metropulse.Prelude.{
  ℕ, String, Bool, true, false, not, ◌&&◌, Option, none, some, List, [], ◌∷◌, ◌++◌, if◌then◌else◌,
  map, filter, contains, get_last?, ◌>>=◌, Comparable, ◌==◌, comparable_string, leb, length,
}
use metropulse.Prelude.Dict.{Dict, lookup}
use metropulse.Prelude.Int.{ℤ}
use metropulse.Planner.Number.{Number}
use metropulse.Planner.Graph.{Maths, haversine_m, Route}
use metropulse.Trains.Geometry.{Geo, ShapeGeometry, Point, Plane, shape_geometry, project}
use metropulse.Trains.Mapper.{IdMapper, trip_id_field, candidates, first_found}

pub record StopOnTrip (Num : Type 0) : Type 0 where
  pub stop_id : String
  pub stop_name : String
  pub sequence : ℤ
  pub latitude : Num
  pub longitude : Num
  pub arrival_seconds : ℕ
  pub departure_seconds : ℕ
  pub distance_along_shape_m : Num

pub record StationRef : Type 0 where
  pub stop_id : String
  pub name : String
  pub sequence : ℤ

pub record TripContext (Num : Type 0) : Type 0 where
  pub trip_id : String
  pub route_id : String
  pub route : Option Route
  pub headsign : Option String
  pub direction_id : Option ℤ
  pub shape_id : Option String
  pub stops : List (StopOnTrip Num)
  pub geometry : Option (ShapeGeometry Num)

pub record TrainLocation (Num : Type 0) : Type 0 where
  pub current_station : Option StationRef
  pub next_station : Option StationRef
  pub destination : Option StationRef
  pub at_station : Bool
  pub distance_along_m : Option Num
  pub shape_offset_m : Option Num
  pub remaining_stations : List StationRef

-- A stop time with its stop, and a trip, as the queries return them.
pub record Pair (Num : Type 0) : Type 0 where
  pub stop_id : String
  pub stop_name : String
  pub stop_lat : Num
  pub stop_lon : Num
  pub stop_sequence : ℤ
  pub arrival_seconds : ℕ
  pub departure_seconds : ℕ

pub record StaticTrip : Type 0 where
  pub trip_id : String
  pub route_id : String
  pub trip_headsign : Option String
  pub direction_id : Option ℤ
  pub shape_id : Option String

pub record TripTables (Num : Type 0) : Type 0 where
  pub trip : String → Option StaticTrip
  pub route : String → Option Route
  pub stop_times_with_stops : String → List (Pair Num)
  pub points_for : String → List (Point Num)

abbrev pub ref : {Num : Type 0} → StopOnTrip Num → StationRef
ref stop = record { stop_id = stop.stop_id; name = stop.stop_name; sequence = stop.sequence }

abbrev pub ref? : {Num : Type 0} → Option (StopOnTrip Num) → Option StationRef
ref? none = none
ref? (some stop) = some (ref stop)

abbrev pub first_of {ℓ} : {A : Type ℓ} → List A → Option A
first_of [] = none
first_of (x ∷ xs) = some x

module _ (geo : Geo) where
  open geo use {number, maths}
  open number use {Num, zero, plus, lt}

  unfoldable pub stop_on_trip : Pair Num → Num → StopOnTrip Num
  stop_on_trip pair distance = record {
    stop_id = pair.stop_id;
    stop_name = pair.stop_name;
    sequence = pair.stop_sequence;
    latitude = pair.stop_lat;
    longitude = pair.stop_lon;
    arrival_seconds = pair.arrival_seconds;
    departure_seconds = pair.departure_seconds;
    distance_along_shape_m = distance;
  }

  -- the three ways to a distance; `previous` is the place of the stop before
  unfoldable pub distance_of :
      Option (ShapeGeometry Num) → Num → Option (Point Num) → Pair Num → Option Num
  distance_of (some shape) floor previous pair = do
    found ← project geo shape pair.stop_lat pair.stop_lon floor
    some found.distance_along_m
  distance_of none floor (some p) pair =
      some (plus floor (haversine_m number maths p.0 p.1 pair.stop_lat pair.stop_lon))
  distance_of none floor none pair = some zero

  unfoldable pub build_stops :
      Option (ShapeGeometry Num)
      → Num
      → Option (Point Num)
      → List (Pair Num)
      → Option (List (StopOnTrip Num))
  build_stops geometry floor previous [] = some []
  build_stops geometry floor previous (pair ∷ pairs) = do
    distance ← distance_of geometry floor previous pair
    rest ← build_stops geometry distance (some (pair.stop_lat, pair.stop_lon)) pairs
    some (stop_on_trip pair distance ∷ rest)

  unfoldable pub build_stop_sequence :
      List (Pair Num) → Option (ShapeGeometry Num) → Option (List (StopOnTrip Num))
  build_stop_sequence pairs geometry = build_stops geometry zero none pairs

  -- a trip without a shape, or with fewer than two points, has no geometry
  unfoldable pub geometry_of : TripTables Num → Option String → Option (ShapeGeometry Num)
  geometry_of tables none = none
  geometry_of tables (some shape_id) =
      if shape_id == "" then none else shape_geometry geo (tables.points_for shape_id)

  unfoldable pub context_of : TripTables Num → StaticTrip → Option (TripContext Num)
  context_of tables trip = do
    stops ←
        build_stop_sequence (tables.stop_times_with_stops trip.trip_id)
          (geometry_of tables trip.shape_id)
    some (record {
      trip_id = trip.trip_id;
      route_id = trip.route_id;
      route = tables.route trip.route_id;
      headsign = trip.trip_headsign;
      direction_id = trip.direction_id;
      shape_id = trip.shape_id;
      stops = stops;
      geometry = geometry_of tables trip.shape_id;
    })

  -- The outer option is the exception, the inner one the trip that is not found.
  unfoldable pub build_context :
      (String → String → String → String)
      → IdMapper
      → TripTables Num
      → String
      → Option (Option (TripContext Num))
  build_context sub mapper tables realtime_trip_id =
      elim (first_found tables.trip (candidates sub mapper trip_id_field realtime_trip_id)) [
        | none ↦ some none
        | some trip ↦ (do context ← context_of tables trip; some (some context))
      ]
