-- ===== src/Trains/Location.antt =====
-- src/metropulse/application/route_resolver.py: the place of a train on its trip
-- (`RouteResolver.locate`). `none` is the AssertionError of a projection.
pub mod Located
pub mod Remaining
use metropulse.Prelude.{
  ℕ, String, Bool, true, false, not, ◌&&◌, Option, none, some, List, [], ◌∷◌, ◌++◌, if◌then◌else◌,
  map, filter, contains, get_last?, ◌>>=◌, Comparable, ◌==◌, comparable_string, leb, length,
}
use metropulse.Prelude.Dict.{Dict, lookup}
use metropulse.Prelude.Int.{ℤ}
use metropulse.Planner.Number.{Number}
use metropulse.Planner.Graph.{Maths, haversine_m, Route}
use metropulse.Trains.Geometry.{Geo, ShapeGeometry, Point, Plane, shape_geometry, project}
use metropulse.Trains.Resolver.{
  StopOnTrip, StationRef, TripContext, TrainLocation, ref, ref?, first_of,
}

module _ (geo : Geo) where
  open geo use {number, maths}
  open number use {Num, zero, plus, lt}

  -- abs(a - b) <= radius
  unfoldable pub is_within : Num → Num → Num → Bool
  is_within a b radius =
      let gap = maths.minus a b in
      not (lt radius (if lt gap zero then maths.minus zero gap else gap))

  -- the first loop
  unfoldable pub at_stop :
      List (StopOnTrip Num) → Num → Num → Option (StopOnTrip Num × Option (StopOnTrip Num))
  at_stop [] distance radius = none
  at_stop (stop ∷ stops) distance radius =
      let rest = at_stop stops distance radius in
      if is_within stop.distance_along_shape_m distance radius
      then some (stop, first_of stops)
      else rest

  -- the second loop
  unfoldable pub between_stops :
      Option (StopOnTrip Num)
      → List (StopOnTrip Num)
      → Num
      → Option (StopOnTrip Num) × Option (StopOnTrip Num)
  between_stops current [] distance = (current, none)
  between_stops current (stop ∷ stops) distance =
      if lt distance stop.distance_along_shape_m
      then (current, some stop)
      else between_stops (some stop) stops distance

  abbrev pub located :
      Option (StopOnTrip Num × Option (StopOnTrip Num))
      → Option (StopOnTrip Num) × Option (StopOnTrip Num)
      → Option (StopOnTrip Num) × (Option (StopOnTrip Num) × Bool)
  located (some at) between = (some at.0, (at.1, true))
  located none between = (between.0, (between.1, false))

  unfoldable pub locate_by_distance :
      List (StopOnTrip Num) → Num → Num → Option (StopOnTrip Num) × (Option (StopOnTrip Num) × Bool)
  locate_by_distance stops distance radius =
      located (at_stop stops distance radius) (between_stops none stops distance)

  -- min(stops, key=...): the first of the least ones
  unfoldable pub nearest : Num → Num → StopOnTrip Num → List (StopOnTrip Num) → StopOnTrip Num
  nearest lat lon best [] = best
  nearest lat lon best (stop ∷ stops) =
      if lt (haversine_m number maths lat lon stop.latitude stop.longitude)
        (haversine_m number maths lat lon best.latitude best.longitude)
      then nearest lat lon stop stops
      else nearest lat lon best stops

  module _ ⦃same : Comparable (StopOnTrip Num)⦄ where
    -- stops[stops.index(stop):]
    unfoldable pub from_stop : StopOnTrip Num → List (StopOnTrip Num) → List (StopOnTrip Num)
    from_stop stop [] = []
    from_stop stop (s ∷ stops) = if s == stop then s ∷ stops else from_stop stop stops

    unfoldable pub remaining : List (StopOnTrip Num) → Option (StopOnTrip Num) → List StationRef
    remaining stops none = []
    remaining stops (some next_stop) = map ref (from_stop next_stop stops)

    abbrev pub after_first {ℓ} : {A : Type ℓ} → List A → Option A
    after_first [] = none
    after_first (x ∷ xs) = first_of xs

    unfoldable pub locate_nearest :
        Num → Num → Num → StopOnTrip Num → List (StopOnTrip Num) → TrainLocation Num
    locate_nearest radius lat lon stop stops =
        let best = nearest lat lon stop stops in
        let gap = haversine_m number maths lat lon best.latitude best.longitude in
        let next_stop = after_first (from_stop best (stop ∷ stops)) in
        record {
          current_station = some (ref best);
          next_station = ref? next_stop;
          destination = ref? (get_last? (stop ∷ stops));
          at_station = not (lt radius gap);
          distance_along_m = some best.distance_along_shape_m;
          shape_offset_m = none;
          remaining_stations = remaining (stop ∷ stops) next_stop;
        }

    unfoldable pub locate_on_shape :
        Num → Num → Num → ShapeGeometry Num → List (StopOnTrip Num) → Option (TrainLocation Num)
    locate_on_shape radius lat lon shape stops = do
      found ← project geo shape lat lon zero
      let place = locate_by_distance stops found.distance_along_m radius in
          some (record {
            current_station = ref? place.0;
            next_station = ref? place.1.0;
            destination = ref? (get_last? stops);
            at_station = place.1.1;
            distance_along_m = some found.distance_along_m;
            shape_offset_m = some found.offset_m;
            remaining_stations = remaining stops place.1.0;
          })

    unfoldable pub locate_on :
        Num
        → Num
        → Num
        → Option (ShapeGeometry Num)
        → List (StopOnTrip Num)
        → Option (TrainLocation Num)
    locate_on radius lat lon geometry [] = some (record {
      current_station = none;
      next_station = none;
      destination = none;
      at_station = false;
      distance_along_m = none;
      shape_offset_m = none;
      remaining_stations = [];
    })
    locate_on radius lat lon (some shape) (stop ∷ stops) =
        locate_on_shape radius lat lon shape (stop ∷ stops)
    locate_on radius lat lon none (stop ∷ stops) = some (locate_nearest radius lat lon stop stops)

    unfoldable pub locate : Num → Num → Num → TripContext Num → Option (TrainLocation Num)
    locate radius lat lon context = locate_on radius lat lon context.geometry context.stops
