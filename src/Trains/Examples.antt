-- ===== src/Trains/Examples.antt =====
-- A short line with whole numbers for metres and degrees.
use metropulse.Prelude.{
  ℕ, ◌+◌, ◌-◌, ◌/◌, All, String, true, false, Option, none, some, List, [], ◌∷◌, ◌≡◌, refl, sym,
  arith, ltb, ◌⊎◌, Any, comparable_string, comparable_nat, Comparable, ap, inr, ◌==◌,
}
use metropulse.Prelude.Int.{ℤ, pos, comparable_int}
use metropulse.Planner.Number.{whole_seconds, AtMost}
use metropulse.Planner.Graph.{Maths, haversine_m, square}
use metropulse.Trains.Geometry.{
  Geo, ShapeProjection, ShapeGeometry, Point, Plane, cumulative_after, shape_geometry,
  total_length_m, project,
}
use metropulse.Trains.Geometry.Projected.{IsOn, project-decided}
use metropulse.Trains.Mapper.{IdMapper, trip_id_field}
use metropulse.Trains.Resolver.{StopOnTrip, Pair, TrainLocation, build_stop_sequence}
use metropulse.Trains.Location.Remaining.{locate_on-Agrees, Agrees}
use metropulse.Prelude.Equality.{comparable_pair}
use metropulse.Trains.Location.{locate_by_distance, locate_on}
use metropulse.Trains.Resolver.Sequence.{IsSequence, IsBeyond, build_stop_sequence-IsSequence}
use metropulse.Trains.Location.Located.{locate_by_distance-Splits, IsAt, Splits, Near}

abbrev street : Maths ℕ
street = record {
  minus = λ a b. a - b;
  divide = λ a b. a / b;
  radians = λ a. a;
  sin = λ a. a;
  cos = λ a. 0;
  asin = λ a. a;
  sqrt = λ a. a;
  two = 2;
  earth_radius_m = 1;
}

abbrev flat : Plane ℕ
flat = record {
  hypot = λ a b. a + b;
  m_per_deg_lat = 1;
  one = 1;
  least_length = 1;
  least_square = 0;
}

abbrev geo : Geo
geo = record { number = whole_seconds; maths = street; plane = flat }

never_negative : (a b c d : ℕ) → AtMost whole_seconds 0 (haversine_m whole_seconds street a b c d)
never_negative a b c d = at_least_zero (haversine_m whole_seconds street a b c d)
  where
    at_least_zero : (n : ℕ) → ltb n 0 ≡ false
    at_least_zero n = ground arith

abbrev vertices : List (Point ℕ)
vertices = (0, 0) ∷ (4, 0) ∷ (8, 0) ∷ []

abbrev line : ShapeGeometry ℕ
line = record { start = (0, 0); points = (4, 0) ∷ (8, 0) ∷ []; cumulative = 8 ∷ 16 ∷ [] }

vertices-line : shape_geometry geo vertices ≡ some line
unfolding shape_geometry cumulative_after haversine_m square
vertices-line = refl

project-decided_example :
    ((ltb (total_length_m geo line) 20 ≡ true) → project geo line 4 0 20 ≡ none)
    × ((ltb (total_length_m geo line) 20 ≡ false)
        → (r : ShapeProjection ℕ) × ((project geo line 4 0 20 ≡ some r)
            × IsOn geo never_negative 4 0 20 2 r))
project-decided_example = project-decided geo never_negative 4 0 20 vertices line vertices-line

abbrev mapper : IdMapper
mapper = record {
  rules = record { field = trip_id_field; pattern = "^RT"; replacement = "" } ∷ [];
  trip_id_map = ("RT7", "7") ∷ [];
  route_id_map = [];
}

abbrev pair : String → ℕ → Pair ℕ
pair stop_id lat = record {
  stop_id = stop_id;
  stop_name = stop_id;
  stop_lat = lat;
  stop_lon = 0;
  stop_sequence = pos lat;
  arrival_seconds = 0;
  departure_seconds = 0;
}

abbrev pairs : List (Pair ℕ)
pairs = pair "A" 1 ∷ pair "B" 6 ∷ []

build_stop_sequence-IsSequence_example :
    ((stops : List (StopOnTrip ℕ)) × ((build_stop_sequence geo pairs none ≡ some stops)
        × IsSequence geo 0 pairs stops))
    × ((shape : ShapeGeometry ℕ)
        → shape_geometry geo vertices ≡ some shape
        → ((stops : List (StopOnTrip ℕ)) × ((build_stop_sequence geo pairs (some shape)
                ≡ some stops)
              × IsSequence geo 0 pairs stops))
          ⊎ ((build_stop_sequence geo pairs (some shape) ≡ none) × Any (IsBeyond geo shape) pairs))
build_stop_sequence-IsSequence_example =
    build_stop_sequence-IsSequence geo never_negative pairs vertices

abbrev stop_at : String → ℕ → StopOnTrip ℕ
stop_at stop_id distance = record {
  stop_id = stop_id;
  stop_name = stop_id;
  sequence = pos distance;
  latitude = distance;
  longitude = 0;
  arrival_seconds = 0;
  departure_seconds = 0;
  distance_along_shape_m = distance;
}

abbrev stops : List (StopOnTrip ℕ)
stops = stop_at "A" 0 ∷ stop_at "B" 500 ∷ []

locate_by_distance-Splits_example :
    ((stop : StopOnTrip ℕ) × (next : Option (StopOnTrip ℕ)) × ((locate_by_distance geo stops 300 75
          ≡ (some stop, (next, true)))
        × IsAt geo 300 75 stops (stop, next)))
    ⊎ ((found : Option (StopOnTrip ℕ) × Option (StopOnTrip ℕ)) × ((locate_by_distance geo stops 300
              75
            ≡ (found.0, (found.1, false)))
          × (All (Near geo 300 75 false) stops × Splits geo 300 75 stops found)))
locate_by_distance-Splits_example = locate_by_distance-Splits geo 300 75 stops

abbrev Fields : Type 0
Fields = (String × String) × ((ℤ × ℕ) × ((ℕ × ℕ) × (ℕ × ℕ)))

abbrev fields : StopOnTrip ℕ → Fields
fields s = (
  (s.stop_id, s.stop_name),
  (
    (s.sequence, s.latitude),
    ((s.longitude, s.arrival_seconds), (s.departure_seconds, s.distance_along_shape_m)),
  ),
)

abbrev of_fields : Fields → StopOnTrip ℕ
of_fields ((a, b), ((c, d), ((e, f), (g, h)))) = record {
  stop_id = a;
  stop_name = b;
  sequence = c;
  latitude = d;
  longitude = e;
  arrival_seconds = f;
  departure_seconds = g;
  distance_along_shape_m = h;
}

instance abbrev comparable_stop : Comparable (StopOnTrip ℕ)
comparable_stop = record {
  equal = λ a b. fields a == fields b;
  equal_iff = λ a b. (
    λ e. ap of_fields ((comparable_pair.equal_iff (fields a) (fields b)).0 e),
    λ p. (comparable_pair.equal_iff (fields a) (fields b)).1 (ap fields p),
  );
}

locate_on-Agrees_example :
    (location : TrainLocation ℕ) × ((locate_on geo 1 4 0 (some line) stops ≡ some location)
      × Agrees geo stops location)
locate_on-Agrees_example =
    locate_on-Agrees geo never_negative 1 4 0 (some line) vertices stops (inr (sym vertices-line))
