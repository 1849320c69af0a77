-- ===== src/Planner/Graph.antt =====
-- The network from the timetable: `_build_graph`, `_build_patterns` and `_build_walk_edges` of
-- src/metropulse/application/journey_planner.py, and `haversine_m` of
-- src/metropulse/domain/geometry.py.
pub mod Listed
pub mod Indexed
pub mod Consistent
pub mod Walks
pub mod Representative
pub mod Examples
use Prim.Native.String.{◌++◌ as concat}
use metropulse.Prelude.{
  ℕ, zero, suc, ◌+◌, String, Bool, true, false, not, ◌&&◌, ◌||◌, Option, none, some, List, [], ◌∷◌,
  ◌++◌, map, if◌then◌else◌, ◌==◌, comparable_string, length, get_last?, ltb,
}
use metropulse.Prelude.Dict.{Dict, lookup, insert, values}
use metropulse.Prelude.Int.{ℤ, pos}
use metropulse.Planner.Number.{Number}
use metropulse.Planner.Network.{
  PatternKey, comparable_key, Pattern, PatternStop, WalkEdge, NetworkGraph, PlannerParameters,
}

-- Rows of the tables, as far as the planner reads them.
pub record Stop (Num : Type 0) : Type 0 where
  pub stop_id : String
  pub stop_name : String
  pub stop_lat : Num
  pub stop_lon : Num
  pub parent_station : Option String

pub record Route : Type 0 where
  pub route_id : String
  pub route_short_name : Option String
  pub route_long_name : Option String
  pub route_color : Option String

pub record Trip : Type 0 where
  pub trip_id : String
  pub route_id : String
  pub trip_headsign : Option String
  pub direction_id : Option ℤ

pub record StopTime : Type 0 where
  pub arrival_seconds : ℕ
  pub departure_seconds : ℕ

-- A trip with the number of its stop times.
pub record Count : Type 0 where
  pub route_id : String
  pub direction_id : Option ℤ
  pub trip_id : String
  pub stop_count : ℕ

-- What the queries return.
pub record Timetable (Num : Type 0) : Type 0 where
  pub stops : List (Stop Num)
  pub routes : List Route
  pub counts : List Count
  pub trip : String → Option Trip
  pub stop_times_with_stops : String → List (StopTime × Stop Num)

-- Python's `math`, and the operators of `float` that the distance needs.
pub record Maths (Num : Type 0) : Type 0 where
  pub minus : Num → Num → Num
  pub divide : Num → Num → Num
  pub radians : Num → Num
  pub sin : Num → Num
  pub cos : Num → Num
  pub asin : Num → Num
  pub sqrt : Num → Num
  pub two : Num
  pub earth_radius_m : Num

-- `d.setdefault(k, []).append(x)`
abbrev pub with_last {ℓ} : {A : Type ℓ} → Option (List A) → A → List A
with_last none x = x ∷ []
with_last (some xs) x = xs ++ x ∷ []

unfoldable pub append_at : {A : Type 0} → String → A → Dict String (List A) → Dict String (List A)
append_at k x d = insert k (with_last (lookup k d) x) d

-- `for index, pattern_stop in enumerate(pattern.stops)`
unfoldable pub index_stops :
    PatternKey
    → ℕ
    → List PatternStop
    → Dict String (List (PatternKey × ℕ))
    → Dict String (List (PatternKey × ℕ))
index_stops key index [] d = d
index_stops key index (stop ∷ stops) d =
    index_stops key (index + 1) stops (append_at stop.stop_id (key, index) d)

unfoldable pub index_patterns :
    List Pattern → Dict String (List (PatternKey × ℕ)) → Dict String (List (PatternKey × ℕ))
index_patterns [] d = d
index_patterns (pattern ∷ patterns) d =
    index_patterns patterns (index_stops pattern.key 0 pattern.stops d)

-- `direction_id if direction_id is not None else 0`
abbrev pub direction : Option ℤ → ℤ
direction none = pos 0
direction (some d) = d

unfoldable pub key_of : Count → PatternKey
key_of row = (row.route_id, direction row.direction_id)

-- `current is None or stop_count > current[1]`
abbrev pub is_longer : ℕ → Option (String × ℕ) → Bool
is_longer n none = true
is_longer n (some current) = ltb current.1 n

unfoldable pub representative :
    List Count → Dict PatternKey (String × ℕ) → Dict PatternKey (String × ℕ)
representative [] chosen = chosen
representative (row ∷ rows) chosen =
    if is_longer row.stop_count (lookup (key_of row) chosen)
    then representative rows (insert (key_of row) (row.trip_id, row.stop_count) chosen)
    else representative rows chosen

-- `a or b` of a text that may be None
abbrev pub text_or : Option String → String → String
text_or none other = other
text_or (some text) other = if text == "" then other else text

abbrev pub name_after : Option PatternStop → String
name_after none = ""
name_after (some stop) = stop.name

abbrev pub column : Option Route → (Route → Option String) → Option String
column none f = none
column (some route) f = f route

unfoldable pub routes_by_id : List Route → Dict String Route → Dict String Route
routes_by_id [] d = d
routes_by_id (route ∷ routes) d = routes_by_id routes (insert route.route_id route d)

unfoldable pub make_pattern : PatternKey → Trip → Option Route → List PatternStop → Pattern
make_pattern key trip route stops = record {
  key = key;
  route_id = trip.route_id;
  direction_id = trip.direction_id;
  headsign = text_or trip.trip_headsign (concat "Towards " (name_after (get_last? stops)));
  route_short_name = column route (λ r. r.route_short_name);
  route_long_name = column route (λ r. r.route_long_name);
  route_color = column route (λ r. r.route_color);
  stops = stops;
}

-- `a.parent_station is not None and a.parent_station == b.parent_station`
abbrev pub same_complex : Option String → Option String → Bool
same_complex (some p) (some q) = p == q
same_complex _ _ = false

module _ {Num : Type 0} where
  unfoldable pub pattern_stop : StopTime × Stop Num → PatternStop
  pattern_stop (time, stop) = record {
    stop_id = stop.stop_id;
    name = stop.stop_name;
    arrival_seconds = time.arrival_seconds;
    departure_seconds = time.departure_seconds;
  }

  -- `if trip is None or len(pairs) < 2: continue`
  unfoldable pub add_pattern :
      Dict String Route
      → PatternKey
      → Option Trip
      → List (StopTime × Stop Num)
      → Dict PatternKey Pattern
      → Dict PatternKey Pattern
  add_pattern routes key none pairs patterns = patterns
  add_pattern routes key (some trip) pairs patterns =
      if ltb (length pairs) 2
      then patterns
      else insert key (make_pattern key trip (lookup trip.route_id routes) (map pattern_stop pairs))
          patterns

  unfoldable pub add_patterns :
      Timetable Num
      → Dict String Route
      → Dict PatternKey (String × ℕ)
      → Dict PatternKey Pattern
      → Dict PatternKey Pattern
  add_patterns table routes [] patterns = patterns
  add_patterns table routes ((key, (trip_id, n)) ∷ rest) patterns =
      add_patterns table routes rest
        (add_pattern routes key (table.trip trip_id) (table.stop_times_with_stops trip_id) patterns)

  unfoldable pub build_patterns : Timetable Num → Dict PatternKey Pattern
  build_patterns table =
      add_patterns table (routes_by_id table.routes []) (representative table.counts []) []

  unfoldable pub names : List (Stop Num) → Dict String String → Dict String String
  names [] d = d
  names (stop ∷ stops) d = names stops (insert stop.stop_id stop.stop_name d)

module _ (number : Number) (maths : Maths number.Num) where
  open number use {Num, plus, times, lt}

  unfoldable pub square : Num → Num
  square x = times x x

  unfoldable pub haversine_m : Num → Num → Num → Num → Num
  haversine_m lat1 lon1 lat2 lon2 =
      let phi1 = maths.radians lat1 in
      let phi2 = maths.radians lat2 in
      let dphi = maths.radians (maths.minus lat2 lat1) in
      let dlmb = maths.radians (maths.minus lon2 lon1) in
      let a = plus (square (maths.sin (maths.divide dphi maths.two))) (
        times (times (maths.cos phi1) (maths.cos phi2))
          (square (maths.sin (maths.divide dlmb maths.two)))) in
      times (times maths.two maths.earth_radius_m) (maths.asin (maths.sqrt a))

  module _ (params : PlannerParameters Num) where
    unfoldable pub is_walk : Stop Num → Stop Num → Bool
    is_walk a b =
        not (lt params.walk_max_m (haversine_m a.stop_lat a.stop_lon b.stop_lat b.stop_lon))
        || same_complex a.parent_station b.parent_station

    unfoldable pub walk_edge : Stop Num → Stop Num → Stop Num → WalkEdge Num
    walk_edge a b to =
        let distance = haversine_m a.stop_lat a.stop_lon b.stop_lat b.stop_lon in
        record {
          to_stop_id = to.stop_id;
          distance_m = distance;
          walk_seconds =
              plus (maths.divide distance params.walk_speed_mps) params.transfer_overhead_seconds;
        }

    unfoldable pub add_walk :
        Stop Num → Stop Num → Dict String (List (WalkEdge Num)) → Dict String (List (WalkEdge Num))
    add_walk a b edges =
        if is_walk a b
        then append_at b.stop_id (walk_edge a b a) (append_at a.stop_id (walk_edge a b b) edges)
        else edges

    -- the pairs of `itertools.combinations(stops, 2)`: each stop with those after it
    unfoldable pub walks_from :
        Stop Num
        → List (Stop Num)
        → Dict String (List (WalkEdge Num))
        → Dict String (List (WalkEdge Num))
    walks_from a [] edges = edges
    walks_from a (b ∷ stops) edges = walks_from a stops (add_walk a b edges)

    unfoldable pub build_walk_edges :
        List (Stop Num) → Dict String (List (WalkEdge Num)) → Dict String (List (WalkEdge Num))
    build_walk_edges [] edges = edges
    build_walk_edges (a ∷ stops) edges = build_walk_edges stops (walks_from a stops edges)

    unfoldable pub build_graph : Option String → Timetable Num → NetworkGraph Num
    build_graph version table =
        let patterns = build_patterns table in
        record {
          version = version;
          patterns = patterns;
          patterns_at = index_patterns (values patterns) [];
          walk_edges = build_walk_edges table.stops [];
          stop_names = names table.stops [];
        }
