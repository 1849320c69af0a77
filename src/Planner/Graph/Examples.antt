-- ===== src/Planner/Graph/Examples.antt =====
-- The network of a small timetable (src/metropulse/application/journey_planner.py).
use metropulse.Prelude.{
  ℕ, ◌-◌, ◌/◌, String, ◌≡◌, ◌↔◌, refl, some, none, [], ◌∷◌, Any, comparable_string,
}
use metropulse.Prelude.Dict.{lookup}
use metropulse.Prelude.Int.{pos}
use metropulse.Planner.Number.{whole_seconds}
use metropulse.Planner.Network.{PatternKey, comparable_key}
use metropulse.Planner.Network.Examples.{params}
use metropulse.Planner.Network.Placed.{StopsAt}
use metropulse.Planner.Graph.{
  Count, Maths, Stop, Timetable, key_of, append_at, add_pattern, add_patterns, add_walk,
  build_graph, build_patterns, build_walk_edges, haversine_m, index_patterns, index_stops, is_walk,
  make_pattern, pattern_stop, representative, routes_by_id, square, walk_edge, walks_from,
}
use metropulse.Planner.Graph.Listed.{Listed}
use metropulse.Planner.Graph.Consistent.{build_graph_lists}
use metropulse.Planner.Graph.Walks.{IsSymmetric, build_graph-IsSymmetric}
use metropulse.Planner.Graph.Representative.{AtLeast, IsRow, representative-longest}

-- Functions on whole numbers in the place of the trigonometric ones: stops on a street, with a
-- distance that grows as the square of their difference.
abbrev street : Maths ℕ
street = record {
  minus = λ a b. a - b;
  divide = λ a b. a / b;
  radians = λ a. a;
  sin = λ a. a;
  cos = λ a. 0;
  asin = λ a. a;
  sqrt = λ a. a;
  two = 2;
  earth_radius_m = 1;
}

abbrev stop : String → String → ℕ → Stop ℕ
stop stop_id name lat = record {
  stop_id = stop_id;
  stop_name = name;
  stop_lat = lat;
  stop_lon = 0;
  parent_station = none;
}

abbrev full : Count
full = record { route_id = "R"; direction_id = none; trip_id = "t2"; stop_count = 3 }

abbrev short : Count
short = record { route_id = "R"; direction_id = none; trip_id = "t1"; stop_count = 2 }

abbrev table : Timetable ℕ
table = record {
  stops = stop "A" "Aa" 0 ∷ stop "B" "Bb" 10 ∷ stop "C" "Cc" 90 ∷ [];
  routes =
      record {
        route_id = "R";
        route_short_name = some "Red";
        route_long_name = none;
        route_color = none;
      }
      ∷ [];
  counts = short ∷ full ∷ [];
  trip = λ trip_id.
      some
        (record { trip_id = trip_id; route_id = "R"; trip_headsign = none; direction_id = none });
  stop_times_with_stops = λ trip_id.
      (record { arrival_seconds = 0; departure_seconds = 0 }, stop "A" "Aa" 0)
      ∷ (record { arrival_seconds = 100; departure_seconds = 110 }, stop "B" "Bb" 10)
      ∷ (record { arrival_seconds = 200; departure_seconds = 200 }, stop "C" "Cc" 90)
      ∷ [];
}

build_graph_lists_example :
    Listed (build_graph whole_seconds street params none table).patterns_at "B" (("R", pos 0), 1)
    ↔ StopsAt (build_graph whole_seconds street params none table) "B" ("R", pos 0) 1
build_graph_lists_example =
    build_graph_lists whole_seconds street params none table "B" ("R", pos 0) 1

build_graph-IsSymmetric_example :
    IsSymmetric (build_graph whole_seconds street params none table).walk_edges
build_graph-IsSymmetric_example = build_graph-IsSymmetric whole_seconds street params none table

representative-longest_example :
    ((row : Count)
      → Any (λ r. r ≡ row) (short ∷ full ∷ [])
      → AtLeast (key_of row) row.stop_count (representative (short ∷ full ∷ []) []))
    × ((key : PatternKey) (trip : String × ℕ)
        → lookup key (representative (short ∷ full ∷ []) []) ≡ some trip
        → IsRow (short ∷ full ∷ []) key trip)
representative-longest_example = representative-longest (short ∷ full ∷ [])

longer_trip : representative table.counts [] ≡ (("R", pos 0), ("t2", 3)) ∷ []
unfolding representative key_of
longer_trip = refl

index_of_b :
    lookup "B" (build_graph whole_seconds street params none table).patterns_at
    ≡ some ((("R", pos 0), 1) ∷ [])
unfolding build_graph build_patterns add_patterns add_pattern make_pattern pattern_stop
    representative key_of routes_by_id index_patterns index_stops append_at
index_of_b = refl

walks_of_a :
    lookup "A" (build_graph whole_seconds street params none table).walk_edges
    ≡ some (record { to_stop_id = "B"; distance_m = 50; walk_seconds = 170 } ∷ [])
unfolding build_graph build_walk_edges walks_from add_walk is_walk walk_edge haversine_m square
    append_at
walks_of_a = refl
