-- ===== src/Planner/Network/Examples.antt =====
-- A line A - B - C with a walk between A and C, and a stop D off the network
-- (src/metropulse/application/journey_planner.py).
use metropulse.Prelude.{◌+◌, arith, All, ◌*◌, ℕ, ◌≡◌, refl, some, none, [], ◌∷◌, comparable_string}
use metropulse.Prelude.Dict.{lookup-All}
use metropulse.Prelude.Int.{pos}
use metropulse.Planner.Number.{AtMost, whole_seconds}
use metropulse.Planner.Search.{found, initial, run, pop_min, reconstruct_from, relax, relax_all}
use metropulse.Planner.Network.{
  Action, PatternKey, Pattern, at, board, ride, alight, NetworkGraph, PlannerParameters, arcs,
  boarding, boarded, degree, expand, hop, on_trains, positions, riding, search, search_fuel,
  universe, walking,
}
use metropulse.Planner.Network.Weights.{IsNonNegative}
use metropulse.Planner.Network.Placed.{StopsAt, IsConsistent, consistent-IsWellFormed}
use metropulse.Planner.Network.Cheapest.{Dijkstra, search-cheapest}
use metropulse.Planner.Network.Keys.{State, comparable_state}
use metropulse.Planner.Network.Ends.{IsResult, search_ends}
use metropulse.Planner.Search.Budget.{budget}

abbrev line : PatternKey
line = ("R", pos 0)

abbrev pattern : Pattern
pattern = record {
  key = line;
  route_id = "R";
  direction_id = none;
  headsign = "Towards C";
  route_short_name = none;
  route_long_name = none;
  route_color = none;
  stops =
      record { stop_id = "A"; name = "Aa"; arrival_seconds = 0; departure_seconds = 0 }
      ∷ record { stop_id = "B"; name = "Bb"; arrival_seconds = 100; departure_seconds = 110 }
      ∷ record { stop_id = "C"; name = "Cc"; arrival_seconds = 200; departure_seconds = 200 }
      ∷ [];
}

abbrev pub graph : NetworkGraph ℕ
graph = record {
  version = none;
  patterns = (line, pattern) ∷ [];
  patterns_at = ("A", (line, 0) ∷ []) ∷ ("B", (line, 1) ∷ []) ∷ ("C", (line, 2) ∷ []) ∷ [];
  walk_edges =
      ("A", record { to_stop_id = "C"; distance_m = 900; walk_seconds = 600 } ∷ [])
      ∷ ("C", record { to_stop_id = "A"; distance_m = 900; walk_seconds = 600 } ∷ [])
      ∷ [];
  stop_names = ("A", "Aa") ∷ ("B", "Bb") ∷ ("C", "Cc") ∷ ("D", "Dd") ∷ [];
}

abbrev pub params : PlannerParameters ℕ
params = record {
  walk_max_m = 300;
  walk_speed_mps = 1;
  transfer_overhead_seconds = 120;
  board_penalty_seconds = 300;
  min_hop_seconds = 30;
  walk_cost_multiplier = 1;
}

pub graph-IsNonNegative : IsNonNegative whole_seconds graph params
graph-IsNonNegative = record {
  board = refl;
  hop = refl;
  walks = λ stop_id edges.
      lookup-All
        (λ s es.
          All (λ e. AtMost whole_seconds 0 (e.walk_seconds * params.walk_cost_multiplier)) es)
        stop_id edges graph.walk_edges ((refl, tt), ((refl, tt), tt));
}

pub graph-IsConsistent : IsConsistent graph
graph-IsConsistent stop_id entries =
    lookup-All (λ s es. All (λ entry. StopsAt graph s entry.0 entry.1) es) stop_id entries
      graph.patterns_at
      (
        ((pattern, _, refl, refl, refl), tt),
        (((pattern, _, refl, refl, refl), tt), (((pattern, _, refl, refl, refl), tt), tt)),
      )

-- riding twice is cheaper than walking
ride_to_C :
    search whole_seconds graph params "A" (some (at "C"))
    ≡ found (board line 0 ∷ ride line 1 100 ∷ ride line 2 90 ∷ alight line 2 ∷ [])
unfolding search search_fuel universe degree on_trains positions budget arcs boarding boarded riding
    walking hop expand run relax relax_all pop_min reconstruct_from
ride_to_C = refl

search-cheapest_example :
    Dijkstra whole_seconds graph params graph-IsNonNegative
      (consistent-IsWellFormed graph graph-IsConsistent)
      "A"
      "C"
      (search whole_seconds graph params "A" (some (at "C")))
search-cheapest_example =
    search-cheapest whole_seconds graph params graph-IsNonNegative
      (consistent-IsWellFormed graph graph-IsConsistent) "A" "C"

search_ends_example :
    IsResult whole_seconds graph params graph-IsNonNegative
      (consistent-IsWellFormed graph graph-IsConsistent)
      "A"
      none
      (search whole_seconds graph params "A" none)
    × (run whole_seconds State
          (Action ℕ)
          (expand whole_seconds graph params)
          (at "A")
          (search_fuel whole_seconds graph params + 5)
          (search_fuel whole_seconds graph params + 5)
          none
          (initial whole_seconds State (Action ℕ) (expand whole_seconds graph params) (at "A"))
        ≡ search whole_seconds graph params "A" none)
search_ends_example =
    search_ends whole_seconds graph params graph-IsNonNegative
      (consistent-IsWellFormed graph graph-IsConsistent) "A" none
      (search_fuel whole_seconds graph params + 5) (omega arith)
