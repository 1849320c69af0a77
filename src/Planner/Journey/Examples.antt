-- ===== src/Planner/Journey/Examples.antt =====
-- Plans on the line A - B - C (src/metropulse/application/journey_planner.py).
use metropulse.Prelude.{
  not_both, String, ℕ, ◌+◌, ◌*◌, String, ◌≡◌, ◌≢◌, refl, inl, inr, none, [], ◌∷◌, arith,
  comparable_string,
}
use metropulse.Prelude.Dict.{Dict}
use metropulse.Planner.Number.{whole_seconds}
use metropulse.Planner.Search.{run, pop_min, reconstruct_from, relax, relax_all}
use metropulse.Planner.Search.Budget.{budget}
use metropulse.Planner.Network.{
  arcs, boarding, boarded, degree, expand, hop, on_trains, positions, riding, search, search_fuel,
  search_weights, universe, walking, at_costs,
}
use metropulse.Planner.Network.Examples.{graph, params, graph-IsNonNegative, graph-IsConsistent}
use metropulse.Planner.Network.Placed.{consistent-IsWellFormed}
use metropulse.Planner.Network.Cheapest.{Costs}
use metropulse.Planner.Journey.{
  JourneyPlan, ride_leg, no_route, plan, travel_seconds_from, assemble, assemble_all, build_plan,
  plan_of, make_ride_leg, stations_between, stop, ride_legs,
}
use metropulse.Planner.Journey.Planned.{
  Answered, IsFastest, plan_answers, plan-IsFastest, travel_seconds_from-Costs,
}

abbrev later : ℕ → ℕ → ℕ
later t seconds = t + seconds

abbrev a_to_c : JourneyPlan ℕ ℕ
a_to_c = record {
  origin = record { stop_id = "A"; name = "Aa" };
  destination = record { stop_id = "C"; name = "Cc" };
  departure_at = 1000;
  expected_arrival_at = 1490;
  expected_travel_seconds = 490;
  interchange_count = 0;
  walking_distance_m = 0;
  legs =
      ride_leg (record {
        board = record { stop_id = "A"; name = "Aa" };
        alight = record { stop_id = "C"; name = "Cc" };
        route_id = "R";
        route_short_name = none;
        route_long_name = none;
        route_color = none;
        direction_id = none;
        platform_hint = "Towards C";
        stations =
            record { stop_id = "A"; name = "Aa" }
            ∷ record { stop_id = "B"; name = "Bb" }
            ∷ record { stop_id = "C"; name = "Cc" }
            ∷ [];
        ride_seconds = 190;
        wait_seconds = 300;
      })
      ∷ [];
}

plan-a_to_c : plan whole_seconds graph params later "A" "C" 1000 "fastest" ≡ inr a_to_c
unfolding plan search_weights search search_fuel universe degree on_trains positions budget arcs
    boarding boarded riding walking hop expand run relax relax_all pop_min reconstruct_from assemble
    assemble_all build_plan plan_of make_ride_leg stations_between stop ride_legs
plan-a_to_c = refl

plan_to_d : plan whole_seconds graph params later "A" "D" 1000 "fastest" ≡ inl no_route
unfolding plan search_weights search search_fuel universe degree on_trains positions budget arcs
    boarding boarded riding walking hop expand run relax relax_all pop_min reconstruct_from
plan_to_d = refl

a_not_c : ◌≢◌ {A = String} "A" "C"
a_not_c p = not_both ((comparable_string.equal_iff "A" "C").1 p) refl

plan_answers_example :
    Answered whole_seconds graph params later params "A" "C" 1000
      (plan whole_seconds graph params later "A" "C" 1000 "fastest")
unfolding search_weights
plan_answers_example =
    plan_answers whole_seconds graph params later params graph-IsNonNegative graph-IsConsistent "A"
      "C" 1000 "fastest" a_not_c refl refl refl

by_one : (seconds : ℕ) → seconds * 1 ≡ seconds
by_one seconds = omega arith

plan-IsFastest_example :
    IsFastest whole_seconds graph params later graph-IsNonNegative graph-IsConsistent by_one "A" "C"
      1000 a_to_c
plan-IsFastest_example =
    plan-IsFastest whole_seconds graph params later graph-IsNonNegative graph-IsConsistent by_one
      "A" "C" 1000 a_to_c a_not_c refl refl plan-a_to_c

travel_seconds_from-Costs_example :
    (costs : Dict String ℕ) × (travel_seconds_from whole_seconds graph params "A" ≡ inr costs)
    × Costs whole_seconds graph params graph-IsNonNegative
        (consistent-IsWellFormed graph graph-IsConsistent)
        "A"
        costs
travel_seconds_from-Costs_example =
    travel_seconds_from-Costs whole_seconds graph params graph-IsNonNegative graph-IsConsistent "A"
      refl

costs_from_a :
    travel_seconds_from whole_seconds graph params "A"
    ≡ inr (("A", 0) ∷ ("C", 490) ∷ ("B", 400) ∷ [])
unfolding travel_seconds_from at_costs search search_fuel universe degree on_trains positions budget
    arcs boarding boarded riding walking hop expand run relax relax_all pop_min reconstruct_from
costs_from_a = refl
