-- ===== src/Planner/Network/Ends.antt =====
-- The end of the searches of src/metropulse/application/journey_planner.py.
use metropulse.Prelude.{String, ℕ, ◌≤◌, ◌≡◌, Option, comparable_string}
use metropulse.Planner.Number.{Number}
use metropulse.Planner.Search.{Outcome, found, exhausted, raised, out_of_fuel, run, initial}
use metropulse.Planner.Search.Run.{IsCorrect}
use metropulse.Planner.Search.Fuel.{Returns, run-IsKept}
use metropulse.Planner.Network.Keys.{State, at, comparable_state}
use metropulse.Planner.Network.{
  Action, NetworkGraph, PlannerParameters, expand, search, search_fuel,
}
use metropulse.Planner.Network.Weights.{IsNonNegative}
use metropulse.Planner.Network.Placed.{IsWellFormed}
use metropulse.Planner.Network.Cheapest.{search-IsCorrect, no_raise}

module _ (number : Number) (graph : NetworkGraph number.Num) (params : PlannerParameters number.Num)
    (heavy : IsNonNegative number graph params) (formed : IsWellFormed graph) (origin : String)
    (target : Option State) where
  open number use {Num}

  abbrev pub IsResult : Outcome Num State (Action Num) → Type 0
  IsResult = Returns number State (Action Num) (expand number graph params) (at origin)

  correct-Returns :
      (outcome : Outcome Num State (Action Num))
      → IsCorrect number State (Action Num) (expand number graph params) (at origin) target outcome
      → IsResult outcome
  correct-Returns (found actions) h = tt
  correct-Returns (exhausted best) h = tt
  correct-Returns raised (s, c, actions, route, h) =
      absurd (no_raise number graph params heavy formed origin s c actions route h)
  correct-Returns out_of_fuel h = elim h [ ]

  -- In a graph whose lists of patterns name stops of patterns that exist, and without negative weights, the search of any target ends with a result and without an exception, and every fuel that is not less than the fuel of the model gives the same result: the loops of the source, which have no fuel, end with it.
  pub search_ends :
      (fuel : ℕ)
      → search_fuel number graph params ≤ fuel
      → IsResult (search number graph params origin target)
        × (run number State
              (Action Num)
              (expand number graph params)
              (at origin)
              fuel
              fuel
              target
              (initial number State (Action Num) (expand number graph params) (at origin))
            ≡ search number graph params origin target)
  unfolding search
  search_ends fuel enough =
      let returns =
        correct-Returns (search number graph params origin target)
          (search-IsCorrect number graph params heavy formed origin target) in
      (
        returns,
        run-IsKept number State (Action Num) (expand number graph params) (at origin)
            (search_fuel number graph params) fuel enough (search_fuel number graph params) fuel
            enough target _ _ _ _ returns,
      )
