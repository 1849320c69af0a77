-- ===== src/Planner/Network.antt =====
-- The routable network and one step of the search over it: `NetworkGraph`, `_search_weights`,
-- `_expand` and `_dijkstra` of src/metropulse/application/journey_planner.py.
pub mod Keys
pub mod Weights
pub mod Offered
pub mod Journeys
pub mod Steps
pub mod Placed
pub mod Bounded
pub mod Cheapest
pub mod Ends
pub mod Examples
use metropulse.Prelude.{
  ℕ, zero, suc, ◌+◌, String, Bool, Option, none, some, List, [], ◌∷◌, ◌++◌, map, leb, ltb,
  if◌then◌else◌, ◌==◌, comparable_string, length, get_elem?, ◌>>=◌,
}
use metropulse.Prelude.Dict.{Dict, keys, lookup}
use metropulse.Prelude.Int.{ℤ, sub_ℕ}
use metropulse.Planner.Number.{Number}
use metropulse.Planner.Search.{Edge, Outcome, run, initial}
use metropulse.Planner.Search.Budget.{budget}
use Keys.{PatternKey, comparable_key, State, at, on, comparable_state}
pub use Keys.{PatternKey, comparable_key, State, at, on, comparable_state}

pub record PatternStop : Type 0 where
  pub stop_id : String
  pub name : String
  pub arrival_seconds : ℕ
  pub departure_seconds : ℕ

pub record Pattern : Type 0 where
  pub key : PatternKey
  pub route_id : String
  pub direction_id : Option ℤ
  pub headsign : String
  pub route_short_name : Option String
  pub route_long_name : Option String
  pub route_color : Option String
  pub stops : List PatternStop

pub record WalkEdge (Num : Type 0) : Type 0 where
  pub to_stop_id : String
  pub distance_m : Num
  pub walk_seconds : Num

pub record NetworkGraph (Num : Type 0) : Type 0 where
  pub version : Option String
  pub patterns : Dict PatternKey Pattern
  pub patterns_at : Dict String (List (PatternKey × ℕ))
  pub walk_edges : Dict String (List (WalkEdge Num))
  pub stop_names : Dict String String

pub record PlannerParameters (Num : Type 0) : Type 0 where
  pub walk_max_m : Num
  pub walk_speed_mps : Num
  pub transfer_overhead_seconds : Num
  pub board_penalty_seconds : Num
  pub min_hop_seconds : Num
  pub walk_cost_multiplier : Num

pub data Action (Num : Type 0) : Type 0 where
  board : PatternKey → ℕ → Action Num
  ride : PatternKey → ℕ → Num → Action Num
  alight : PatternKey → ℕ → Action Num
  walk : String → String → Num → Num → Action Num

-- An edge before the cost of its start is known. With no weight the cost is passed on as it is.
pub record Arc (Num : Type 0) : Type 0 where
  pub to : State
  pub weight : Option Num
  pub action : Action Num

abbrev pub listed_at {ℓ} : {A : Type ℓ} → Option (List A) → List A
listed_at none = []
listed_at (some xs) = xs

module _ (number : Number) where
  open number use {Num, plus, times, lt, of_int}

  -- `_search_weights`, none is ValueError
  unfoldable pub search_weights : PlannerParameters Num → String → Option (PlannerParameters Num)
  search_weights base preference =
      if preference == "fastest"
      then some base
      else if preference == "fewer_transfers"
      then some (record base {
        board_penalty_seconds = times base.board_penalty_seconds (of_int (sub_ℕ 4 0));
      })
      else if preference == "less_walking"
      then some (record base {
        walk_cost_multiplier = times base.walk_cost_multiplier (of_int (sub_ℕ 6 0));
      })
      else none

  module _ (graph : NetworkGraph Num) (params : PlannerParameters Num) where
    -- the terminus is passed over
    unfoldable pub boarded : Pattern → PatternKey → ℕ → List (Arc Num) → List (Arc Num)
    boarded pattern key index arcs =
        if leb (length pattern.stops) (index + 1)
        then arcs
        else (record {
          to = on key index;
          weight = some params.board_penalty_seconds;
          action = board key index;
        }
            ∷ arcs)

    -- `for key, index in graph.patterns_at.get(stop_id, [])`; none is the KeyError of
    -- `graph.patterns[key]`
    unfoldable pub boarding : List (PatternKey × ℕ) → Option (List (Arc Num))
    boarding [] = some []
    boarding ((key, index) ∷ rest) = do
      pattern ← lookup key graph.patterns
      arcs ← boarding rest
      some (boarded pattern key index arcs)

    unfoldable pub walking : String → WalkEdge Num → Arc Num
    walking stop_id edge = record {
      to = at edge.to_stop_id;
      weight = some (times edge.walk_seconds params.walk_cost_multiplier);
      action = walk stop_id edge.to_stop_id edge.distance_m edge.walk_seconds;
    }

    -- `max(scheduled, min_hop_seconds)`
    unfoldable pub hop : PatternStop → PatternStop → Num
    hop here next =
        let scheduled = of_int (sub_ℕ next.arrival_seconds here.departure_seconds) in
        if lt scheduled params.min_hop_seconds then params.min_hop_seconds else scheduled

    unfoldable pub riding : PatternKey → ℕ → PatternStop → List PatternStop → List (Arc Num)
    riding key index here stops = elim (get_elem? stops (index + 1)) [
      | none ↦ []
      | some next ↦
          record {
            to = on key (index + 1);
            weight = some (hop here next);
            action = ride key (index + 1) (hop here next);
          }
          ∷ []
    ]

    -- The calls of `_relax` in `_expand`, in their order; none is a KeyError or IndexError.
    unfoldable pub arcs : State → Option (List (Arc Num))
    arcs (at stop_id) = do
      boards ← boarding (listed_at (lookup stop_id graph.patterns_at))
      some (boards ++ map (walking stop_id) (listed_at (lookup stop_id graph.walk_edges)))
    arcs (on key index) = do
      pattern ← lookup key graph.patterns
      here ← get_elem? pattern.stops index
      some (
          record { to = at here.stop_id; weight = none; action = alight key index }
          ∷ riding key index here pattern.stops)

    abbrev pub over : Num → Option Num → Num
    over cost none = cost
    over cost (some weight) = plus cost weight

    abbrev pub edge_at : Num → Arc Num → Edge Num State (Action Num)
    edge_at cost arc = record { to = arc.to; cost = over cost arc.weight; action = arc.action }

    unfoldable pub expand : State → Num → Option (List (Edge Num State (Action Num)))
    expand state cost = do out ← arcs state; some (map (edge_at cost) out)

    -- Fuel: the states that have edges, and how many.
    unfoldable pub positions : PatternKey → ℕ → List State
    positions key zero = []
    positions key (suc n) = on key n ∷ positions key n

    unfoldable pub on_trains : Dict PatternKey Pattern → List State
    on_trains [] = []
    on_trains ((key, pattern) ∷ rest) = positions key (length pattern.stops) ++ on_trains rest

    unfoldable pub universe : List State
    universe =
        map at (keys graph.patterns_at)
        ++ (map at (keys graph.walk_edges) ++ on_trains graph.patterns)

    unfoldable pub degree : State → ℕ
    degree state = length (listed_at (arcs state))

    unfoldable pub search_fuel : ℕ
    search_fuel = 2 + budget degree universe []

    -- `_dijkstra`, and the search of `travel_seconds_from` where `target` is none
    unfoldable pub search : String → Option State → Outcome Num State (Action Num)
    search origin target =
        run number State (Action Num) expand (at origin) search_fuel search_fuel target
          (initial number State (Action Num) expand (at origin))

    -- `{state[1]: cost for state, cost in best.items() if state[0] == "at"}`. The keys of a
    -- dictionary are distinct, so no entry replaces another.
    unfoldable pub at_costs : Dict State Num → Dict String Num
    at_costs [] = []
    at_costs ((at stop_id, cost) ∷ rest) = (stop_id, cost) ∷ at_costs rest
    at_costs ((on _ _, _) ∷ rest) = at_costs rest
