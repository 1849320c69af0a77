-- ===== src/Planner/Journey/Legs.antt =====
-- The legs of a plan (src/metropulse/domain/journey.py): how they follow on one another, and what they
-- keep to in the network.
use metropulse.Prelude.{
  ℕ, ◌+◌, ◌-◌, ◌≤◌, String, ◌≡◌, sym, ◌∙◌, some, List, [], ◌∷◌, ◌++◌, Any, map, take, drop,
  get_elem?, get_last?, comparable_string,
}
use metropulse.Prelude.Dict.{lookup}
use metropulse.Planner.Network.{PatternKey, comparable_key, NetworkGraph, Pattern, WalkEdge}
use metropulse.Planner.Journey.{JourneyStop, JourneyLeg, ride_leg, walk_leg, station}

module _ {Num : Type 0} where
  abbrev pub leg_board : JourneyLeg Num → JourneyStop
  leg_board (ride_leg leg) = leg.board
  leg_board (walk_leg leg) = leg.board

  abbrev pub leg_alight : JourneyLeg Num → JourneyStop
  leg_alight (ride_leg leg) = leg.alight
  leg_alight (walk_leg leg) = leg.alight

  -- The legs lead from one stop to another, each on from where the one before it ends.
  abbrev pub Chain : String → List (JourneyLeg Num) → String → Type 0
  Chain from [] to = from ≡ to
  Chain from (leg ∷ legs) to =
      ((leg_board leg).stop_id ≡ from) × Chain (leg_alight leg).stop_id legs to

  pub Chain-snoc :
      (from middle to : String) (legs : List (JourneyLeg Num)) (leg : JourneyLeg Num)
      → Chain from legs middle
      → (leg_board leg).stop_id ≡ middle
      → (leg_alight leg).stop_id ≡ to
      → Chain from (legs ++ leg ∷ []) to
  Chain-snoc from middle to [] leg h p q = (p ∙ sym h, q)
  Chain-snoc from middle to (x ∷ legs) leg h p q =
      (h.0, Chain-snoc (leg_alight x).stop_id middle to legs leg h.1 p q)

  -- A ride keeps to one pattern, and a walk to an edge of the network.
  abbrev pub IsLeg : NetworkGraph Num → JourneyLeg Num → Type 0
  IsLeg graph (ride_leg leg) =
      (key : PatternKey) × (pattern : Pattern) × (from : ℕ) × (to : ℕ) × (lookup key graph.patterns
        ≡ some pattern)
      × from ≤ to
      × (leg.stations ≡ map station (take (to + 1 - from) (drop from pattern.stops)))
      × (get_elem? leg.stations 0 ≡ some leg.board)
      × (get_last? leg.stations ≡ some leg.alight)
      × (leg.route_id ≡ pattern.route_id)
  IsLeg graph (walk_leg leg) =
      (edges : List (WalkEdge Num)) × (edge : WalkEdge Num) × (lookup leg.board.stop_id
          graph.walk_edges
        ≡ some edges)
      × Any (λ e. e ≡ edge) edges
      × (edge.to_stop_id ≡ leg.alight.stop_id)
      × (edge.distance_m ≡ leg.distance_m)
      × (edge.walk_seconds ≡ leg.walk_seconds)
