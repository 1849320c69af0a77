-- ===== src/Planner/Journey/Planned.antt =====
-- What `plan` and `travel_seconds_from` answer (src/metropulse/application/journey_planner.py).
use metropulse.Prelude.{
  ◌∙◌, bind_some, ap, String, ◌≡◌, ◌≢◌, refl, sym, subst, ◌⊎◌, inl, inr, true, some, List, All,
  comparable_string, key_cases,
}
use metropulse.Prelude.Dict.{has_key, Dict}
use metropulse.Planner.Number.{Number, AtMost}
use metropulse.Planner.Search.{Outcome, found}
use metropulse.Planner.Network.{State, at, Action, NetworkGraph, PlannerParameters, search_weights}
use metropulse.Planner.Network.Weights.{IsNonNegative}
use metropulse.Planner.Network.Placed.{IsConsistent, consistent-IsWellFormed}
use metropulse.Planner.Network.Cheapest.{
  Dijkstra, IsCheapest, Unreachable, search-cheapest, Costs, search-costs,
}
use metropulse.Planner.Network.Journeys.{Journey}
use metropulse.Planner.Journey.Times.{assemble_all-cost}
use mathlib.Core.Option.{some-injective}
use metropulse.Planner.Journey.{
  travel_seconds_from, assemble_all, unassembled, JourneyPlan, PlanError, no_route, answer,
  build_plan, plan, plan_of,
}
use metropulse.Planner.Journey.Connected.{assemble_all-Legs}
use metropulse.Planner.Journey.Legs.{Chain, IsLeg}

module _ (number : Number) (graph : NetworkGraph number.Num) (params : PlannerParameters number.Num)
    {Instant : Type 0} (after : Instant → number.Num → Instant) where
  open number use {Num}

  -- A plan for a cheapest journey under the weights: its legs lead from the origin to the
  -- destination, along patterns and walks of the network.
  abbrev pub IsPlan :
      PlannerParameters Num → String → String → Instant → JourneyPlan Num Instant → Type 0
  IsPlan weights origin destination departure p =
      (actions : List (Action Num)) × IsCheapest number graph weights origin destination actions
      × (build_plan number graph params after origin destination departure actions ≡ some p)
      × Chain origin p.legs destination
      × All (IsLeg graph) p.legs

  abbrev pub Answered :
      PlannerParameters Num
      → String
      → String
      → Instant
      → PlanError ⊎ JourneyPlan Num Instant
      → Type 0
  Answered weights origin destination departure (inr p) =
      IsPlan weights origin destination departure p
  Answered weights origin destination departure (inl no_route) =
      Unreachable number graph weights origin destination
  Answered weights origin destination departure (inl _) = ⊥

  module _ (weights : PlannerParameters Num) (heavy : IsNonNegative number graph weights)
      (consistent : IsConsistent graph) (origin destination : String) (departure : Instant) where
    built_plan :
        (actions : List (Action Num))
        → IsCheapest number graph weights origin destination actions
        → Answered weights origin destination departure
            (answer number graph params after origin destination departure (found actions))
    unfolding build_plan plan_of
    built_plan actions (b, journey, least) =
        let (st, is_st, (chain, legs)) =
          assemble_all-Legs number graph params weights consistent origin journey in
        rw is_st (actions, (b, journey, least), rw is_st refl, chain, legs)

    answered :
        (outcome : Outcome Num State (Action Num))
        → Dijkstra number graph weights heavy
            (consistent-IsWellFormed graph consistent)
            origin
            destination
            outcome
        → Answered weights origin destination departure
            (answer number graph params after origin destination departure outcome)
    answered outcome (inl (actions, is_found, cheapest)) =
        subst
          (λ (o : Outcome Num State (Action Num)).
            Answered weights origin destination departure
              (answer number graph params after origin destination departure o))
          (sym is_found) (built_plan actions cheapest)
    answered outcome (inr (best, is_exhausted, nowhere)) =
        subst
          (λ (o : Outcome Num State (Action Num)).
            Answered weights origin destination departure
              (answer number graph params after origin destination departure o))
          (sym is_exhausted) nowhere

    -- In a consistent graph where no weight of the search is negative, between two different stops
    -- that are known and for a known preference: `plan` answers with a plan for a cheapest journey,
    -- whose legs lead from the origin to the destination, along patterns and walks of the network;
    -- or it raises NoRouteError, and then no journey leads there. It raises nothing else.
    pub plan_answers :
        (preference : String)
        → origin ≢ destination
        → has_key origin graph.stop_names ≡ true
        → has_key destination graph.stop_names ≡ true
        → search_weights number params preference ≡ some weights
        → Answered weights origin destination departure
            (plan number graph params after origin destination departure preference)
    unfolding plan
    plan_answers preference apart known_origin known_destination is_weights =
        elim (key_cases origin destination) [
          | inl same ↦ absurd (apart same)
          | inr other ↦
              rw (other, known_origin, known_destination, is_weights)
                (answered _ (
                  search-cheapest number graph weights heavy
                    (consistent-IsWellFormed graph consistent) origin destination))
        ]

  -- Time is what "fastest" weighs, if a walk counts for as long as it takes.
  module _ (heavy : IsNonNegative number graph params) (consistent : IsConsistent graph)
      (unscaled : (seconds : Num) → number.times seconds params.walk_cost_multiplier ≡ seconds)
      (origin destination : String) (departure : Instant) where
    abbrev pub IsFastest : JourneyPlan Num Instant → Type 0
    IsFastest p =
        ((actions : List (Action Num)) × Journey number graph params origin (at destination)
            p.expected_travel_seconds actions)
        × ((c : Num) (others : List (Action Num))
            → Journey number graph params origin (at destination) c others
            → AtMost number p.expected_travel_seconds c)

    IsFastest-of :
        (p : JourneyPlan Num Instant) → IsPlan params origin destination departure p → IsFastest p
    unfolding build_plan plan_of
    IsFastest-of p (actions, (b, journey, least), is_built, _, _) =
        let (st, is_st, is_p) =
          bind_some (assemble_all number graph params (unassembled number graph params) actions) _ p
            is_built in
        let takes : b ≡ p.expected_travel_seconds =
          sym (assemble_all-cost number graph params unscaled origin st journey is_st)
          ∙ ap (λ (x : JourneyPlan Num Instant). x.expected_travel_seconds)
              (some-injective _ _ is_p) in
        (
          (
            actions,
            subst (λ (t : Num). Journey number graph params origin (at destination) t actions) takes
                journey,
          ),
          (λ c others other. subst (λ (t : Num). AtMost number t c) takes (least c others other)),
        )

    -- In a consistent graph without negative weights, between two different stops that are known,
    -- and if a walk is weighed by its own duration: the travel time that a plan for "fastest" states
    -- is the cost of a journey to the destination, and no journey there costs less.
    pub plan-IsFastest :
        (p : JourneyPlan Num Instant)
        → origin ≢ destination
        → has_key origin graph.stop_names ≡ true
        → has_key destination graph.stop_names ≡ true
        → plan number graph params after origin destination departure "fastest" ≡ inr p
        → IsFastest p
    unfolding search_weights
    plan-IsFastest p apart known_origin known_destination is_plan = IsFastest-of p (
        subst (Answered params origin destination departure) is_plan (
          plan_answers params heavy consistent origin destination departure "fastest" apart
            known_origin known_destination refl))

-- In a consistent graph without negative weights, from a stop that is known: `travel_seconds_from`
-- answers with a table of which each entry is the cost of a journey to that stop, and in which every
-- stop that a journey leads to has an entry that costs no more than the journey.
pub travel_seconds_from-Costs :
    (number : Number) (graph : NetworkGraph number.Num) (params : PlannerParameters number.Num)
    (heavy : IsNonNegative number graph params) (consistent : IsConsistent graph) (origin : String)
    → has_key origin graph.stop_names ≡ true
    → (costs : Dict String number.Num) × (travel_seconds_from number graph params origin
        ≡ inr costs)
      × Costs number graph params heavy (consistent-IsWellFormed graph consistent) origin costs
unfolding travel_seconds_from
travel_seconds_from-Costs number graph params heavy consistent origin known =
    let (best, is_best, costs) =
      search-costs number graph params heavy (consistent-IsWellFormed graph consistent) origin in
    (_, rw (known, is_best) refl, costs)
