-- ===== src/Planner/Network/Cheapest.antt =====
-- What `_dijkstra` and the search of `travel_seconds_from` find
-- (src/metropulse/application/journey_planner.py).
use metropulse.Prelude.{
  String, ◌≡◌, ◌≢◌, refl, sym, ap, subst, ◌∙◌, ◌⊎◌, inl, inr, Option, none, some, List, [], ◌∷◌,
  if◌then◌else◌, ◌==◌, comparable_string, arith,
}
use mathlib.Core.Option.{some-injective}
use metropulse.Prelude.Dict.{Dict, lookup}
use metropulse.Planner.Number.{Number, AtMost}
use metropulse.Planner.Search.{Outcome, found, exhausted, raised, out_of_fuel}
use metropulse.Planner.Network.Journeys.{Journey, Found, Journey-of, route_of}
use metropulse.Planner.Search.Run.{IsCorrect}
use metropulse.Planner.Search.Correct.{run-IsCorrect}
use metropulse.Planner.Network.Keys.{State, at, on, comparable_state}
use metropulse.Planner.Network.{
  Action, NetworkGraph, PlannerParameters, at_costs, degree, expand, search, search_fuel, universe,
}
use metropulse.Planner.Network.Weights.{IsNonNegative, expand-IsMonotone}
use metropulse.Planner.Network.Bounded.{expand-IsBounded}
use metropulse.Planner.Network.Placed.{IsWellFormed, expands}

module _ (number : Number) (graph : NetworkGraph number.Num)
    (params : PlannerParameters number.Num) where
  open number use {Num}

  -- From the origin the state is reached at this cost by these actions.
  abbrev pub Leads : String → State → Num → List (Action Num) → Type 0
  Leads = Journey number graph params

  abbrev pub IsCheapest : String → String → List (Action Num) → Type 0
  IsCheapest origin destination actions =
      (b : Num) × Leads origin (at destination) b actions
      × ((c : Num) (others : List (Action Num))
          → Leads origin (at destination) c others
          → AtMost number b c)

  abbrev pub Unreachable : String → String → Type 0
  Unreachable origin destination =
      (c : Num) (others : List (Action Num)) → ¬ Leads origin (at destination) c others

  lookup-at_costs :
      (d : Dict State Num) (s : String)
      → lookup s (at_costs number graph params d) ≡ lookup (at s) d
  unfolding at_costs
  lookup-at_costs [] s = refl
  lookup-at_costs ((at t, c) ∷ d) s =
      ap (λ (o : Option Num). if t == s then some c else o) (lookup-at_costs d s)
  lookup-at_costs ((on k i, c) ∷ d) s = lookup-at_costs d s

  module _ (heavy : IsNonNegative number graph params) (formed : IsWellFormed graph)
      (origin : String) where
    pub search-IsCorrect :
        (target : Option State)
        → IsCorrect number State
            (Action Num)
            (expand number graph params)
            (at origin)
            target
            (search number graph params origin target)
    unfolding search search_fuel
    search-IsCorrect target =
        run-IsCorrect number State (Action Num) (expand number graph params) (at origin)
          (expand-IsMonotone number graph params heavy (at origin)) (universe number graph params)
          (degree number graph params) (expand-IsBounded number graph params) target
          (search_fuel number graph params) (omega arith)

    pub no_raise :
        (s : State) (c : Num) (actions : List (Action Num))
        → Found number graph params origin s c actions
        → expand number graph params s c ≢ none
    no_raise s c actions found_route h =
        let (es, is_es) = expands number graph params formed origin s c actions found_route in
        let impossible = sym h ∙ is_es in cc

    abbrev pub Dijkstra : String → Outcome Num State (Action Num) → Type 0
    Dijkstra destination outcome =
        ((actions : List (Action Num)) × (outcome ≡ found actions)
          × IsCheapest origin destination actions)
        ⊎ ((best : Dict State Num) × (outcome ≡ exhausted best) × Unreachable origin destination)

    journey :
        {s : State} {c : Num} {actions : List (Action Num)}
        → Found number graph params origin s c actions
        → Leads origin s c actions
    journey = Journey-of number graph params origin

    route :
        {s : State} {c : Num} {actions : List (Action Num)}
        → Leads origin s c actions
        → Found number graph params origin s c actions
    route = route_of number graph params origin formed

    Dijkstra-of :
        (destination : String) (outcome : Outcome Num State (Action Num))
        → IsCorrect number State
            (Action Num)
            (expand number graph params)
            (at origin)
            (some (at destination))
            outcome
        → Dijkstra destination outcome
    Dijkstra-of destination (found actions) (t, b, is_t, found_route, least) =
        let same = some-injective _ _ is_t in
        inl (
          actions,
          refl,
          (
            b,
            subst (λ (s : State). Leads origin s b actions) (sym same) (journey found_route),
            λ c others other.
                least c others (route (subst (λ (s : State). Leads origin s c others) same other)),
          ),
        )
    Dijkstra-of destination (exhausted best) (_, _, none_to) =
        inr (best, refl, λ c others other. none_to (at destination) c others refl (route other))
    Dijkstra-of destination raised (s, c, actions, found_route, h) =
        absurd (no_raise s c actions found_route h)
    Dijkstra-of destination out_of_fuel h = elim h [ ]

    -- In a graph whose lists of patterns name stops of patterns that exist, and without negative
    -- weights, the search ends without an exception: with the actions of a journey to the
    -- destination that is at least as cheap as every other, or with the queue empty, and then no
    -- journey leads there.
    pub search-cheapest :
        (destination : String)
        → Dijkstra destination (search number graph params origin (some (at destination)))
    search-cheapest destination =
        Dijkstra-of destination _ (search-IsCorrect (some (at destination)))

    abbrev pub Costs : Dict String Num → Type 0
    Costs costs =
        ((stop_id : String) (b : Num)
          → lookup stop_id costs ≡ some b
          → (actions : List (Action Num)) × Leads origin (at stop_id) b actions)
        × ((stop_id : String) (c : Num) (actions : List (Action Num))
            → Leads origin (at stop_id) c actions
            → (b : Num) × (lookup stop_id costs ≡ some b) × AtMost number b c)

    abbrev pub Settled : Outcome Num State (Action Num) → Type 0
    Settled outcome =
        (best : Dict State Num) × (outcome ≡ exhausted best)
        × Costs (at_costs number graph params best)

    Settled-of :
        (outcome : Outcome Num State (Action Num))
        → IsCorrect number State (Action Num) (expand number graph params) (at origin) none outcome
        → Settled outcome
    Settled-of (found actions) (t, _, is_t, _, _) = cc
    Settled-of (exhausted best) (sound, complete, _) = (
      best,
      refl,
      (
        (λ stop_id b h.
            let (actions, found_route) =
              sound (at stop_id) b (sym (lookup-at_costs best stop_id) ∙ h) in
            (actions, journey found_route)),
        (λ stop_id c actions leads.
            let (b, is_b, low) = complete (at stop_id) c actions (route leads) in
            (b, lookup-at_costs best stop_id ∙ is_b, low)),
      ),
    )
    Settled-of raised (s, c, actions, found_route, h) = absurd (no_raise s c actions found_route h)
    Settled-of out_of_fuel h = elim h [ ]

    pub search-costs : Settled (search number graph params origin none)
    search-costs = Settled-of _ (search-IsCorrect none)
