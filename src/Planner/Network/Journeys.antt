-- ===== src/Planner/Network/Journeys.antt =====
-- Journeys, which are sequences of steps, and the routes of the search
-- (src/metropulse/application/journey_planner.py).
use metropulse.Prelude.{String, ◌≡◌, ◌∷◌, [], ◌++◌, List}
use metropulse.Planner.Number.{Number}
use metropulse.Planner.Search.Routes.{Route, stay, extend}
use metropulse.Planner.Network.Keys.{State, at, comparable_state}
use metropulse.Planner.Network.{Action, NetworkGraph, PlannerParameters, expand}
use metropulse.Planner.Network.Steps.{Step, edge-Step}
use metropulse.Planner.Network.Placed.{IsWellFormed, Route-Valid}
use metropulse.Planner.Network.Offered.{Step-edge}

module _ (number : Number) (graph : NetworkGraph number.Num) (params : PlannerParameters number.Num)
    (origin : String) where
  open number use {Num}

  -- From the origin, off the train and at no cost, to a state at a cost, by these actions.
  pub data Journey : State → Num → List (Action Num) → Type 0 where
    depart :
        {s : State} {c : Num} {actions : List (Action Num)}
        → s ≡ at origin
        → c ≡ number.zero
        → actions ≡ []
        → Journey s c actions
    go :
        {s t : State} {c w : Num} {before actions : List (Action Num)} (action : Action Num)
        → Journey s c before
        → Step number graph params s c t w action
        → actions ≡ before ++ action ∷ []
        → Journey t w actions

  abbrev pub Found : State → Num → List (Action Num) → Type 0
  Found = Route number State (Action Num) (expand number graph params) (at origin)

  pub Journey-of :
      {s : State} {c : Num} {actions : List (Action Num)} → Found s c actions → Journey s c actions
  Journey-of (stay p q r) = depart p q r
  Journey-of {s = t} {c = w} (extend {s = s} {c = c} action route edge r) =
      go action (Journey-of route) (edge-Step number graph params (at origin) s c t w action edge) r

  pub route_of :
      {s : State} {c : Num} {actions : List (Action Num)}
      → IsWellFormed graph
      → Journey s c actions
      → Found s c actions
  route_of formed (depart p q r) = stay p q r
  route_of {s = t} {c = w} formed (go {s = s} {c = c} action journey step r) =
      let route = route_of formed journey in
      extend action route
        (Step-edge number graph params (at origin) s c t w action formed
          (Route-Valid number graph params formed origin route) step)
        r
