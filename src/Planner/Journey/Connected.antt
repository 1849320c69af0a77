-- ===== src/Planner/Journey/Connected.antt =====
-- The legs of an assembled plan (`_build_plan` of
-- src/metropulse/application/journey_planner.py).
use metropulse.Prelude.{
  bind_some, String, ◌≡◌, refl, sym, ap, subst, ◌∙◌, Option, none, some, List, [], ◌∷◌, ◌++◌, All,
  ◌>>=◌, comparable_string,
}
use mathlib.Core.Option.{some-injective}
use metropulse.Planner.Number.{Number}
use metropulse.Planner.Network.{comparable_key, State, at, Action, NetworkGraph, PlannerParameters}
use metropulse.Planner.Network.Placed.{IsConsistent}
use metropulse.Planner.Network.Journeys.{Journey, depart, go}
use metropulse.Planner.Journey.{Assembly, assemble, assemble_all, unassembled}
use metropulse.Planner.Journey.Legs.{Chain, IsLeg}
use metropulse.Planner.Journey.Advance.{Held, next}

module _ (number : Number) (graph : NetworkGraph number.Num) (params : PlannerParameters number.Num)
    (weights : PlannerParameters number.Num) (consistent : IsConsistent graph)
    (origin : String) where
  open number use {Num}

  returned : (o : Option (Assembly Num)) → (o >>= (λ st. some st)) ≡ o
  returned none = refl
  returned (some st) = refl

  assemble_all-snoc :
      (st st' : Assembly Num) (actions : List (Action Num)) (action : Action Num)
      → assemble_all number graph params st actions ≡ some st'
      → assemble_all number graph params st (actions ++ action ∷ [])
        ≡ assemble number graph params st' action
  unfolding assemble_all
  assemble_all-snoc st st' [] action h =
      returned (assemble number graph params st action)
      ∙ ap (λ (x : Assembly Num). assemble number graph params x action) (some-injective _ _ h)
  assemble_all-snoc st st' (x ∷ actions) action h =
      let (mid, is_mid, more) = bind_some (assemble number graph params st x) _ st' h in
      rw is_mid (assemble_all-snoc mid st' actions action more)

  abbrev Assembled : State → List (Action Num) → Type 0
  Assembled s actions =
      (st : Assembly Num) × (assemble_all number graph params (unassembled number graph params)
          actions
        ≡ some st)
      × Held number graph params weights consistent origin s st

  -- Along a journey the assembly raises nothing.
  assembled :
      {s : State} {c : Num} {actions : List (Action Num)}
      → Journey number graph weights origin s c actions
      → Assembled s actions
  unfolding assemble_all
  assembled {s} {actions} (depart is_s _ no_actions) = subst (Assembled s) (sym no_actions) (
    unassembled number graph params,
    refl,
    subst
        (λ (u : State).
          Held number graph params weights consistent origin u (unassembled number graph params))
        (sym is_s) (refl, tt),
  )
  assembled {s = t} {c = w} {actions}
        (go {s = s} {c = c} {before = before} action journey step is_actions) =
      let (st, is_st, held) = assembled journey in
      let (st', is_st', held') =
        next number graph params weights consistent origin s c t w action st held step in
      subst (Assembled t) (sym is_actions) (
        st',
        assemble_all-snoc (unassembled number graph params) st before action is_st ∙ is_st',
        held',
      )

  -- Whatever the weights of the search: at a stop, the legs lead there from the origin.
  pub assemble_all-Legs :
      {stop_id : String} {c : Num} {actions : List (Action Num)}
      → Journey number graph weights origin (at stop_id) c actions
      → (st : Assembly Num) × (assemble_all number graph params
            (unassembled number graph params)
            actions
          ≡ some st)
        × (Chain origin st.legs stop_id × All (IsLeg graph) st.legs)
  assemble_all-Legs journey = assembled journey
