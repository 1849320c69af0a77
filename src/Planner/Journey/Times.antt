-- ===== src/Planner/Journey/Times.antt =====
-- How long an assembled plan takes (`_build_plan` of
-- src/metropulse/application/journey_planner.py).
use metropulse.Prelude.{
  String, ◌≡◌, refl, sym, ap, ◌∙◌, some, List, [], ◌∷◌, ◌++◌, bind_some, get_elem?, get_last?,
  comparable_string,
}
use metropulse.Prelude.Dict.{lookup}
use mathlib.Core.Option.{some-injective}
use metropulse.Planner.Number.{Number}
use metropulse.Planner.Network.{
  comparable_key, State, Action, board, ride, alight, walk, NetworkGraph, PlannerParameters, hop,
}
use metropulse.Planner.Network.Steps.{Step, boards, walks, rides, alights}
use metropulse.Planner.Network.Journeys.{Journey, depart, go}
use metropulse.Planner.Journey.{
  Assembly, assemble, assemble_all, boarded_at, stations_between, unassembled,
}

module _ (number : Number) (graph : NetworkGraph number.Num) (params : PlannerParameters number.Num)
    (unscaled : (seconds : number.Num) → number.times seconds params.walk_cost_multiplier ≡ seconds)
    (origin : String) where
  open number use {Num, plus}

  -- what an action adds to the time
  abbrev pub timed : Num → Action Num → Num
  timed t (walk from_id to_id distance seconds) = plus t seconds
  timed t (board key index) = plus t params.board_penalty_seconds
  timed t (ride key index hop) = plus t hop
  timed t (alight key index) = t

  abbrev pub timed_all : Num → List (Action Num) → Num
  timed_all t [] = t
  timed_all t (action ∷ actions) = timed_all (timed t action) actions

  timed_all-snoc :
      (t : Num) (actions : List (Action Num)) (action : Action Num)
      → timed_all t (actions ++ action ∷ []) ≡ timed (timed_all t actions) action
  timed_all-snoc t [] action = refl
  timed_all-snoc t (x ∷ actions) action = timed_all-snoc (timed t x) actions action

  assemble-timed :
      (st st' : Assembly Num) (action : Action Num)
      → assemble number graph params st action ≡ some st'
      → st'.total_seconds ≡ timed st.total_seconds action
  unfolding assemble
  assemble-timed st st' (walk from_id to_id distance seconds) h =
      ap (λ (x : Assembly Num). x.total_seconds) (sym (some-injective _ _ h))
  assemble-timed st st' (board key index) h =
      ap (λ (x : Assembly Num). x.total_seconds) (sym (some-injective _ _ h))
  assemble-timed st st' (ride key index hop) h =
      ap (λ (x : Assembly Num). x.total_seconds) (sym (some-injective _ _ h))
  assemble-timed st st' (alight key index) h =
      let (from, _, h₁) = bind_some (boarded_at st.board_key key st.board_index) _ st' h in
      let (pattern, _, h₂) = bind_some (lookup key graph.patterns) _ st' h₁ in
      let stations = stations_between number graph params pattern from index in
      let (first, _, h₃) = bind_some (get_elem? stations 0) _ st' h₂ in
      let (last, _, h₄) = bind_some (get_last? stations) _ st' h₃ in
      ap (λ (x : Assembly Num). x.total_seconds) (sym (some-injective _ _ h₄))

  assemble_all-timed :
      (st st' : Assembly Num) (actions : List (Action Num))
      → assemble_all number graph params st actions ≡ some st'
      → st'.total_seconds ≡ timed_all st.total_seconds actions
  unfolding assemble_all
  assemble_all-timed st st' [] h =
      ap (λ (x : Assembly Num). x.total_seconds) (sym (some-injective _ _ h))
  assemble_all-timed st st' (x ∷ actions) h =
      let (mid, is_mid, more) = bind_some (assemble number graph params st x) _ st' h in
      assemble_all-timed mid st' actions more
      ∙ ap (λ (t : Num). timed_all t actions) (assemble-timed st mid x is_mid)

  Step-timed :
      (s : State) (c : Num) (t : State) (w : Num) (action : Action Num)
      → Step number graph params s c t w action
      → timed c action ≡ w
  Step-timed s c t w action (boards stop_id entries key index pattern _ _ _ _ _ _ is_w is_a) =
      ap (timed c) (sym is_a) ∙ is_w
  Step-timed s c t w action (walks stop_id edges edge _ _ _ _ is_w is_a) =
      ap (timed c) (sym is_a) ∙ (ap (plus c) (sym (unscaled edge.walk_seconds)) ∙ is_w)
  Step-timed s c t w action (rides key index pattern here next _ _ _ _ _ is_w is_a) =
      ap (timed c) (sym is_a) ∙ is_w
  Step-timed s c t w action (alights key index pattern here _ _ _ _ is_w is_a) =
      ap (timed c) (sym is_a) ∙ is_w

  Journey-timed :
      {s : State} {c : Num} {actions : List (Action Num)}
      → Journey number graph params origin s c actions
      → timed_all number.zero actions ≡ c
  Journey-timed (depart _ is_zero no_actions) = ap (timed_all number.zero) no_actions ∙ sym is_zero
  Journey-timed {s = t} {c = w}
        (go {s = s} {c = c} {before = before} action journey step is_actions) =
      ap (timed_all number.zero) is_actions
      ∙ (timed_all-snoc number.zero before action
          ∙ (ap (λ (x : Num). timed x action) (Journey-timed journey)
              ∙ Step-timed s c t w action step))

  -- Where the search weighs a walk by its own duration, the time of the plan is what it cost.
  pub assemble_all-cost :
      {s : State} {c : Num} {actions : List (Action Num)} (st : Assembly Num)
      → Journey number graph params origin s c actions
      → assemble_all number graph params (unassembled number graph params) actions ≡ some st
      → st.total_seconds ≡ c
  assemble_all-cost {actions} st journey h =
      assemble_all-timed (unassembled number graph params) st actions h ∙ Journey-timed journey
