-- ===== src/Planner/Search/Run.antt =====
-- What an outcome of the search must be (src/metropulse/application/journey_planner.py).
use mathlib.Core.List.{append-nil}
use metropulse.Prelude.{
  ℕ, suc, ◌≤◌, ◌≡◌, ap, ◌∙◌, inl, inr, true, false, Option, none, some, List, [], ◌∷◌, All-at,
  Comparable, contains, not_both, length,
}
use metropulse.Prelude.Dict.{Dict, lookup}
use metropulse.Planner.Number.{Number, AtMost}
use metropulse.Planner.Search.{
  Edge, Entry, Outcome, found, exhausted, raised, out_of_fuel, pop_min, is_stale, is_target,
  reconstruct_from, reconstructed,
}
use metropulse.Planner.Search.Queue.{pop_min-NoCheaper, Any-pop_min, NoCheaper}
use metropulse.Planner.Search.Invariant.{Inv}
use metropulse.Planner.Search.Settle
use metropulse.Planner.Search.Routes.{
  Route, IsMonotone, Scanned, Below, frontier, trace_settled, trace-Explained,
}

module _ (number : Number) (State Action : Type 0) ⦃keys : Comparable State⦄
    (edges : State → number.Num → Option (List (Edge number.Num State Action)))
    (start : State) where
  open number use {Num, lt, lt_irrefl, at_most_trans}

  abbrev pub IsRoute : State → Num → List Action → Type 0
  IsRoute = Route number State Action edges start

  -- A cheapest route to the target; or no route to it, and the least cost of every state that can
  -- be reached at all; or an exception at a state that can be reached.
  abbrev pub IsCorrect : Option State → Outcome Num State Action → Type 0
  IsCorrect target (found actions) =
      (t : State) × (b : Num) × (target ≡ some t)
      × IsRoute t b actions
      × ((c : Num) (others : List Action) → IsRoute t c others → AtMost number b c)
  IsCorrect target (exhausted best) =
      ((s : State) (b : Num)
        → lookup s best ≡ some b
        → (actions : List Action) × IsRoute s b actions)
      × ((s : State) (c : Num) (actions : List Action)
          → IsRoute s c actions
          → (b : Num) × (lookup s best ≡ some b) × AtMost number b c)
      × ((t : State) (c : Num) (actions : List Action) → target ≡ some t → ¬ IsRoute t c actions)
  IsCorrect target raised =
      (s : State) × (c : Num) × (actions : List Action) × IsRoute s c actions × (edges s c ≡ none)
  IsCorrect target out_of_fuel = ⊥

  abbrev pub Open : Option State → List State → Type 0
  Open target settled = (t : State) → target ≡ some t → contains t settled ≡ false

  module _ (monotone : IsMonotone number State Action edges start) (settled : List State)
      (level : Num) where
    -- the queue is empty
    pub exhausted_lem :
        (target : Option State) (best : Dict State Num) (prev : Dict State (State × Action))
        (counter : ℕ)
        → Inv number State Action edges start settled level
            (record { best = best; prev = prev; queue = []; counter = counter })
        → Scanned number State Action edges start settled
            (record { best = best; prev = prev; queue = []; counter = counter })
        → Open target settled
        → IsCorrect target (exhausted best)
    exhausted_lem target best prev counter inv scanned is_open = (sound, complete, none_to_target)
      where
        Settled-of :
            {s : State} {c : Num} {actions : List Action}
            → IsRoute s c actions
            → (contains s settled ≡ true)
              × ((b : Num) × (lookup s best ≡ some b) × AtMost number b c)
        Settled-of route =
            elim (frontier number State Action edges start monotone settled level _ inv scanned
              route) [ inl h ↦ h | inr h ↦ elim h [ ] ]

        sound :
            (s : State) (b : Num)
            → lookup s best ≡ some b
            → (actions : List Action) × IsRoute s b actions
        sound s b is_b = elim (inv.queued s b is_b) [
          | inr h ↦ elim h [ ]
          | inl h ↦
              let (actions, route, _) =
                trace_settled number State Action edges start best prev inv.origin settled
                  inv.ordered s b h is_b in
              (actions, route)
        ]

        complete :
            (s : State) (c : Num) (actions : List Action)
            → IsRoute s c actions
            → (b : Num) × (lookup s best ≡ some b) × AtMost number b c
        complete s c actions route = (Settled-of route).1

        none_to_target :
            (t : State) (c : Num) (actions : List Action) → target ≡ some t → ¬ IsRoute t c actions
        none_to_target t c actions is_target route =
            not_both (Settled-of route).0 (is_open t is_target)

    module _ (best : Dict State Num) (prev : Dict State (State × Action)) (counter : ℕ)
        (e : Entry number State) (es : List (Entry number State))
        (inv : Inv number State Action edges start settled level
          (record { best = best; prev = prev; queue = e ∷ es; counter = counter }))
        (scanned : Scanned number State Action edges start settled
          (record { best = best; prev = prev; queue = e ∷ es; counter = counter }))
        (fresh : is_stale number
            (pop_min number State e es).0.0
            (lookup (pop_min number State e es).0.2 best)
          ≡ false) where
      abbrev pub m : Entry number State
      m = (pop_min number State e es).0

      pub open_m : contains m.2 settled ≡ false
      open_m =
          Settle.unsettled number State Action edges start settled level best prev counter e es inv
            fresh

      pub cost_m : lookup m.2 best ≡ some m.0
      cost_m =
          Settle.is_cost number State Action edges start settled level best prev counter e es inv
            fresh

      -- no route to the popped state is cheaper than its entry
      cheapest_m : (c : Num) (actions : List Action) → IsRoute m.2 c actions → AtMost number m.0 c
      cheapest_m c actions route =
          elim (frontier number State Action edges start monotone settled level _ inv scanned
            route) [
              | inl (is_in, _) ↦ not_both is_in open_m
              | inr h ↦
                  elim (Any-pop_min number State (Below number State Action edges start c) e es h) [
                    | inl under ↦ under
                    | inr k ↦
                        let (x, above, under) =
                          All-at (NoCheaper number State m)
                            (Below number State Action edges start c) _
                            (pop_min-NoCheaper number State e es).1 k in
                        at_most_trans m.0 x.0 c above under
                  ]
            ]

      traced_m :
          (actions : List Action) × IsRoute m.2 m.0 actions
          × ((bound : ℕ)
              → suc (length settled) ≤ bound
              → reconstruct_from number State Action edges start bound prev m.2 [] ≡ some actions)
      traced_m =
          let (actions, route, rebuilt) =
            trace-Explained number State Action edges start best prev inv.origin settled inv.ordered
              m.2 m.0 cost_m (inv.explained m.2 m.0 cost_m open_m) in
          (actions, route, λ bound h. rebuilt bound [] h ∙ ap some (append-nil actions))

      -- the target is popped
      pub found_lem :
          (bound : ℕ) (target : Option State)
          → suc (length settled) ≤ bound
          → target ≡ some m.2
          → IsCorrect target (
              reconstructed number State Action edges start
                (reconstruct_from number State Action edges start bound prev m.2 []))
      found_lem bound target h is_target =
          let (actions, route, rebuilt) = traced_m in
          rw (rebuilt bound h) (m.2, m.0, is_target, route, cheapest_m)

      -- the popped state cannot be expanded
      pub raised_lem : (target : Option State) → edges m.2 m.0 ≡ none → IsCorrect target raised
      raised_lem target h = let (actions, route, _) = traced_m in (m.2, m.0, actions, route, h)
