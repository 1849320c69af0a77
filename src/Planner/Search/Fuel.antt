-- ===== src/Planner/Search/Fuel.antt =====
-- The search with more fuel than it is given (the loops `while queue` of
-- src/metropulse/application/journey_planner.py).
use metropulse.Prelude.{
  ℕ, zero, suc, ◌≤◌, ◌≡◌, refl, inl, inr, Option, List, [], ◌∷◌, ◌++◌, Comparable, ◌==◌, Bool-cases,
  Option-cases, arith,
}
use metropulse.Prelude.Dict.{Dict, lookup}
use metropulse.Planner.Number.{Number}
use metropulse.Planner.Search.{
  Edge, Entry, Outcome, found, exhausted, raised, out_of_fuel, pop_min, is_stale, is_target,
  reconstruct_from, reconstructed, relax_all, run,
}

module _ (number : Number) (State Action : Type 0) ⦃keys : Comparable State⦄
    (edges : State → number.Num → Option (List (Edge number.Num State Action)))
    (start : State) where
  open number use {Num}

  abbrev pub Returns : Outcome Num State Action → Type 0
  Returns (found actions) = Unit
  Returns (exhausted best) = Unit
  Returns raised = ⊥
  Returns out_of_fuel = ⊥

  abbrev IsKept : Outcome Num State Action → Outcome Num State Action → Type 0
  IsKept less more = Returns less → more ≡ less

  reconstruct-IsKept :
      (fuel more : ℕ)
      → fuel ≤ more
      → (prev : Dict State (State × Action)) (state : State) (actions : List Action)
      → IsKept
          (reconstructed number State Action edges start
            (reconstruct_from number State Action edges start fuel prev state actions))
          (reconstructed number State Action edges start
            (reconstruct_from number State Action edges start more prev state actions))
  unfolding reconstruct_from
  reconstruct-IsKept zero more le prev state actions = λ h. elim h [ ]
  reconstruct-IsKept (suc fuel) zero le prev state actions = absurd (omega arith)
  reconstruct-IsKept (suc fuel) (suc more) le prev state actions =
      elim (Bool-cases (state == start)) [
        | inl e ↦ rw e (λ h. refl)
        | inr e ↦ elim (Option-cases (lookup state prev)) [
          | inl n ↦ rw (e, n) (λ h. refl)
          | inr ((from, action), s) ↦
              rw (e, s)
                (reconstruct-IsKept fuel more (omega arith) prev from (actions ++ action ∷ []))
        ]
      ]

  pub run-IsKept :
      (bound more_bound : ℕ)
      → bound ≤ more_bound
      → (fuel more : ℕ) → fuel ≤ more
      → (target : Option State) (best : Dict State Num) (prev : Dict State (State × Action))
        (queue : List (Entry number State)) (counter : ℕ)
      → IsKept
          (run number State Action edges start bound fuel target
            (record { best = best; prev = prev; queue = queue; counter = counter }))
          (run number State Action edges start more_bound more target
            (record { best = best; prev = prev; queue = queue; counter = counter }))
  unfolding run
  run-IsKept bound more_bound b_le zero more le target best prev queue counter = λ h. elim h [ ]
  run-IsKept bound more_bound b_le (suc fuel) zero le target best prev queue counter =
      absurd (omega arith)
  run-IsKept bound more_bound b_le (suc fuel) (suc more) le target best prev [] counter = λ h. refl
  run-IsKept bound more_bound b_le (suc fuel) (suc more) le target best prev (e ∷ es) counter =
      let popped = pop_min number State e es in
      elim (Bool-cases (is_stale number popped.0.0 (lookup popped.0.2 best))) [
        | inl stale ↦
            rw (run, stale)
              (run-IsKept bound more_bound b_le fuel more (omega arith) target best prev popped.1
                counter)
        | inr fresh ↦
            elim (Bool-cases (is_target number State Action edges start target popped.0.2)) [
              | inl hit ↦
                  rw (run, fresh, hit) (reconstruct-IsKept bound more_bound b_le prev popped.0.2 [])
              | inr miss ↦ elim (Option-cases (edges popped.0.2 popped.0.0)) [
                | inl n ↦ rw (run, fresh, miss, n) (λ h. refl)
                | inr (out, s) ↦
                    rw (run, fresh, miss, s)
                      (let relaxed = relax_all number State Action popped.0.2 out (record {
                        best = best;
                        prev = prev;
                        queue = popped.1;
                        counter = counter;
                      }) in
                        run-IsKept bound more_bound b_le fuel more (omega arith) target relaxed.best
                          relaxed.prev relaxed.queue relaxed.counter)
              ]
            ]
      ]
