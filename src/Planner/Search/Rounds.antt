-- ===== src/Planner/Search/Rounds.antt =====
-- The rounds of the search loop, one for each branch
-- (src/metropulse/application/journey_planner.py).
use metropulse.Prelude.{ℕ, suc, ◌≡◌, true, false, Option, none, some, List, [], ◌∷◌, Comparable}
use metropulse.Prelude.Dict.{Dict, lookup}
use metropulse.Planner.Number.{Number}
use metropulse.Planner.Search.{
  Edge, Entry, Search, Outcome, raised, pop_min, is_stale, is_target, reconstruct_from,
  reconstructed, relax_all, run,
}

module _ (number : Number) (State Action : Type 0) ⦃keys : Comparable State⦄
    (edges : State → number.Num → Option (List (Edge number.Num State Action))) (start : State)
    (target : Option State) where
  open number use {Num}

  module _ (bound fuel : ℕ) (best : Dict State Num) (prev : Dict State (State × Action))
      (e : Entry number State) (es : List (Entry number State)) (counter : ℕ) where
    abbrev m : Entry number State
    m = (pop_min number State e es).0

    abbrev pub before : Search number State Action
    before = record { best = best; prev = prev; queue = e ∷ es; counter = counter }

    abbrev pub after : Search number State Action
    after = record {
      best = best;
      prev = prev;
      queue = (pop_min number State e es).1;
      counter = counter;
    }

    abbrev pub looping : ℕ → Search number State Action → Outcome Num State Action
    looping n = run number State Action edges start bound n target

    pub run_stale :
        is_stale number m.0 (lookup m.2 best) ≡ true
        → looping (suc fuel) before ≡ looping fuel after
    unfolding run
    run_stale stale = rw stale

    module _ (fresh : is_stale number m.0 (lookup m.2 best) ≡ false) where
      pub run_hit :
          is_target number State Action edges start target m.2 ≡ true
          → looping (suc fuel) before
            ≡ reconstructed number State Action edges start
                (reconstruct_from number State Action edges start bound prev m.2 [])
      unfolding run
      run_hit hit = rw (fresh, hit)

      module _ (miss : is_target number State Action edges start target m.2 ≡ false) where
        pub run_raises : edges m.2 m.0 ≡ none → looping (suc fuel) before ≡ raised
        unfolding run
        run_raises h = rw (fresh, miss, h)

        pub run_expands :
            (out : List (Edge Num State Action))
            → edges m.2 m.0 ≡ some out
            → looping (suc fuel) before ≡ looping fuel (relax_all number State Action m.2 out after)
        unfolding run
        run_expands out h = rw (fresh, miss, h)
