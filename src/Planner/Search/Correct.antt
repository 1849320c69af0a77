-- ===== src/Planner/Search/Correct.antt =====
-- The outcome of the search loop (src/metropulse/application/journey_planner.py).
use metropulse.Prelude.{
  ℕ, zero, suc, ◌+◌, ◌≤◌, ◌<◌, ◌≡◌, refl, sym, ap, subst, ◌∙◌, inl, inr, true, false, Option, none,
  some, List, [], ◌∷◌, Comparable, contains, key_cases, not_both, Bool-cases, Option-cases,
  equal_refl, length, arith,
}
use mathlib.Core.Option.{some-injective}
use metropulse.Prelude.Dict.{Dict, lookup}
use metropulse.Planner.Number.{Number}
use metropulse.Planner.Search.{
  Edge, Entry, Search, Outcome, pop_min, is_stale, is_target, relax_all, run, initial,
}
use metropulse.Planner.Search.Rounds.{
  before, after, looping, run_stale, run_hit, run_raises, run_expands,
}
use metropulse.Planner.Search.Queue.{length-pop_min}
use metropulse.Planner.Search.Invariant.{Inv}
use metropulse.Planner.Search.Settle.{stale-Inv, settle-Inv}
use metropulse.Planner.Search.Expand.{Expanded, relax_all-Expanded}
use metropulse.Planner.Search.Routes.{IsMonotone, Scanned}
use metropulse.Planner.Search.Scan.{All-Out, scan, s_settled}
use metropulse.Planner.Search.Budget.{budget, budget-settle, budget-cons-le}
use metropulse.Planner.Search.Run.{
  IsCorrect, Open, exhausted_lem, found_lem, raised_lem, open_m, cost_m,
}

-- `universe` lists the states that have edges, and `degree` bounds the number of their edges.
pub record IsBounded (number : Number) (State Action : Type 0) (keys : Comparable State)
    (edges : State → number.Num → Option (List (Edge number.Num State Action)))
    (universe : List State) (degree : State → ℕ) : Type 0 where
  pub few :
      (s : State) (c : number.Num) (es : List (Edge number.Num State Action))
      → edges s c ≡ some es
      → length es ≤ degree s
  pub listed : (s : State) → contains ⦃e = keys⦄ s universe ≡ false → degree s ≡ 0

module _ (number : Number) (State Action : Type 0) ⦃keys : Comparable State⦄
    (edges : State → number.Num → Option (List (Edge number.Num State Action))) (start : State)
    (monotone : IsMonotone number State Action edges start) (universe : List State)
    (degree : State → ℕ) (bounded : IsBounded number State Action keys edges universe degree)
    (target : Option State) where
  open number use {Num, lt, lt_irrefl}

  settles :
      (settled : List State) (s : State)
      → contains s settled ≡ false
      → budget degree universe (s ∷ settled) + degree s ≤ budget degree universe settled
  settles settled s h = elim (Bool-cases (contains s universe)) [
    | inl known ↦ budget-settle degree universe settled s known h
    | inr unknown ↦
        omega (arith, bounded.listed s unknown, budget-cons-le degree universe settled s)
  ]

  still-Open :
      (settled : List State) (s : State)
      → Open number State Action edges start target settled
      → is_target number State Action edges start target s ≡ false
      → Open number State Action edges start target (s ∷ settled)
  still-Open settled s is_open other t eq = elim (key_cases s t) [
    | inl same ↦
        not_both
          (ap (λ (o : Option State). is_target number State Action edges start o s) eq
            ∙ (keys.equal_iff s t).1 same)
          other
    | inr ne ↦ rw ne (is_open t eq)
  ]

  target_is :
      (o : Option State) (s : State)
      → is_target number State Action edges start o s ≡ true
      → o ≡ some s
  target_is none s h = cc
  target_is (some t) s h = ap some (sym ((keys.equal_iff s t).0 h))

  -- The loop from any state that meets the invariant, with fuel for what is left to do.
  abbrev Loop : ℕ → ℕ → Type 0
  Loop bound fuel =
      (settled : List State) (level : Num) (best : Dict State Num)
      (prev : Dict State (State × Action)) (queue : List (Entry number State)) (counter : ℕ)
      → Inv number State Action edges start settled level
          (record { best = best; prev = prev; queue = queue; counter = counter })
      → Scanned number State Action edges start settled
          (record { best = best; prev = prev; queue = queue; counter = counter })
      → Open number State Action edges start target settled
      → length settled + fuel ≤ bound
      → length queue + budget degree universe settled < fuel
      → IsCorrect number State Action edges start target (
          run number State Action edges start bound fuel target
            (record { best = best; prev = prev; queue = queue; counter = counter }))

  abbrev Right : Outcome Num State Action → Type 0
  Right = IsCorrect number State Action edges start target

  module _ (bound fuel : ℕ) (loop : Loop bound fuel) (settled : List State) (level : Num)
      (best : Dict State Num) (prev : Dict State (State × Action)) (e : Entry number State)
      (es : List (Entry number State)) (counter : ℕ)
      (inv : Inv number State Action edges start settled level
        (before number State Action edges start target bound fuel best prev e es counter))
      (scanned : Scanned number State Action edges start settled
        (before number State Action edges start target bound fuel best prev e es counter))
      (is_open : Open number State Action edges start target settled)
      (h : length settled + suc fuel ≤ bound)
      (k : length (e ∷ es) + budget degree universe settled < suc fuel) where
    abbrev popped : Entry number State
    popped = (pop_min number State e es).0

    round_stale :
        is_stale number popped.0 (lookup popped.2 best) ≡ true
        → Right (
            looping number State Action edges start target bound fuel best prev e es counter
              (suc fuel)
              (before number State Action edges start target bound fuel best prev e es counter))
    round_stale stale =
        let shorter = length-pop_min number State e es in
        subst Right
          (sym (
            run_stale number State Action edges start target bound fuel best prev e es counter
              stale))
          (loop settled level best prev (pop_min number State e es).1 counter
            (stale-Inv number State Action edges start settled level best prev counter e es inv
              stale)
            scanned is_open (omega arith) (omega arith))

    module _ (fresh : is_stale number popped.0 (lookup popped.2 best) ≡ false)
        (miss : is_target number State Action edges start target popped.2 ≡ false)
        (out : List (Edge Num State Action)) (is_out : edges popped.2 popped.0 ≡ some out) where
      abbrev relaxed : Search number State Action
      relaxed =
          relax_all number State Action popped.2 out
            (after number State Action edges start target bound fuel best prev e es counter)

      popped_cost : lookup popped.2 best ≡ some popped.0
      popped_cost =
          cost_m number State Action edges start monotone settled level best prev counter e es inv
            scanned fresh

      round-Expanded :
          Expanded number State Action edges start
            (popped.2 ∷ settled)
            popped.0
            popped.2
            popped.0
            (s_settled number State Action edges start settled popped.2 popped.0 out is_out)
            (after number State Action edges start target bound fuel best prev e es counter)
            out
            relaxed
      round-Expanded =
          relax_all-Expanded number State Action edges start (popped.2 ∷ settled) popped.0 popped.2
            popped.0
            (s_settled number State Action edges start settled popped.2 popped.0 out is_out)
            (after number State Action edges start target bound fuel best prev e es counter) out
            (settle-Inv number State Action edges start settled level best prev counter e es inv
              fresh)
            popped_cost
            (All-Out number State Action edges start settled popped.2 popped.0 out is_out monotone)

      round_expands : Right (
          looping number State Action edges start target bound fuel best prev e es counter
            (suc fuel)
            (before number State Action edges start target bound fuel best prev e es counter))
      round_expands =
          let shorter = length-pop_min number State e es in
          let done = round-Expanded in
          let unsettled =
            open_m number State Action edges start monotone settled level best prev counter e es inv
              scanned fresh in
          subst Right
            (sym (
              run_expands number State Action edges start target bound fuel best prev e es counter
                fresh miss out is_out))
            (loop (popped.2 ∷ settled) popped.0 relaxed.best relaxed.prev relaxed.queue
              relaxed.counter done.inv
              (scan number State Action edges start settled popped.2 popped.0 out is_out
                (after number State Action edges start target bound fuel best prev e es counter)
                relaxed scanned popped_cost done.kept done.reached)
              (still-Open settled popped.2 is_open miss) (omega arith)
              (omega (
                arith,
                done.grows,
                settles settled popped.2 unsettled,
                bounded.few popped.2 popped.0 out is_out,
              )))

    round : Right (
        looping number State Action edges start target bound fuel best prev e es counter
          (suc fuel)
          (before number State Action edges start target bound fuel best prev e es counter))
    round = elim (Bool-cases (is_stale number popped.0 (lookup popped.2 best))) [
      | inl stale ↦ round_stale stale
      | inr fresh ↦ elim (Bool-cases (is_target number State Action edges start target popped.2)) [
        | inl hit ↦
            subst Right
              (sym (
                run_hit number State Action edges start target bound fuel best prev e es counter
                  fresh hit))
              (found_lem number State Action edges start monotone settled level best prev counter e
                es inv scanned fresh bound target (omega arith) (target_is target popped.2 hit))
        | inr miss ↦ elim (Option-cases (edges popped.2 popped.0)) [
          | inl raises ↦
              subst Right
                (sym (
                  run_raises number State Action edges start target bound fuel best prev e es
                    counter fresh miss raises))
                (raised_lem number State Action edges start monotone settled level best prev counter
                  e es inv scanned fresh target raises)
          | inr (out, is_out) ↦ round_expands fresh miss out is_out
        ]
      ]
    ]

  run-IsCorrect_from : (bound fuel : ℕ) → Loop bound fuel
  run-IsCorrect_from bound zero settled level best prev queue counter inv scanned is_open h k =
      absurd (omega arith)
  run-IsCorrect_from bound (suc fuel) settled level best prev [] counter inv scanned is_open h k =
      unfold run in
      exhausted_lem number State Action edges start monotone settled level target best prev counter
        inv scanned is_open
  run-IsCorrect_from bound (suc fuel) settled level best prev (e ∷ es) counter inv scanned is_open h
        k =
      round bound fuel (run-IsCorrect_from bound fuel) settled level best prev e es counter inv
        scanned is_open h k

  only_start :
      (s : State) (b : Num)
      → lookup s (initial number State Action edges start).best ≡ some b
      → (start ≡ s) × (number.zero ≡ b)
  only_start s b h = elim (key_cases start s) [
    | inl same ↦ (same, some-injective _ _ (sym (rw ((keys.equal_iff start s).1 same)) ∙ h))
    | inr other ↦ absurd (none_is (sym (rw other) ∙ h))
  ]
    where
      none_is : none ≡ some b → ⊥
      none_is p = cc

  initial-Inv :
      Inv number State Action edges start [] number.zero (initial number State Action edges start)
  initial-Inv = record {
    origin = rw (equal_refl start);
    level_pos = lt_irrefl number.zero;
    settled_low = λ s h. cc;
    queue_current = ((lt_irrefl number.zero, (number.zero, rw (equal_refl start), inl refl)), tt);
    queue_stale = ((λ h. cc), tt);
    queue_apart = (tt, tt);
    queued = λ s b is_b. let (same, cost) = only_start s b is_b in inr (inl (cost, same));
    explained = λ s b is_b h. inl (sym (only_start s b is_b).0);
    ordered = tt;
  }

  -- Total correctness: with one round more than there can be entries, the search ends.
  pub run-IsCorrect :
      (fuel : ℕ)
      → 1 + budget degree universe [] < fuel
      → IsCorrect number State Action edges start target (
          run number State Action edges start fuel fuel target
            (initial number State Action edges start))
  run-IsCorrect fuel enough =
      run-IsCorrect_from fuel fuel [] number.zero _ [] _ 1 initial-Inv (λ s b t w a h. cc)
        (λ t h. refl) (omega arith) (omega arith)
