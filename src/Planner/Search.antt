-- ===== src/Planner/Search.antt =====
-- The search loop of `_dijkstra` and `travel_seconds_from`, with `_relax` and `_reconstruct`
-- (src/metropulse/application/journey_planner.py), over any states and edges.
mod Queue
mod Invariant
mod Relax
mod Expand
mod Settle
pub mod Routes
pub mod Budget
mod Scan
pub mod Run
mod Rounds
pub mod Correct
pub mod Fuel
use mathlib.Core.List.{reverse}
use metropulse.Prelude.{
  ℕ, zero, suc, ◌+◌, Bool, true, false, not, ◌&&◌, ◌||◌, Option, none, some, List, [], ◌∷◌, ◌++◌,
  ltb, if◌then◌else◌, Comparable, ◌==◌,
}
use metropulse.Prelude.Dict.{Dict, lookup, insert}
use metropulse.Planner.Number.{Number}

-- One call of `_relax` out of a state: the state that it reaches, at what cost, by which action.
pub record Edge (Num State Action : Type 0) : Type 0 where
  pub to : State
  pub cost : Num
  pub action : Action

-- What a search comes to. `raised` is a KeyError or IndexError of `_expand` or `_reconstruct`.
pub data Outcome (Num State Action : Type 0) : Type 0 where
  found : List Action → Outcome Num State Action
  exhausted : Dict State Num → Outcome Num State Action
  raised : Outcome Num State Action
  out_of_fuel : Outcome Num State Action

-- (cost, counter, state)
abbrev pub Entry : Number → Type 0 → Type 0
Entry number State = number.Num × ℕ × State

pub record Search (number : Number) (State Action : Type 0) : Type 0 where
  pub best : Dict State number.Num
  pub prev : Dict State (State × Action)
  pub queue : List (Entry number State)
  pub counter : ℕ

module _ (number : Number) (State : Type 0) where
  open number use {Num, lt}

  -- the order of the tuples; two counters are never equal
  abbrev pub before : Entry number State → Entry number State → Bool
  before (c, n, s) (d, m, t) = lt c d || (not (lt d c) && ltb n m)

  -- heapq.heappop: the least entry, and the others
  unfoldable pub pop_min :
      Entry number State
      → List (Entry number State)
      → Entry number State × List (Entry number State)
  pop_min e [] = (e, [])
  pop_min e (x ∷ xs) =
      let first = if before x e then x else e in
      let second = if before x e then e else x in
      let popped = pop_min first xs in (popped.0, second ∷ popped.1)

module _ (number : Number) where
  open number use {Num, lt}

  -- `new_cost < best.get(to_state, inf)`
  abbrev pub improves : Num → Option Num → Bool
  improves cost none = true
  improves cost (some b) = lt cost b

  -- `cost > best.get(state, inf)`
  abbrev pub is_stale : Num → Option Num → Bool
  is_stale cost none = false
  is_stale cost (some b) = lt b cost

module _ (number : Number) (State Action : Type 0) ⦃keys : Comparable State⦄ where
  open number use {Num}

  unfoldable pub relax :
      State → Search number State Action → Edge Num State Action → Search number State Action
  relax from st e =
      if improves number e.cost (lookup e.to st.best)
      then (record {
        best = insert e.to e.cost st.best;
        prev = insert e.to (from, e.action) st.prev;
        queue = st.queue ++ (e.cost, st.counter, e.to) ∷ [];
        counter = st.counter + 1;
      })
      else st

  unfoldable pub relax_all :
      State → List (Edge Num State Action) → Search number State Action → Search number State Action
  relax_all from [] st = st
  relax_all from (e ∷ es) st = relax_all from es (relax from st e)

  module _ (edges : State → Num → Option (List (Edge Num State Action))) (start : State) where
    abbrev pub initial : Search number State Action
    initial = record {
      best = (start, number.zero) ∷ [];
      prev = [];
      queue = (number.zero, 0, start) ∷ [];
      counter = 1;
    }

    -- `while state != start`: a missing entry is a KeyError, and so is `none` here
    unfoldable pub reconstruct_from :
        ℕ → Dict State (State × Action) → State → List Action → Option (List Action)
    reconstruct_from zero prev state actions = none
    reconstruct_from (suc fuel) prev state actions =
        if state == start then some (reverse actions) else elim (lookup state prev) [
          | none ↦ none
          | some (from, action) ↦ reconstruct_from fuel prev from (actions ++ action ∷ [])
        ]

    abbrev pub reconstructed : Option (List Action) → Outcome Num State Action
    reconstructed none = raised
    reconstructed (some actions) = found actions

    -- `target` is none for `travel_seconds_from`
    abbrev pub is_target : Option State → State → Bool
    is_target none state = false
    is_target (some target) state = state == target

    -- the loop `while queue`, with fuel for its rounds and `bound` for `_reconstruct`
    unfoldable pub run :
        ℕ → ℕ → Option State → Search number State Action → Outcome Num State Action
    run bound zero target st = out_of_fuel
    run bound (suc fuel) target st = elim st.queue [
      | [] ↦ exhausted st.best
      | e ∷ es ↦
          let popped = pop_min number State e es in
          let cost = popped.0.0 in
          let state = popped.0.2 in
          let rest = record st { queue = popped.1 } in
          elim (is_stale number cost (lookup state st.best)) [
            | true ↦ run bound fuel target rest
            | false ↦ elim (is_target target state) [
              | true ↦ reconstructed (reconstruct_from bound st.prev state [])
              | false ↦ elim (edges state cost) [
                | none ↦ raised
                | some out ↦ run bound fuel target (relax_all state out rest)
              ]
            ]
          ]
    ]
