-- ===== src/Planner/Network/Bounded.antt =====
-- The states of the network that have edges, and the number of their edges
-- (src/metropulse/application/journey_planner.py).
use metropulse.Prelude.{
  or_left, or_false, ℕ, zero, suc, ◌≤◌, ◌<◌, String, ◌≡◌, refl, sym, ap, subst, ◌∙◌, inl, inr, true,
  false, none, some, List, [], ◌∷◌, map, Option-cases, bind_some, or_right, key_cases, equal_refl,
  not_both, contains, contains-append, length, get_elem?, ◌==◌, comparable_string, comparable_nat,
  arith,
}
use mathlib.Core.Option.{some-injective}
use metropulse.Prelude.Dict.{Dict, keys, lookup}
use metropulse.Planner.Number.{Number}
use metropulse.Planner.Search.{Edge}
use metropulse.Planner.Search.Correct.{IsBounded}
use metropulse.Planner.Network.Keys.{PatternKey, comparable_key, State, at, on, comparable_state}
use metropulse.Planner.Network.{
  Action, NetworkGraph, Pattern, PlannerParameters, arcs, boarding, degree, edge_at, expand,
  on_trains, positions, universe,
}

get_elem?_in : {A : Type 0} (xs : List A) (i : ℕ) (x : A) → get_elem? xs i ≡ some x → i < length xs
get_elem?_in [] i x h = cc
get_elem?_in (y ∷ xs) zero x h = omega arith
get_elem?_in (y ∷ xs) (suc i) x h = omega (arith, get_elem?_in xs i x h)

length-map : {A B : Type 0} (f : A → B) (xs : List A) → length (map f xs) ≡ length xs
length-map f [] = refl
length-map f (x ∷ xs) = ap suc (length-map f xs)

unlisted :
    {V : Type 0} (s : String) (d : Dict String V)
    → contains (at s) (map at (keys d)) ≡ false
    → lookup s d ≡ none
unlisted s [] h = refl
unlisted s ((t, v) ∷ d) h =
    let (other, rest) = or_false (t == s) _ h in rw other (unlisted s d rest)

module _ (number : Number) where
  open number use {Num}

  in_positions :
      (graph : NetworkGraph Num) (params : PlannerParameters Num) (key : PatternKey) (n i : ℕ)
      → i < n
      → contains (on key i) (positions number graph params key n) ≡ true
  unfolding positions
  in_positions graph params key zero i h = absurd (omega arith)
  in_positions graph params key (suc n) i h = elim (key_cases n i) [
    | inl same ↦
        subst (λ (j : ℕ). contains (on key j) (positions number graph params key (suc n)) ≡ true)
          same (rw (equal_refl (on key n)) refl)
    | inr other ↦ or_right _ (in_positions graph params key n i (ground arith))
  ]

  in_on_trains :
      (graph : NetworkGraph Num) (params : PlannerParameters Num)
      (patterns : Dict PatternKey Pattern) (key : PatternKey) (pattern : Pattern) (i : ℕ)
      → lookup key patterns ≡ some pattern
      → i < length pattern.stops
      → contains (on key i) (on_trains number graph params patterns) ≡ true
  unfolding on_trains
  in_on_trains graph params [] key pattern i h k = cc
  in_on_trains graph params ((j, p) ∷ d) key pattern i h k =
      contains-append (on key i) (positions number graph params j (length p.stops)) _
      ∙ elim (key_cases j key) [
        | inl same ↦
            let is_p : p ≡ pattern =
              some-injective _ _ (sym (rw ((comparable_key.equal_iff j key).1 same)) ∙ h) in
            or_left _ _ (
              subst
                (λ (l : PatternKey).
                  contains (on key i) (positions number graph params l (length p.stops)) ≡ true)
                (sym same)
                (in_positions graph params key (length p.stops) i
                  (subst (λ (q : Pattern). i < length q.stops) (sym is_p) k)))
        | inr other ↦ or_right _ (in_on_trains graph params d key pattern i (sym (rw other) ∙ h) k)
      ]

  module _ (graph : NetworkGraph Num) (params : PlannerParameters Num) where
    at_degree :
        (stop_id : String)
        → lookup stop_id graph.patterns_at ≡ none
        → lookup stop_id graph.walk_edges ≡ none
        → degree number graph params (at stop_id) ≡ 0
    unfolding degree arcs boarding
    at_degree stop_id h k = rw (h, k) refl

    on_degree :
        (key : PatternKey) (index : ℕ)
        → contains (on key index) (on_trains number graph params graph.patterns) ≡ false
        → degree number graph params (on key index) ≡ 0
    unfolding degree arcs
    on_degree key index h = elim (Option-cases (lookup key graph.patterns)) [
      | inl e ↦ rw e refl
      | inr (pattern, e) ↦ elim (Option-cases (get_elem? pattern.stops index)) [
        | inl e' ↦ rw (e, e') refl
        | inr (here, e') ↦
            not_both
              (in_on_trains graph params graph.patterns key pattern index e
                (get_elem?_in pattern.stops index here e'))
              h
      ]
    ]

    few_edges :
        (s : State) (c : Num) (es : List (Edge Num State (Action Num)))
        → expand number graph params s c ≡ some es
        → length es ≤ degree number graph params s
    unfolding expand degree
    few_edges s c es h =
        let (out, is_out, is_es) = bind_some (arcs number graph params s) _ es h in
        rw is_out (
          subst (λ (xs : List (Edge Num State (Action Num))). length xs ≤ length out)
            (some-injective _ _ is_es)
            (omega (arith, length-map (edge_at number graph params c) out)))

    unlisted_degree :
        (s : State)
        → contains s (universe number graph params) ≡ false
        → degree number graph params s ≡ 0
    unfolding universe
    unlisted_degree s h =
        let (no_board, more) =
          or_false _ _ (sym (contains-append s (map at (keys graph.patterns_at)) _) ∙ h) in
        let (no_walk, no_ride) =
          or_false _ _ (sym (contains-append s (map at (keys graph.walk_edges)) _) ∙ more) in
        by_state s no_board no_walk no_ride
      where
        by_state :
            (t : State)
            → contains t (map at (keys graph.patterns_at)) ≡ false
            → contains t (map at (keys graph.walk_edges)) ≡ false
            → contains t (on_trains number graph params graph.patterns) ≡ false
            → degree number graph params t ≡ 0
        by_state (at stop_id) p q r =
            at_degree stop_id (unlisted stop_id graph.patterns_at p)
              (unlisted stop_id graph.walk_edges q)
        by_state (on key index) p q r = on_degree key index r

    pub expand-IsBounded :
        IsBounded number State
          (Action Num)
          comparable_state
          (expand number graph params)
          (universe number graph params)
          (degree number graph params)
    expand-IsBounded = record { few = few_edges; listed = unlisted_degree }
