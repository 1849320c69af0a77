-- ===== src/Planner/Network/Steps.antt =====
-- The steps of a journey, described one by one: what `_expand` offers out of a state
-- (src/metropulse/application/journey_planner.py).
use metropulse.Prelude.{
  ℕ, ◌+◌, ◌<◌, String, ◌≡◌, refl, sym, subst, inl, inr, some, List, [], ◌∷◌, map, leb, Bool-cases,
  Option-cases, bind_some, length, get_elem?, Any, Any-append, Any-of_map, Any-element,
  comparable_string, arith,
}
use mathlib.Core.Option.{some-injective}
use metropulse.Prelude.Dict.{lookup}
use metropulse.Planner.Number.{Number}
use metropulse.Planner.Search.Routes.{OnEdge}
use metropulse.Planner.Network.Keys.{PatternKey, comparable_key, State, at, on, comparable_state}
use metropulse.Planner.Network.{
  Action, board, ride, alight, walk, Arc, NetworkGraph, Pattern, PatternStop, PlannerParameters,
  WalkEdge, arcs, boarded, boarding, edge_at, expand, hop, listed_at, over, riding, walking,
}

module _ (number : Number) (graph : NetworkGraph number.Num)
    (params : PlannerParameters number.Num) where
  open number use {Num, plus, times}

  -- From a state at a cost, to a state at a cost, by an action.
  pub data Step (s : State) (c : Num) (t : State) (w : Num) (a : Action Num) : Type 0 where
    boards :
        (stop_id : String) (entries : List (PatternKey × ℕ)) (key : PatternKey) (index : ℕ)
        (pattern : Pattern)
        → s ≡ at stop_id
        → lookup stop_id graph.patterns_at ≡ some entries
        → Any (λ entry. entry ≡ (key, index)) entries
        → lookup key graph.patterns ≡ some pattern
        → index + 1 < length pattern.stops
        → t ≡ on key index
        → plus c params.board_penalty_seconds ≡ w
        → board key index ≡ a
        → Step s c t w a
    walks :
        (stop_id : String) (edges : List (WalkEdge Num)) (edge : WalkEdge Num)
        → s ≡ at stop_id
        → lookup stop_id graph.walk_edges ≡ some edges
        → Any (λ e. e ≡ edge) edges
        → t ≡ at edge.to_stop_id
        → plus c (times edge.walk_seconds params.walk_cost_multiplier) ≡ w
        → walk stop_id edge.to_stop_id edge.distance_m edge.walk_seconds ≡ a
        → Step s c t w a
    rides :
        (key : PatternKey) (index : ℕ) (pattern : Pattern) (here next : PatternStop)
        → s ≡ on key index
        → lookup key graph.patterns ≡ some pattern
        → get_elem? pattern.stops index ≡ some here
        → get_elem? pattern.stops (index + 1) ≡ some next
        → t ≡ on key (index + 1)
        → plus c (hop number graph params here next) ≡ w
        → ride key (index + 1) (hop number graph params here next) ≡ a
        → Step s c t w a
    alights :
        (key : PatternKey) (index : ℕ) (pattern : Pattern) (here : PatternStop)
        → s ≡ on key index
        → lookup key graph.patterns ≡ some pattern
        → get_elem? pattern.stops index ≡ some here
        → t ≡ at here.stop_id
        → c ≡ w
        → alight key index ≡ a
        → Step s c t w a

  module _ (c : Num) (t : State) (w : Num) (a : Action Num) where
    abbrev Matches : Arc Num → Type 0
    Matches x = (x.to ≡ t) × (over number graph params c x.weight ≡ w) × (x.action ≡ a)

    boarding-Step :
        (stop_id : String) (entries all : List (PatternKey × ℕ)) (out : List (Arc Num))
        → lookup stop_id graph.patterns_at ≡ some all
        → ((e : PatternKey × ℕ) → Any (λ x. x ≡ e) entries → Any (λ x. x ≡ e) all)
        → boarding number graph params entries ≡ some out
        → Any Matches out
        → Step (at stop_id) c t w a
    unfolding boarding boarded
    boarding-Step stop_id [] all out there within h found =
        elim (subst (Any Matches) (sym (some-injective _ _ h)) found) [ ]
    boarding-Step stop_id ((key, index) ∷ rest) all out there within h found =
        let (pattern, is_pattern, more) = bind_some (lookup key graph.patterns) _ out h in
        let (others, is_others, is_out) =
          bind_some (boarding number graph params rest) _ out more in
        let later =
          boarding-Step stop_id rest all others there (λ e k. within e (inr k)) is_others in
        let among = subst (Any Matches) (sym (some-injective _ _ is_out)) found in
        elim (Bool-cases (leb (length pattern.stops) (index + 1))) [
          | inl e ↦ later (rw (e, Any) at among)
          | inr e ↦ elim (rw (e, Any) at among) [
            | inl (p, q, r) ↦
                boards stop_id all key index pattern refl there (within (key, index) (inl refl))
                  is_pattern (ground (arith, e)) (sym p) q r
            | inr k ↦ later k
          ]
        ]

    walking-Step :
        (stop_id : String)
        → Any Matches (
            map (walking number graph params stop_id) (listed_at (lookup stop_id graph.walk_edges)))
        → Step (at stop_id) c t w a
    unfolding walking
    walking-Step stop_id found = elim (Option-cases (lookup stop_id graph.walk_edges)) [
      | inl e ↦ elim (rw (e, Any) at found) [ ]
      | inr (edges, e) ↦
          let (edge, is_in, (p, q, r)) =
            Any-element (λ x. Matches (walking number graph params stop_id x)) edges
              (Any-of_map (walking number graph params stop_id) Matches edges (rw e at found)) in
          walks stop_id edges edge refl e is_in (sym p) q r
    ]

    boards-Step :
        (stop_id : String) (out : List (Arc Num))
        → boarding number graph params (listed_at (lookup stop_id graph.patterns_at)) ≡ some out
        → Any Matches out
        → Step (at stop_id) c t w a
    unfolding boarding
    boards-Step stop_id out h found = elim (Option-cases (lookup stop_id graph.patterns_at)) [
      | inl e ↦ elim (subst (Any Matches) (sym (some-injective _ _ (rw e at h))) found) [ ]
      | inr (entries, e) ↦ boarding-Step stop_id entries entries out e (λ x k. k) (rw e at h) found
    ]

    riding-Step :
        (key : PatternKey) (index : ℕ) (pattern : Pattern) (here : PatternStop)
        → lookup key graph.patterns ≡ some pattern
        → get_elem? pattern.stops index ≡ some here
        → Any Matches (riding number graph params key index here pattern.stops)
        → Step (on key index) c t w a
    unfolding riding
    riding-Step key index pattern here is_pattern is_here found =
        elim (Option-cases (get_elem? pattern.stops (index + 1))) [
          | inl e ↦ elim (rw (e, Any) at found) [ ]
          | inr (next, e) ↦ elim (rw (e, Any) at found) [
            | inl (p, q, r) ↦
                rides key index pattern here next refl is_pattern is_here e (sym p) q r
            | inr k ↦ elim k [ ]
          ]
        ]

    Step-of_arc :
        (s : State) (out : List (Arc Num))
        → arcs number graph params s ≡ some out
        → Any Matches out
        → Step s c t w a
    unfolding arcs
    Step-of_arc (at stop_id) out h found =
        let entries = listed_at (lookup stop_id graph.patterns_at) in
        let (offers, is_offers, is_out) =
          bind_some (boarding number graph params entries) _ out h in
        elim (Any-append Matches offers _
          (subst (Any Matches) (sym (some-injective _ _ is_out)) found)) [
            | inl k ↦ boards-Step stop_id offers is_offers k
            | inr k ↦ walking-Step stop_id k
          ]
    Step-of_arc (on key index) out h found =
        let (pattern, is_pattern, more) = bind_some (lookup key graph.patterns) _ out h in
        let (here, is_here, is_out) = bind_some (get_elem? pattern.stops index) _ out more in
        elim (subst (Any Matches) (sym (some-injective _ _ is_out)) found) [
          | inl (p, q, r) ↦ alights key index pattern here refl is_pattern is_here (sym p) q r
          | inr k ↦ riding-Step key index pattern here is_pattern is_here k
        ]

  -- What `_expand` relaxes is a step of a journey.
  pub edge-Step :
      (start s : State) (c : Num) (t : State) (w : Num) (a : Action Num)
      → OnEdge number State (Action Num) (expand number graph params) start s c t w a
      → Step s c t w a
  unfolding expand
  edge-Step start s c t w a (es, is_es, edge) =
      let (out, is_out, same) = bind_some (arcs number graph params s) _ es is_es in
      Step-of_arc c t w a s out is_out (
        Any-of_map (edge_at number graph params c) (λ e. (e.to ≡ t) × (e.cost ≡ w) × (e.action ≡ a))
          out
          (subst (Any (λ e. (e.to ≡ t) × (e.cost ≡ w) × (e.action ≡ a)))
            (sym (some-injective _ _ same)) edge))
