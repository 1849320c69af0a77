-- ===== src/Planner/Network/Offered.antt =====
-- The steps of a journey among what `_expand` relaxes
-- (src/metropulse/application/journey_planner.py).
use metropulse.Prelude.{
  ℕ, ◌+◌, ◌<◌, String, ◌≡◌, refl, sym, ap, subst, ◌∙◌, inl, inr, false, none, some, List, [], ◌∷◌,
  ◌++◌, map, leb, Bool-cases, bind_some, length, get_elem?, Any, Any-append_left, Any-append_right,
  Any-map, Any-to_map, comparable_string, arith,
}
use mathlib.Core.Option.{some-injective}
use metropulse.Prelude.Dict.{lookup}
use metropulse.Planner.Number.{Number}
use metropulse.Planner.Search.Routes.{OnEdge}
use metropulse.Planner.Network.Keys.{PatternKey, comparable_key, State, at, on, comparable_state}
use metropulse.Planner.Network.{
  Action, board, ride, alight, walk, Arc, NetworkGraph, Pattern, PatternStop, PlannerParameters,
  WalkEdge, arcs, boarded, boarding, edge_at, expand, hop, listed_at, over, riding, walking,
}
use metropulse.Planner.Network.Steps.{Step, boards, walks, rides, alights}
use metropulse.Planner.Network.Placed.{IsWellFormed, Valid, arcs_there}

module _ (number : Number) (graph : NetworkGraph number.Num)
    (params : PlannerParameters number.Num) where
  open number use {Num, plus, times}

  module _ (c : Num) (t : State) (w : Num) (a : Action Num) where
    abbrev Matches : Arc Num → Type 0
    Matches x = (x.to ≡ t) × (over number graph params c x.weight ≡ w) × (x.action ≡ a)

    boarded_rest :
        (pattern : Pattern) (key : PatternKey) (index : ℕ) (others : List (Arc Num))
        → Any Matches others
        → Any Matches (boarded number graph params pattern key index others)
    unfolding boarded
    boarded_rest pattern key index others h =
        elim (Bool-cases (leb (length pattern.stops) (index + 1))) [
          | inl e ↦ rw (e, Any) h
          | inr e ↦ rw (e, Any) (inr h)
        ]

    boarded_first :
        (pattern : Pattern) (key : PatternKey) (index : ℕ) (others : List (Arc Num))
        → index + 1 < length pattern.stops
        → t ≡ on key index
        → plus c params.board_penalty_seconds ≡ w
        → board key index ≡ a
        → Any Matches (boarded number graph params pattern key index others)
    unfolding boarded
    boarded_first pattern key index others h p q r =
        let open_end : leb (length pattern.stops) (index + 1) ≡ false = ground arith in
        rw (open_end, Any) (inl (sym p, q, r))

    boarding_offers :
        (entries : List (PatternKey × ℕ)) (out : List (Arc Num)) (key : PatternKey) (index : ℕ)
        (pattern : Pattern)
        → boarding number graph params entries ≡ some out
        → Any (λ entry. entry ≡ (key, index)) entries
        → lookup key graph.patterns ≡ some pattern
        → index + 1 < length pattern.stops
        → t ≡ on key index
        → plus c params.board_penalty_seconds ≡ w
        → board key index ≡ a
        → Any Matches out
    unfolding boarding
    boarding_offers [] out key index pattern h k is_pattern inside p q r = elim k [ ]
    boarding_offers ((l, i) ∷ rest) out key index pattern h k is_pattern inside p q r =
        let (other, is_other, more) = bind_some (lookup l graph.patterns) _ out h in
        let (others, is_others, is_out) =
          bind_some (boarding number graph params rest) _ out more in
        subst (Any Matches) (some-injective _ _ is_out) (elim k [
          | inr later ↦ boarded_rest other l i others (
              boarding_offers rest others key index pattern is_others later is_pattern inside p q r)
          | inl same ↦
              let is_key : l ≡ key = ap (λ (x : PatternKey × ℕ). x.0) same in
              let is_index : i ≡ index = ap (λ (x : PatternKey × ℕ). x.1) same in
              let is_same : pattern ≡ other = some-injective _ _ (
                sym is_pattern
                ∙ (ap (λ (x : PatternKey). lookup x graph.patterns) (sym is_key) ∙ is_other)) in
              rw (is_key, is_index)
                (boarded_first other key index others
                  (subst (λ (x : Pattern). index + 1 < length x.stops) is_same inside) p q r)
        ])

    walking_offers :
        (stop_id : String) (edges : List (WalkEdge Num)) (edge : WalkEdge Num)
        → Any (λ e. e ≡ edge) edges
        → t ≡ at edge.to_stop_id
        → plus c (times edge.walk_seconds params.walk_cost_multiplier) ≡ w
        → walk stop_id edge.to_stop_id edge.distance_m edge.walk_seconds ≡ a
        → Any Matches (map (walking number graph params stop_id) edges)
    unfolding walking
    walking_offers stop_id edges edge k p q r =
        Any-to_map (walking number graph params stop_id) Matches edges (
          Any-map (λ e. e ≡ edge) (λ e. Matches (walking number graph params stop_id e))
            (λ e same.
              subst (λ (x : WalkEdge Num). Matches (walking number graph params stop_id x))
                (sym same) (sym p, q, r))
            edges k)

    riding_offers :
        (key : PatternKey) (index : ℕ) (stops : List PatternStop) (here next : PatternStop)
        → get_elem? stops (index + 1) ≡ some next
        → t ≡ on key (index + 1)
        → plus c (hop number graph params here next) ≡ w
        → ride key (index + 1) (hop number graph params here next) ≡ a
        → Any Matches (riding number graph params key index here stops)
    unfolding riding
    riding_offers key index stops here next h p q r = rw (h, Any) (inl (sym p, q, r))

    arcs_at :
        (stop_id : String) (out : List (Arc Num))
        → arcs number graph params (at stop_id) ≡ some out
        → (offers : List (Arc Num)) × (boarding number graph params
              (listed_at (lookup stop_id graph.patterns_at))
            ≡ some offers)
          × (offers
                ++ map
                    (walking number graph params stop_id)
                    (listed_at (lookup stop_id graph.walk_edges))
              ≡ out)
    unfolding arcs
    arcs_at stop_id out h =
        let (offers, is_offers, is_out) =
          bind_some (boarding number graph params (listed_at (lookup stop_id graph.patterns_at))) _
            out h in
        (offers, is_offers, some-injective _ _ is_out)

    arcs_on :
        (key : PatternKey) (index : ℕ) (pattern : Pattern) (here : PatternStop)
        (out : List (Arc Num))
        → lookup key graph.patterns ≡ some pattern
        → get_elem? pattern.stops index ≡ some here
        → arcs number graph params (on key index) ≡ some out
        → record { to = at here.stop_id; weight = none; action = alight key index }
            ∷ riding number graph params key index here pattern.stops
          ≡ out
    unfolding arcs
    arcs_on key index pattern here out is_pattern is_here h =
        some-injective _ _ (rw (is_pattern, is_here) at h)

    offered :
        (s : State) (out : List (Arc Num))
        → arcs number graph params s ≡ some out
        → Step number graph params s c t w a
        → Any Matches out
    offered s out h
          (boards stop_id entries key index pattern is_s there k is_pattern inside p q r) =
        let (offers, is_offers, is_out) =
          arcs_at stop_id out (ap (arcs number graph params) (sym is_s) ∙ h) in
        subst (Any Matches) is_out (
          Any-append_left Matches offers _ (
            boarding_offers entries offers key index pattern (rw there at is_offers) k is_pattern
              inside p q r))
    offered s out h (walks stop_id edges edge is_s there k p q r) =
        let (offers, is_offers, is_out) =
          arcs_at stop_id out (ap (arcs number graph params) (sym is_s) ∙ h) in
        subst (Any Matches) is_out
          (Any-append_right Matches offers _ (rw there (walking_offers stop_id edges edge k p q r)))
    offered s out h (rides key index pattern here next is_s is_pattern is_here is_next p q r) =
        subst (Any Matches)
          (arcs_on key index pattern here out is_pattern is_here
            (ap (arcs number graph params) (sym is_s) ∙ h))
          (inr (riding_offers key index pattern.stops here next is_next p q r))
    offered s out h (alights key index pattern here is_s is_pattern is_here p q r) =
        subst (Any Matches)
          (arcs_on key index pattern here out is_pattern is_here
            (ap (arcs number graph params) (sym is_s) ∙ h))
          (inl (sym p, q, r))

  pub Step-edge :
      (start s : State) (c : Num) (t : State) (w : Num) (a : Action Num)
      → IsWellFormed graph
      → Valid graph s
      → Step number graph params s c t w a
      → OnEdge number State (Action Num) (expand number graph params) start s c t w a
  unfolding expand
  Step-edge start s c t w a formed valid step =
      let (out, is_out, _) = arcs_there number graph params formed s valid in
      (
        map (edge_at number graph params c) out,
        rw is_out refl,
        Any-to_map (edge_at number graph params c) (λ e. (e.to ≡ t) × (e.cost ≡ w) × (e.action ≡ a))
            out (offered c t w a s out is_out step),
      )
