-- ===== src/Planner/Network/Weights.antt =====
-- The weights of the edges of the network (src/metropulse/application/journey_planner.py).
use metropulse.Prelude.{
  ℕ, ◌+◌, String, ◌≡◌, refl, sym, ap, subst, inl, inr, Option, none, some, List, [], ◌∷◌, map, leb,
  Bool-cases, Option-cases, bind_some, length, get_elem?, All, Any, All-append, comparable_string,
}
use mathlib.Core.Option.{some-injective}
use metropulse.Prelude.Dict.{lookup}
use metropulse.Prelude.Int.{sub_ℕ}
use metropulse.Planner.Number.{Number, AtMost}
use metropulse.Planner.Search.Routes.{OnEdge, IsMonotone}
use metropulse.Planner.Network.Keys.{PatternKey, comparable_key, State, at, on, comparable_state}
use metropulse.Planner.Network.{
  Action, Arc, NetworkGraph, Pattern, PatternStop, PlannerParameters, WalkEdge, arcs, boarded,
  boarding, edge_at, expand, hop, listed_at, over, riding, walking,
}

module _ (number : Number) (graph : NetworkGraph number.Num)
    (params : PlannerParameters number.Num) where
  open number use {Num, at_most_trans, lt_irrefl, plus_mono, plus_grows}

  -- No weight is negative.
  pub record IsNonNegative : Type 0 where
    pub board : AtMost number number.zero params.board_penalty_seconds
    pub hop : AtMost number number.zero params.min_hop_seconds
    pub walks :
        (stop_id : String) (edges : List (WalkEdge Num))
        → lookup stop_id graph.walk_edges ≡ some edges
        → All
            (λ e.
              AtMost number number.zero (number.times e.walk_seconds params.walk_cost_multiplier))
            edges

  abbrev pub IsHeavy : Option Num → Type 0
  IsHeavy none = Unit
  IsHeavy (some weight) = AtMost number number.zero weight

  abbrev pub Heavy : Arc Num → Type 0
  Heavy arc = IsHeavy arc.weight

  over_grows :
      (c : Num) (weight : Option Num)
      → IsHeavy weight
      → AtMost number c (over number graph params c weight)
  over_grows c none h = lt_irrefl c
  over_grows c (some w) h = plus_grows c w h

  over_mono :
      (b c : Num) (weight : Option Num)
      → AtMost number b c
      → AtMost number (over number graph params b weight) (over number graph params c weight)
  over_mono b c none h = h
  over_mono b c (some w) h = plus_mono b c w h

  module _ (heavy : IsNonNegative) where
    boarded-Heavy :
        (pattern : Pattern) (key : PatternKey) (index : ℕ) (out : List (Arc Num))
        → All Heavy out
        → All Heavy (boarded number graph params pattern key index out)
    unfolding boarded
    boarded-Heavy pattern key index out h =
        elim (Bool-cases (leb (length pattern.stops) (index + 1))) [
          | inl e ↦ rw e h
          | inr e ↦ rw e (heavy.board, h)
        ]

    boarding-Heavy :
        (entries : List (PatternKey × ℕ)) (out : List (Arc Num))
        → boarding number graph params entries ≡ some out
        → All Heavy out
    unfolding boarding
    boarding-Heavy [] out h = subst (All Heavy) (some-injective _ _ h) tt
    boarding-Heavy ((key, index) ∷ rest) out h =
        let (pattern, _, more) = bind_some (lookup key graph.patterns) _ out h in
        let (others, is_others, is_out) =
          bind_some (boarding number graph params rest) _ out more in
        subst (All Heavy) (some-injective _ _ is_out)
          (boarded-Heavy pattern key index others (boarding-Heavy rest others is_others))

    walking-Heavy :
        (stop_id : String) (edges : List (WalkEdge Num))
        → All
            (λ e.
              AtMost number number.zero (number.times e.walk_seconds params.walk_cost_multiplier))
            edges
        → All Heavy (map (walking number graph params stop_id) edges)
    unfolding walking
    walking-Heavy stop_id [] h = tt
    walking-Heavy stop_id (e ∷ es) h = (h.0, walking-Heavy stop_id es h.1)

    walks-Heavy :
        (stop_id : String)
        → All Heavy (
            map (walking number graph params stop_id) (listed_at (lookup stop_id graph.walk_edges)))
    walks-Heavy stop_id = elim (Option-cases (lookup stop_id graph.walk_edges)) [
      | inl e ↦ rw e tt
      | inr (es, e) ↦ rw e (walking-Heavy stop_id es (heavy.walks stop_id es e))
    ]

    hop_lem :
        (here next : PatternStop) → AtMost number number.zero (hop number graph params here next)
    unfolding hop
    hop_lem here next =
        let scheduled = number.of_int (sub_ℕ next.arrival_seconds here.departure_seconds) in
        elim (Bool-cases (number.lt scheduled params.min_hop_seconds)) [
          | inl e ↦ rw e heavy.hop
          | inr e ↦ rw e (at_most_trans number.zero params.min_hop_seconds scheduled heavy.hop e)
        ]

    riding-Heavy :
        (key : PatternKey) (index : ℕ) (here : PatternStop) (stops : List PatternStop)
        → All Heavy (riding number graph params key index here stops)
    unfolding riding
    riding-Heavy key index here stops = elim (Option-cases (get_elem? stops (index + 1))) [
      | inl e ↦ rw (e, All) tt
      | inr (next, e) ↦ rw (e, All) (hop_lem here next, tt)
    ]

    pub arcs-Heavy :
        (s : State) (out : List (Arc Num)) → arcs number graph params s ≡ some out → All Heavy out
    unfolding arcs
    arcs-Heavy (at stop_id) out h =
        let entries = listed_at (lookup stop_id graph.patterns_at) in
        let (boards, is_boards, is_out) =
          bind_some (boarding number graph params entries) _ out h in
        subst (All Heavy) (some-injective _ _ is_out) (
          All-append Heavy boards _ (boarding-Heavy entries boards is_boards) (walks-Heavy stop_id))
    arcs-Heavy (on key index) out h =
        let (pattern, _, more) = bind_some (lookup key graph.patterns) _ out h in
        let (here, _, is_out) = bind_some (get_elem? pattern.stops index) _ out more in
        subst (All Heavy) (some-injective _ _ is_out)
          (tt, riding-Heavy key index here pattern.stops)

    -- An edge is an arc at some cost, and so an edge at every other.
    module _ (start : State) where
      abbrev ArcFrom : State → State → Action Num → Option Num → Type 0
      ArcFrom s t action weight =
          (out : List (Arc Num)) × (arcs number graph params s ≡ some out)
          × Any (λ x. (x.to ≡ t) × (x.weight ≡ weight) × (x.action ≡ action)) out

      edge_of :
          (c : Num) (t : State) (a : Action Num) (weight : Option Num) (out : List (Arc Num))
          → Any (λ x. (x.to ≡ t) × (x.weight ≡ weight) × (x.action ≡ a)) out
          → Any
              (λ e. (e.to ≡ t) × (e.cost ≡ over number graph params c weight) × (e.action ≡ a))
              (map (edge_at number graph params c) out)
      edge_of c t a weight [] h = elim h [ ]
      edge_of c t a weight (x ∷ xs) (inl (p, q, r)) = inl (p, ap (over number graph params c) q, r)
      edge_of c t a weight (x ∷ xs) (inr h) = inr (edge_of c t a weight xs h)

      arc_of :
          (c w : Num) (t : State) (a : Action Num) (out : List (Arc Num))
          → Any
              (λ e. (e.to ≡ t) × (e.cost ≡ w) × (e.action ≡ a))
              (map (edge_at number graph params c) out)
          → All Heavy out
          → (weight : Option Num) × IsHeavy weight
            × (over number graph params c weight ≡ w)
            × Any (λ x. (x.to ≡ t) × (x.weight ≡ weight) × (x.action ≡ a)) out
      arc_of c w t a [] h k = elim h [ ]
      arc_of c w t a (x ∷ xs) (inl (p, q, r)) k = (x.weight, k.0, q, inl (p, refl, r))
      arc_of c w t a (x ∷ xs) (inr h) k =
          let (weight, is_heavy, is_w, k') = arc_of c w t a xs h k.1 in
          (weight, is_heavy, is_w, inr k')

      arc_from :
          (s : State) (c : Num) (t : State) (w : Num) (a : Action Num)
          → OnEdge number State (Action Num) (expand number graph params) start s c t w a
          → (weight : Option Num) × IsHeavy weight
            × (over number graph params c weight ≡ w)
            × ArcFrom s t a weight
      unfolding expand
      arc_from s c t w a (es, is_es, edge) =
          let (out, is_out, same) = bind_some (arcs number graph params s) _ es is_es in
          let (weight, is_heavy, is_w, among) =
            arc_of c w t a out
              (subst (Any (λ e. (e.to ≡ t) × (e.cost ≡ w) × (e.action ≡ a)))
                (sym (some-injective _ _ same)) edge)
              (arcs-Heavy s out is_out) in
          (weight, is_heavy, is_w, (out, is_out, among))

      edge_from :
          (s : State) (c : Num) (t : State) (a : Action Num) (weight : Option Num)
          → ArcFrom s t a weight
          → OnEdge number State
              (Action Num)
              (expand number graph params)
              start
              s
              c
              t
              (over number graph params c weight)
              a
      unfolding expand
      edge_from s c t a weight (out, is_out, among) =
          (map (edge_at number graph params c) out, rw is_out, edge_of c t a weight out among)

      pub expand-IsMonotone :
          IsMonotone number State (Action Num) (expand number graph params) start
      expand-IsMonotone = record {
        grows = λ s c t w a edge.
            let (weight, is_heavy, is_w, _) = arc_from s c t w a edge in
            subst (AtMost number c) is_w (over_grows c weight is_heavy);
        mono = λ s b c t w a low edge.
            let (weight, is_heavy, is_w, arc) = arc_from s c t w a edge in
            (
              over number graph params b weight,
              edge_from s b t a weight arc,
              subst (AtMost number (over number graph params b weight)) is_w
                  (over_mono b c weight low),
            );
      }
