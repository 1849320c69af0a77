-- ===== src/Planner/Network/Placed.antt =====
-- Graphs whose lists of patterns name stops that exist
-- (src/metropulse/application/journey_planner.py).
use metropulse.Prelude.{
  ℕ, zero, suc, ◌+◌, ◌<◌, String, ◌≡◌, refl, sym, subst, ◌∙◌, inl, inr, none, some, List, [], ◌∷◌,
  ◌++◌, map, leb, Bool-cases, Option-cases, length, get_elem?, All, All-append, All-map, Any,
  comparable_string, arith,
}
use mathlib.Core.Option.{some-injective}
use metropulse.Prelude.Dict.{lookup}
use metropulse.Planner.Number.{Number}
use metropulse.Planner.Search.{Edge}
use metropulse.Planner.Search.Routes.{OnEdge, Route, stay, extend}
use metropulse.Planner.Network.Keys.{PatternKey, comparable_key, State, at, on, comparable_state}
use metropulse.Planner.Network.{
  Action, Arc, NetworkGraph, Pattern, PatternStop, PlannerParameters, WalkEdge, arcs, boarded,
  boarding, edge_at, expand, listed_at, riding, walking,
}

get_elem?_there :
    {A : Type 0} (xs : List A) (i : ℕ) → i < length xs → (x : A) × (get_elem? xs i ≡ some x)
get_elem?_there [] i h = absurd (omega arith)
get_elem?_there (x ∷ xs) zero h = (x, refl)
get_elem?_there (x ∷ xs) (suc i) h = get_elem?_there xs i (omega arith)

get_elem?_bound :
    {A : Type 0} (xs : List A) (i : ℕ) (x : A) → get_elem? xs i ≡ some x → i < length xs
get_elem?_bound [] i x h = cc
get_elem?_bound (y ∷ xs) zero x h = omega arith
get_elem?_bound (y ∷ xs) (suc i) x h = omega (arith, get_elem?_bound xs i x h)

module _ {Num : Type 0} (graph : NetworkGraph Num) where
  -- the pattern exists and has a stop at the index
  abbrev pub Placed : PatternKey → ℕ → Type 0
  Placed key index =
      (pattern : Pattern) × (lookup key graph.patterns ≡ some pattern)
      × (index < length pattern.stops)

  -- `patterns_at` lists nothing but places in `patterns`
  abbrev pub IsWellFormed : Type 0
  IsWellFormed =
      (stop_id : String) (entries : List (PatternKey × ℕ))
      → lookup stop_id graph.patterns_at ≡ some entries
      → All (λ entry. Placed entry.0 entry.1) entries

  abbrev pub Valid : State → Type 0
  Valid (at stop_id) = Unit
  Valid (on key index) = Placed key index

module _ (number : Number) (graph : NetworkGraph number.Num) (params : PlannerParameters number.Num)
    (formed : IsWellFormed graph) where
  open number use {Num}

  boarded-Valid :
      (pattern : Pattern) (key : PatternKey) (index : ℕ) (others : List (Arc Num))
      → Placed graph key index
      → All (λ arc. Valid graph arc.to) others
      → All (λ arc. Valid graph arc.to) (boarded number graph params pattern key index others)
  unfolding boarded
  boarded-Valid pattern key index others h k =
      elim (Bool-cases (leb (length pattern.stops) (index + 1))) [
        | inl e ↦ rw e k
        | inr e ↦ rw e (h, k)
      ]

  boarding_there :
      (entries : List (PatternKey × ℕ))
      → All (λ entry. Placed graph entry.0 entry.1) entries
      → (out : List (Arc Num)) × (boarding number graph params entries ≡ some out)
        × All (λ arc. Valid graph arc.to) out
  unfolding boarding
  boarding_there [] h = ([], refl, tt)
  boarding_there ((key, index) ∷ rest) ((pattern, is_pattern, inside), more) =
      let (others, is_others, valid) = boarding_there rest more in
      (
        boarded number graph params pattern key index others,
        rw (is_pattern, is_others) refl,
        boarded-Valid pattern key index others (pattern, is_pattern, inside) valid,
      )

  walking-Valid :
      (stop_id : String) (edges : List (WalkEdge Num))
      → All (λ arc. Valid graph arc.to) (map (walking number graph params stop_id) edges)
  unfolding walking
  walking-Valid stop_id [] = tt
  walking-Valid stop_id (e ∷ es) = (tt, walking-Valid stop_id es)

  entries-Placed :
      (stop_id : String)
      → All (λ entry. Placed graph entry.0 entry.1) (listed_at (lookup stop_id graph.patterns_at))
  entries-Placed stop_id = elim (Option-cases (lookup stop_id graph.patterns_at)) [
    | inl e ↦ rw e tt
    | inr (entries, e) ↦ rw e (formed stop_id entries e)
  ]

  riding-Valid :
      (key : PatternKey) (index : ℕ) (here : PatternStop) (pattern : Pattern)
      → lookup key graph.patterns ≡ some pattern
      → All (λ arc. Valid graph arc.to) (riding number graph params key index here pattern.stops)
  unfolding riding
  riding-Valid key index here pattern h =
      elim (Option-cases (get_elem? pattern.stops (index + 1))) [
        | inl e ↦ rw (e, All) tt
        | inr (next, e) ↦
            rw (e, All) ((pattern, h, get_elem?_bound pattern.stops (index + 1) next e), tt)
      ]

  pub arcs_there :
      (s : State)
      → Valid graph s
      → (out : List (Arc Num)) × (arcs number graph params s ≡ some out)
        × All (λ arc. Valid graph arc.to) out
  unfolding arcs
  arcs_there (at stop_id) h =
      let (boards, is_boards, valid) = boarding_there _ (entries-Placed stop_id) in
      (
        boards
            ++ map (walking number graph params stop_id)
                (listed_at (lookup stop_id graph.walk_edges)),
        rw is_boards refl,
        All-append (λ arc. Valid graph arc.to) boards _ valid (walking-Valid stop_id _),
      )
  arcs_there (on key index) (pattern, is_pattern, inside) =
      let (here, is_here) = get_elem?_there pattern.stops index inside in
      (
        record { to = at here.stop_id; weight = none; action = Action.alight key index }
            ∷ riding number graph params key index here pattern.stops,
        rw (is_pattern, is_here) refl,
        (tt, riding-Valid key index here pattern is_pattern),
      )

  among-Valid :
      (c w : Num) (t : State) (a : Action Num) (out : List (Arc Num))
      → Any
          (λ e. (e.to ≡ t) × (e.cost ≡ w) × (e.action ≡ a))
          (map (edge_at number graph params c) out)
      → All (λ arc. Valid graph arc.to) out
      → Valid graph t
  among-Valid c w t a [] h k = elim h [ ]
  among-Valid c w t a (x ∷ xs) (inl (p, _, _)) k = subst (Valid graph) p k.0
  among-Valid c w t a (x ∷ xs) (inr h) k = among-Valid c w t a xs h k.1

  module _ (origin : String) where
    edge-Valid :
        (s : State) (c : Num) (t : State) (w : Num) (a : Action Num)
        → Valid graph s
        → OnEdge number State (Action Num) (expand number graph params) (at origin) s c t w a
        → Valid graph t
    unfolding expand
    edge-Valid s c t w a h (es, is_es, edge) =
        let (out, is_out, valid) = arcs_there s h in
        let same : map (edge_at number graph params c) out ≡ es =
          some-injective _ _ (sym (rw is_out refl) ∙ is_es) in
        among-Valid c w t a out
          (subst (Any (λ e. (e.to ≡ t) × (e.cost ≡ w) × (e.action ≡ a))) (sym same) edge) valid

    -- Every state that can be reached is a place.
    pub Route-Valid :
        {s : State} {c : Num} {actions : List (Action Num)}
        → Route number State (Action Num) (expand number graph params) (at origin) s c actions
        → Valid graph s
    Route-Valid (stay first _ _) = subst (Valid graph) (sym first) tt
    Route-Valid {s = t} {c = w} (extend {s = s} {c = c} action route edge _) =
        edge-Valid s c t w action (Route-Valid route) edge

    pub expands :
        (s : State) (c : Num) (actions : List (Action Num))
        → Route number State (Action Num) (expand number graph params) (at origin) s c actions
        → (es : List (Edge Num State (Action Num))) × (expand number graph params s c ≡ some es)
    unfolding expand
    expands s c actions route =
        let (out, is_out, _) = arcs_there s (Route-Valid route) in
        (map (edge_at number graph params c) out, rw is_out refl)

module _ {Num : Type 0} (graph : NetworkGraph Num) where
  -- the pattern exists and has this stop at the index
  abbrev pub StopsAt : String → PatternKey → ℕ → Type 0
  StopsAt stop_id key index =
      (pattern : Pattern) × (here : PatternStop) × (lookup key graph.patterns ≡ some pattern)
      × (get_elem? pattern.stops index ≡ some here)
      × (here.stop_id ≡ stop_id)

  -- `patterns_at` lists places in `patterns`, each under the stop that is there
  abbrev pub IsConsistent : Type 0
  IsConsistent =
      (stop_id : String) (entries : List (PatternKey × ℕ))
      → lookup stop_id graph.patterns_at ≡ some entries
      → All (λ entry. StopsAt stop_id entry.0 entry.1) entries

  pub consistent-IsWellFormed : IsConsistent → IsWellFormed graph
  consistent-IsWellFormed h stop_id entries is_entries =
      All-map (λ entry. StopsAt stop_id entry.0 entry.1) (λ entry. Placed graph entry.0 entry.1)
        (λ entry (pattern, here, is_pattern, is_here, _).
          (pattern, is_pattern, get_elem?_bound pattern.stops entry.1 here is_here))
        entries (h stop_id entries is_entries)
