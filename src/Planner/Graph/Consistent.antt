-- ===== src/Planner/Graph/Consistent.antt =====
-- The index of the patterns by stop (`_build_graph` of
-- src/metropulse/application/journey_planner.py).
use metropulse.Prelude.{
  ℕ, String, ◌≡◌, refl, sym, ap, subst, ◌∙◌, ◌↔◌, inl, inr, Option, none, some, List, [], ◌∷◌, All,
  All-of_each, Any, Any-map, Distinct, Bool-cases, key_cases, length, get_elem?, ltb,
  comparable_string,
}
use mathlib.Core.Option.{some-injective}
use metropulse.Prelude.Dict.{
  Dict, keys, values, lookup, lookup-All, lookup-entry, Distinct-insert, All-insert,
}
use metropulse.Planner.Number.{Number}
use metropulse.Planner.Network.{
  PatternKey, comparable_key, Pattern, PatternStop, NetworkGraph, PlannerParameters,
}
use metropulse.Planner.Network.Placed.{IsConsistent, StopsAt}
use metropulse.Planner.Graph.{
  Maths, Route, Stop, StopTime, Timetable, Trip, add_pattern, add_patterns, build_graph,
  build_patterns, index_patterns, make_pattern, representative, routes_by_id,
}
use metropulse.Planner.Graph.Indexed.{Index, index_patterns_complete, index_patterns_sound}
use metropulse.Planner.Graph.Listed.{Listed}

-- Every pattern stands under its own key, and no key stands twice.
abbrev pub IsKeyed : Dict PatternKey Pattern → Type 0
IsKeyed patterns = All (λ entry. entry.1.key ≡ entry.0) patterns × Distinct (keys patterns)

module _ {Num : Type 0} where
  add_pattern-IsKeyed :
      (routes : Dict String Route) (key : PatternKey) (trip : Option Trip)
      (pairs : List (StopTime × Stop Num)) (patterns : Dict PatternKey Pattern)
      → IsKeyed patterns
      → IsKeyed (add_pattern routes key trip pairs patterns)
  unfolding add_pattern make_pattern
  add_pattern-IsKeyed routes key none pairs patterns h = h
  add_pattern-IsKeyed routes key (some trip) pairs patterns h =
      elim (Bool-cases (ltb (length pairs) 2)) [
        | inl e ↦ rw e h
        | inr e ↦ rw e (
          All-insert (λ entry. entry.1.key ≡ entry.0) key _ patterns refl h.0,
          Distinct-insert key _ patterns h.1,
        )
      ]

  add_patterns-IsKeyed :
      (table : Timetable Num) (routes : Dict String Route) (chosen : Dict PatternKey (String × ℕ))
      (patterns : Dict PatternKey Pattern)
      → IsKeyed patterns
      → IsKeyed (add_patterns table routes chosen patterns)
  unfolding add_patterns
  add_patterns-IsKeyed table routes [] patterns h = h
  add_patterns-IsKeyed table routes ((key, (trip_id, n)) ∷ rest) patterns h =
      add_patterns-IsKeyed table routes rest _ (
        add_pattern-IsKeyed routes key (table.trip trip_id) (table.stop_times_with_stops trip_id)
          patterns h)

  pub build_patterns-IsKeyed : (table : Timetable Num) → IsKeyed (build_patterns table)
  unfolding build_patterns
  build_patterns-IsKeyed table =
      add_patterns-IsKeyed table (routes_by_id table.routes []) (representative table.counts []) []
        (tt, tt)

-- a value has an entry, and an entry a value
entry_of_value :
    (d : Dict PatternKey Pattern) (p : Pattern)
    → All (λ entry. entry.1.key ≡ entry.0) d
    → Any (λ q. q ≡ p) (values d)
    → Any (λ entry. entry ≡ (p.key, p)) d
entry_of_value [] p h k = elim k [ ]
entry_of_value ((key, q) ∷ d) p h (inr k) = inr (entry_of_value d p h.1 k)
entry_of_value ((key, q) ∷ d) p h (inl same) =
    inl (ap (λ (k : PatternKey). (k, q)) (sym h.0) ∙ ap (λ (r : Pattern). (r.key, r)) same)

value_of_lookup :
    (key : PatternKey) (p : Pattern) (d : Dict PatternKey Pattern)
    → lookup key d ≡ some p
    → Any (λ q. q ≡ p) (values d)
value_of_lookup key p [] h = cc
value_of_lookup key p ((k, q) ∷ d) h = elim (key_cases k key) [
  | inl same ↦ inl (some-injective _ _ (sym (rw ((comparable_key.equal_iff k key).1 same)) ∙ h))
  | inr other ↦ inr (value_of_lookup key p d (sym (rw other) ∙ h))
]

keyed_lookup :
    (patterns : Dict PatternKey Pattern) (p : Pattern)
    → IsKeyed patterns
    → Any (λ q. q ≡ p) (values patterns)
    → lookup p.key patterns ≡ some p
keyed_lookup patterns p (own, distinct) h =
    lookup-entry p.key p patterns distinct (entry_of_value patterns p own h)

-- The index lists the places of the patterns.
index_consistent :
    {Num : Type 0} (graph : NetworkGraph Num)
    → IsKeyed graph.patterns
    → graph.patterns_at ≡ index_patterns (values graph.patterns) []
    → (s : String) (l : PatternKey) (n : ℕ) → Listed graph.patterns_at s (l, n)
    → StopsAt graph s l n
index_consistent graph keyed is_index s l n h =
    elim (index_patterns_sound s l n (values graph.patterns) []
      (subst (λ (d : Index). Listed d s (l, n)) is_index h)) [
        | inl (xs, none_is, _) ↦ absurd (nothing none_is)
        | inr (p, is_in, same, (here, is_here, is_stop)) ↦ (
          p,
          here,
          ap (λ (k : PatternKey). lookup k graph.patterns) same
              ∙ keyed_lookup graph.patterns p keyed is_in,
          is_here,
          is_stop,
        )
      ]
  where
    nothing : {xs : List (PatternKey × ℕ)} → none ≡ some xs → ⊥
    nothing e = cc

module _ (number : Number) (maths : Maths number.Num) (params : PlannerParameters number.Num)
    (version : Option String) (table : Timetable number.Num) where
  open number use {Num}

  -- Whatever the timetable, the graph that is built is consistent.
  pub build_graph-IsConsistent : IsConsistent (build_graph number maths params version table)
  unfolding build_graph
  build_graph-IsConsistent s entries there =
      All-of_each
        (λ entry. StopsAt (build_graph number maths params version table) s entry.0 entry.1) entries
        (λ entry place.
          index_consistent (build_graph number maths params version table)
            (build_patterns-IsKeyed table) refl s entry.0 entry.1
            (
              entries,
              there,
              Any-map (λ y. entry ≡ y) (λ y. y ≡ entry) (λ y e. sym e) entries place,
            ))

  complete :
      (key : PatternKey) (p : Pattern) (n : ℕ) (here : PatternStop)
      → lookup key (build_graph number maths params version table).patterns ≡ some p
      → get_elem? p.stops n ≡ some here
      → Listed (build_graph number maths params version table).patterns_at here.stop_id (key, n)
  unfolding build_graph
  complete key p n here is_p is_here =
      let keyed = build_patterns-IsKeyed table in
      let own : p.key ≡ key =
        lookup-All (λ k q. q.key ≡ k) key p (build_patterns table) keyed.0 is_p in
      subst
        (λ (k : PatternKey).
          Listed (index_patterns (values (build_patterns table)) []) here.stop_id (k, n))
        own
        (index_patterns_complete (values (build_patterns table)) [] p n here
          (value_of_lookup key p (build_patterns table) is_p) is_here)

  sound :
      (s : String) (key : PatternKey) (n : ℕ)
      → Listed (build_graph number maths params version table).patterns_at s (key, n)
      → StopsAt (build_graph number maths params version table) s key n
  unfolding build_graph
  sound s key n =
      index_consistent (build_graph number maths params version table)
        (build_patterns-IsKeyed table) refl s key n

  -- The index of the graph lists at a stop a place in a pattern exactly if the stop is there,
  -- whatever the timetable.
  pub build_graph_lists :
      (s : String) (key : PatternKey) (n : ℕ)
      → Listed (build_graph number maths params version table).patterns_at s (key, n)
        ↔ StopsAt (build_graph number maths params version table) s key n
  build_graph_lists s key n = (
    sound s key n,
    (λ (p, here, is_p, is_here, is_stop).
        subst
          (λ (x : String).
            Listed (build_graph number maths params version table).patterns_at x (key, n))
          is_stop (complete key p n here is_p is_here)),
  )
