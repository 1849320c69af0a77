-- ===== src/Planner/Graph/Indexed.antt =====
-- What the index of the patterns by stop lists (`_build_graph` of
-- src/metropulse/application/journey_planner.py).
use metropulse.Prelude.{
  ℕ, zero, suc, ◌+◌, String, ◌≡◌, refl, sym, ap, subst, ◌⊎◌, inl, inr, some, List, [], ◌∷◌, Any,
  get_elem?, comparable_string, arith,
}
use mathlib.Core.Option.{some-injective}
use metropulse.Prelude.Dict.{Dict}
use metropulse.Planner.Network.{PatternKey, comparable_key, Pattern, PatternStop}
use metropulse.Planner.Graph.{append_at, index_patterns, index_stops}
use metropulse.Planner.Graph.Listed.{Listed, Listed-kept, Listed-new, Listed-old}

abbrev pub Index : Type 0
Index = Dict String (List (PatternKey × ℕ))

-- the stop at this place in a list of stops
abbrev pub HasStop : List PatternStop → ℕ → String → Type 0
HasStop stops n stop_id =
    (here : PatternStop) × (get_elem? stops n ≡ some here) × (here.stop_id ≡ stop_id)

index_stops_sound :
    (key : PatternKey) (i : ℕ) (stops : List PatternStop) (d : Index) (s : String) (l : PatternKey)
    (n : ℕ)
    → Listed (index_stops key i stops d) s (l, n)
    → Listed d s (l, n) ⊎ (l ≡ key) × ((j : ℕ) × (n ≡ i + j) × HasStop stops j s)
unfolding index_stops
index_stops_sound key i [] d s l n h = inl h
index_stops_sound key i (stop ∷ stops) d s l n h =
    elim (index_stops_sound key (i + 1) stops (append_at stop.stop_id (key, i) d) s l n h) [
      | inr (same, (j, place, there)) ↦ inr (same, (suc j, omega (arith, place), there))
      | inl k ↦ elim (Listed-old stop.stop_id s (key, i) (l, n) d k) [
        | inl old ↦ inl old
        | inr (at_stop, new) ↦
            let place : i ≡ n = ap (λ (x : PatternKey × ℕ). x.1) new in
            inr (
              ap (λ (x : PatternKey × ℕ). x.0) (sym new),
              (0, omega (arith, place), (stop, refl, at_stop)),
            )
      ]
    ]

index_stops-kept :
    (key : PatternKey) (i : ℕ) (stops : List PatternStop) (d : Index) (s : String)
    (x : PatternKey × ℕ)
    → Listed d s x
    → Listed (index_stops key i stops d) s x
unfolding index_stops
index_stops-kept key i [] d s x h = h
index_stops-kept key i (stop ∷ stops) d s x h =
    index_stops-kept key (i + 1) stops _ s x (Listed-kept stop.stop_id s (key, i) x d h)

index_stops_complete :
    (key : PatternKey) (i : ℕ) (stops : List PatternStop) (d : Index) (j n : ℕ) (here : PatternStop)
    → get_elem? stops j ≡ some here
    → i + j ≡ n
    → Listed (index_stops key i stops d) here.stop_id (key, n)
unfolding index_stops
index_stops_complete key i [] d j n here h e = cc
index_stops_complete key i (stop ∷ stops) d (suc j) n here h e =
    index_stops_complete key (i + 1) stops _ j n here h (omega (arith, e))
index_stops_complete key i (stop ∷ stops) d zero n here h e =
    let place : i ≡ n = omega (arith, e) in
    index_stops-kept key (i + 1) stops _ here.stop_id (key, n)
      (subst (λ (m : ℕ). Listed (append_at stop.stop_id (key, i) d) here.stop_id (key, m)) place
        (subst (λ (x : PatternStop). Listed (append_at stop.stop_id (key, i) d) x.stop_id (key, i))
          (some-injective _ _ h) (Listed-new stop.stop_id (key, i) d)))

module _ (s : String) (l : PatternKey) (n : ℕ) where
  abbrev pub FromPattern : List Pattern → Type 0
  FromPattern patterns =
      (p : Pattern) × Any (λ q. q ≡ p) patterns × (l ≡ p.key) × HasStop p.stops n s

  pub index_patterns_sound :
      (patterns : List Pattern) (d : Index)
      → Listed (index_patterns patterns d) s (l, n)
      → Listed d s (l, n) ⊎ FromPattern patterns
  unfolding index_patterns
  index_patterns_sound [] d h = inl h
  index_patterns_sound (p ∷ patterns) d h =
      elim (index_patterns_sound patterns (index_stops p.key 0 p.stops d) h) [
        | inr (q, is_in, same, there) ↦ inr (q, inr is_in, same, there)
        | inl k ↦ elim (index_stops_sound p.key 0 p.stops d s l n k) [
          | inl old ↦ inl old
          | inr (same, (j, place, there)) ↦ inr (
            p,
            inl refl,
            same,
            subst (λ (m : ℕ). HasStop p.stops m s) (omega (arith, place)) there,
          )
        ]
      ]

index_patterns-kept :
    (patterns : List Pattern) (d : Index) (s : String) (x : PatternKey × ℕ)
    → Listed d s x
    → Listed (index_patterns patterns d) s x
unfolding index_patterns
index_patterns-kept [] d s x h = h
index_patterns-kept (p ∷ patterns) d s x h =
    index_patterns-kept patterns _ s x (index_stops-kept p.key 0 p.stops d s x h)

pub index_patterns_complete :
    (patterns : List Pattern) (d : Index) (p : Pattern) (n : ℕ) (here : PatternStop)
    → Any (λ q. q ≡ p) patterns
    → get_elem? p.stops n ≡ some here
    → Listed (index_patterns patterns d) here.stop_id (p.key, n)
unfolding index_patterns
index_patterns_complete [] d p n here h e = elim h [ ]
index_patterns_complete (q ∷ patterns) d p n here (inr h) e =
    index_patterns_complete patterns _ p n here h e
index_patterns_complete (q ∷ patterns) d p n here (inl same) e =
    subst
      (λ (r : Pattern).
        Listed (index_patterns patterns (index_stops r.key 0 r.stops d)) here.stop_id (p.key, n))
      (sym same)
      (index_patterns-kept patterns _ here.stop_id (p.key, n)
        (index_stops_complete p.key 0 p.stops d n n here e (omega arith)))
