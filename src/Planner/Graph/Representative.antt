-- ===== src/Planner/Graph/Representative.antt =====
-- The trip that stands for a route and direction (`_build_patterns` of
-- src/metropulse/application/journey_planner.py).
use metropulse.Prelude.{
  ℕ, ◌≤◌, String, ◌≡◌, refl, sym, ap, subst, ◌∙◌, ◌⊎◌, inl, inr, true, false, none, some, List, [],
  ◌∷◌, Any, Bool-cases, Option-cases, key_cases, arith,
}
use mathlib.Core.Option.{some-injective}
use metropulse.Prelude.Dict.{Dict, lookup, insert, lookup-insert}
use metropulse.Planner.Network.{PatternKey, comparable_key}
use metropulse.Planner.Graph.{Count, is_longer, key_of, representative}

abbrev Chosen : Type 0
Chosen = Dict PatternKey (String × ℕ)

-- a trip is chosen for the key, with at least this many stop times
abbrev pub AtLeast : PatternKey → ℕ → Chosen → Type 0
AtLeast key n chosen = (trip : String × ℕ) × (lookup key chosen ≡ some trip) × (n ≤ trip.1)

-- the trip is a row of the table, under this key
abbrev pub IsRow : List Count → PatternKey → String × ℕ → Type 0
IsRow rows key trip =
    Any (λ row. (key_of row ≡ key) × (row.trip_id ≡ trip.0) × (row.stop_count ≡ trip.1)) rows

choose : Count → Chosen → Chosen
choose row chosen = insert (key_of row) (row.trip_id, row.stop_count) chosen

choose-AtLeast :
    (row : Count) (chosen : Chosen) (key : PatternKey) (n : ℕ)
    → is_longer row.stop_count (lookup (key_of row) chosen) ≡ true
    → AtLeast key n chosen
    → AtLeast key n (choose row chosen)
unfolding choose
choose-AtLeast row chosen key n longer (trip, is_trip, long) = elim (key_cases (key_of row) key) [
  | inr other ↦ (trip, lookup-insert (key_of row) key _ chosen ∙ rw other is_trip, long)
  | inl same ↦
      let before : lookup (key_of row) chosen ≡ some trip =
        ap (λ (k : PatternKey). lookup k chosen) same ∙ is_trip in
      (
        (row.trip_id, row.stop_count),
        lookup-insert (key_of row) key _ chosen
            ∙ rw ((comparable_key.equal_iff (key_of row) key).1 same) refl,
        ground (arith, (rw before at longer)),
      )
]

choose-own :
    (row : Count) (chosen : Chosen) → AtLeast (key_of row) row.stop_count (choose row chosen)
unfolding choose
choose-own row chosen = (
  (row.trip_id, row.stop_count),
  lookup-insert (key_of row) (key_of row) _ chosen
      ∙ rw ((comparable_key.equal_iff (key_of row) (key_of row)).1 refl) refl,
  omega arith,
)

passed-own :
    (row : Count) (chosen : Chosen)
    → is_longer row.stop_count (lookup (key_of row) chosen) ≡ false
    → AtLeast (key_of row) row.stop_count chosen
passed-own row chosen short = elim (Option-cases (lookup (key_of row) chosen)) [
  | inl e ↦ absurd (longer (rw e at short))
  | inr (trip, e) ↦ (trip, e, ground (arith, (rw e at short)))
]
  where
    longer : true ≡ false → ⊥
    longer p = cc

representative-kept :
    (rows : List Count) (chosen : Chosen) (key : PatternKey) (n : ℕ)
    → AtLeast key n chosen
    → AtLeast key n (representative rows chosen)
unfolding representative choose
representative-kept [] chosen key n h = h
representative-kept (row ∷ rows) chosen key n h =
    elim (Bool-cases (is_longer row.stop_count (lookup (key_of row) chosen))) [
      | inl e ↦ rw e (representative-kept rows _ key n (choose-AtLeast row chosen key n e h))
      | inr e ↦ rw e (representative-kept rows chosen key n h)
    ]

longest :
    (rows : List Count) (chosen : Chosen) (row : Count)
    → Any (λ r. r ≡ row) rows
    → AtLeast (key_of row) row.stop_count (representative rows chosen)
unfolding representative choose
longest [] chosen row h = elim h [ ]
longest (r ∷ rows) chosen row (inr h) =
    elim (Bool-cases (is_longer r.stop_count (lookup (key_of r) chosen))) [
      | inl e ↦ rw e (longest rows _ row h)
      | inr e ↦ rw e (longest rows chosen row h)
    ]
longest (r ∷ rows) chosen row (inl same) =
    subst (λ (x : Count). AtLeast (key_of x) x.stop_count (representative (r ∷ rows) chosen)) same
      (elim (Bool-cases (is_longer r.stop_count (lookup (key_of r) chosen))) [
        | inl e ↦ rw e (representative-kept rows _ (key_of r) r.stop_count (choose-own r chosen))
        | inr e ↦
            rw e (representative-kept rows chosen (key_of r) r.stop_count (passed-own r chosen e))
      ])

from_rows :
    (rows : List Count) (chosen : Chosen) (key : PatternKey) (trip : String × ℕ)
    → lookup key (representative rows chosen) ≡ some trip
    → (lookup key chosen ≡ some trip) ⊎ IsRow rows key trip
unfolding representative choose
from_rows [] chosen key trip h = inl h
from_rows (row ∷ rows) chosen key trip h =
    elim (Bool-cases (is_longer row.stop_count (lookup (key_of row) chosen))) [
      | inr e ↦ later (from_rows rows chosen key trip (rw e at h))
      | inl e ↦ elim (from_rows rows (choose row chosen) key trip (rw e at h)) [
        | inr k ↦ inr (inr k)
        | inl k ↦ new k
      ]
    ]
  where
    later :
        (lookup key chosen ≡ some trip) ⊎ IsRow rows key trip
        → (lookup key chosen ≡ some trip) ⊎ IsRow (row ∷ rows) key trip
    later (inl k) = inl k
    later (inr k) = inr (inr k)

    new :
        lookup key (choose row chosen) ≡ some trip
        → (lookup key chosen ≡ some trip) ⊎ IsRow (row ∷ rows) key trip
    new k = elim (key_cases (key_of row) key) [
      | inr other ↦ inl (sym (rw other) ∙ (sym (lookup-insert (key_of row) key _ chosen) ∙ k))
      | inl same ↦
          let is_trip : (row.trip_id, row.stop_count) ≡ trip = some-injective _ _ (
            sym (
              rw ((comparable_key.equal_iff (key_of row) key).1 same) at
                (lookup-insert (key_of row) key (row.trip_id, row.stop_count) chosen))
            ∙ k) in
          inr
            (inl (same, ap (λ (t : String × ℕ). t.0) is_trip, ap (λ (t : String × ℕ). t.1) is_trip))
    ]

-- For every row a trip of its route and direction is chosen, with at least as many stop times, and
-- each trip that is chosen is a row.
pub representative-longest :
    (rows : List Count)
    → ((row : Count)
        → Any (λ r. r ≡ row) rows
        → AtLeast (key_of row) row.stop_count (representative rows []))
      × ((key : PatternKey) (trip : String × ℕ)
          → lookup key (representative rows []) ≡ some trip
          → IsRow rows key trip)
representative-longest rows =
    (longest rows [], λ key trip h. only key trip (from_rows rows [] key trip h))
  where
    only :
        (key : PatternKey) (trip : String × ℕ)
        → (none ≡ some trip) ⊎ IsRow rows key trip
        → IsRow rows key trip
    only key trip (inl k) = cc
    only key trip (inr k) = k
