-- ===== src/Realtime/Snapshot/Changes.antt =====
-- What `diff_snapshots` says of one vehicle (src/metropulse/application/snapshot.py).
use metropulse.Prelude.{
  String, ◌≡◌, refl, sym, ap, subst, ◌∙◌, inl, inr, Bool, true, false, not, ◌&&◌, Option, none,
  some, List, [], ◌∷◌, if◌then◌else◌, ◌==◌, Comparable, comparable_string, filter, contains,
  Distinct, Bool-cases, key_cases, arith,
}
use metropulse.Prelude.Dict.{Dict, keys, lookup, has_key, has_key-eq-contains}
use metropulse.Realtime.Snapshot.{changes, diff_snapshots, differs}
use metropulse.Realtime.Snapshot.Sorted.{contains-sorted}

pub has_key-none :
    {V : Type 0} (k : String) (d : Dict String V) → has_key k d ≡ false → lookup k d ≡ none
has_key-none k [] h = refl
has_key-none k ((j, v) ∷ d) h = elim (key_cases j k) [
  | inl same ↦ absurd (true_not_false (sym (rw ((comparable_string.equal_iff j k).1 same)) ∙ h))
  | inr other ↦ rw other (has_key-none k d (sym (rw other) ∙ h))
]
  where
    true_not_false : true ≡ false → ⊥
    true_not_false p = cc

pub has_key-some :
    {V : Type 0} (k : String) (v : V) (d : Dict String V) → lookup k d ≡ some v → has_key k d ≡ true
has_key-some k v [] h = cc
has_key-some k v ((j, w) ∷ d) h = elim (key_cases j k) [
  | inl same ↦ rw ((comparable_string.equal_iff j k).1 same) refl
  | inr other ↦ rw other (has_key-some k v d (sym (rw other) ∙ h))
]

pub contains-filter :
    (p : String → Bool) (v : String) (xs : List String)
    → contains v (filter p xs) ≡ (contains v xs && p v)
contains-filter p v [] = refl
contains-filter p v (x ∷ xs) = elim (key_cases x v) [
  | inl same ↦
      let found : (x == v) ≡ true = (comparable_string.equal_iff x v).1 same in
      let as_v : p x ≡ p v = ap p same in
      let rest = contains-filter p v xs in ground (arith, found, as_v, rest)
  | inr other ↦ let rest = contains-filter p v xs in ground (arith, other, rest)
]

module _ {Position : Type 0} ⦃positions : Comparable Position⦄ (stale : Position → Bool) where
  -- what becomes of a position of the current snapshot
  abbrev pub kept : Option Position → Option Position → Option Position
  kept old none = none
  kept old (some position) = if differs stale old position then some position else none

  absent :
      (v : String) (current : Dict String Position)
      → contains v (keys current) ≡ false
      → lookup v current ≡ none
  absent v current h = has_key-none v current (has_key-eq-contains v current ∙ h)

  pub lookup-changes :
      (previous current : Dict String Position) (v : String)
      → Distinct (keys current)
      → lookup v (changes stale previous current) ≡ kept (lookup v previous) (lookup v current)
  unfolding changes
  lookup-changes previous [] v h = refl
  lookup-changes previous ((j, p) ∷ current) v h = elim (key_cases j v) [
    | inr other ↦ elim (Bool-cases (differs stale (lookup j previous) p)) [
      | inl e ↦ rw (e, other) (lookup-changes previous current v h.1)
      | inr e ↦ rw (e, other) (lookup-changes previous current v h.1)
    ]
    | inl same ↦
        let found = (comparable_string.equal_iff j v).1 same in
        let gone =
          absent v current (subst (λ (x : String). contains x (keys current) ≡ false) same h.0) in
        let here = ap (λ (x : String). differs stale (lookup x previous) p) same in
        elim (Bool-cases (differs stale (lookup j previous) p)) [
          | inl e ↦ rw (e, found, (sym here ∙ e)) refl
          | inr e ↦
              rw (e, found, (sym here ∙ e)) (lookup-changes previous current v h.1 ∙ rw gone refl)
        ]
  ]

  pub removed_iff :
      (previous current : Dict String Position) (v : String)
      → contains v (diff_snapshots stale previous current).removed
        ≡ (has_key v previous && not (has_key v current))
  unfolding diff_snapshots
  removed_iff previous current v =
      contains-sorted v _
      ∙ (contains-filter (λ k. not (has_key k current)) v (keys previous)
          ∙ ap (λ (b : Bool). b && not (has_key v current)) (sym (has_key-eq-contains v previous)))
