-- ===== src/Realtime/Store/Applied.antt =====
-- The store after a poll (src/metropulse/infrastructure/redis/vehicle_store.py).
use metropulse.Prelude.{
  String, ◌≡◌, ◌≢◌, refl, sym, ap, subst, ◌∙◌, inl, inr, Bool, true, false, not, ◌&&◌, ◌||◌, Option,
  none, some, List, [], ◌∷◌, if◌then◌else◌, ◌==◌, Comparable, comparable_string, contains, Distinct,
  Bool-cases, key_cases, or_false,
}
use metropulse.Prelude.Dict.{
  Dict, keys, lookup, has_key, insert, erase, lookup-insert, lookup-erase, has_key-eq-contains,
  Distinct-insert,
}
use metropulse.Realtime.Snapshot.{changes, diff_snapshots, differs}
use metropulse.Realtime.Snapshot.Changes.{has_key-none, kept, lookup-changes, removed_iff}
use metropulse.Realtime.Store.{by_id, hdel, hset}

abbrev pub or_else {ℓ} : {A : Type ℓ} → Option A → Option A → Option A
or_else none o = o
or_else (some a) o = some a

module _ {V : Type 0} where
  pub lookup-hset :
      (mapping d : Dict String V) (v : String)
      → Distinct (keys mapping)
      → lookup v (hset mapping d) ≡ or_else (lookup v mapping) (lookup v d)
  unfolding hset
  lookup-hset [] d v h = refl
  lookup-hset ((k, x) ∷ mapping) d v h =
      lookup-hset mapping (insert k x d) v h.1
      ∙ (ap (or_else (lookup v mapping)) (lookup-insert k v x d) ∙ elim (key_cases k v) [
        | inr other ↦ rw other refl
        | inl same ↦
            let gone = has_key-none v mapping (
              has_key-eq-contains v mapping
              ∙ subst (λ (i : String). contains i (keys mapping) ≡ false) same h.0) in
            rw ((comparable_string.equal_iff k v).1 same, gone) refl
      ])

  pub lookup-hdel :
      (ks : List String) (d : Dict String V) (v : String)
      → lookup v (hdel ks d) ≡ (if contains v ks then none else lookup v d)
  unfolding hdel
  lookup-hdel [] d v = refl
  lookup-hdel (k ∷ ks) d v =
      lookup-hdel ks (erase k d) v ∙ (rw (lookup-erase k v d) (by_tests (k == v) (contains v ks)))
    where
      by_tests :
          (a b : Bool)
          → (if b then none else if a then none else lookup v d)
            ≡ (if a || b then none else lookup v d)
      by_tests true true = refl
      by_tests true false = refl
      by_tests false b = refl

  pub by_id-Distinct :
      (positions : List (String × V)) (d : Dict String V)
      → Distinct (keys d)
      → Distinct (keys (by_id positions d))
  unfolding by_id
  by_id-Distinct [] d h = h
  by_id-Distinct ((k, v) ∷ positions) d h =
      by_id-Distinct positions (insert k v d) (Distinct-insert k v d h)

module _ {Position : Type 0} ⦃positions : Comparable Position⦄ (stale : Position → Bool) where
  unchanged :
      (previous current : Dict String Position) (j : String)
      → contains j (keys current) ≡ false
      → contains j (keys (changes stale previous current)) ≡ false
  unfolding changes
  unchanged previous [] j h = refl
  unchanged previous ((k, p) ∷ current) j h =
      let (other, rest) = or_false (k == j) _ h in
      elim (Bool-cases (differs stale (lookup k previous) p)) [
        | inl e ↦ rw (e, other) (unchanged previous current j rest)
        | inr e ↦ rw e (unchanged previous current j rest)
      ]

  pub changes-Distinct :
      (previous current : Dict String Position)
      → Distinct (keys current)
      → Distinct (keys (changes stale previous current))
  unfolding changes
  changes-Distinct previous [] h = tt
  changes-Distinct previous ((k, p) ∷ current) h =
      elim (Bool-cases (differs stale (lookup k previous) p)) [
        | inl e ↦ rw e (unchanged previous current k h.0, changes-Distinct previous current h.1)
        | inr e ↦ rw e (changes-Distinct previous current h.1)
      ]

  -- a position that does not differ is the one that is stored
  same_position :
      (old : Option Position) (p : Position) → differs stale old p ≡ false → old ≡ some p
  same_position none p h = cc
  same_position (some q) p h = elim (Bool-cases (q == p)) [
    | inl e ↦ ap some ((positions.equal_iff q p).0 e)
    | inr e ↦ absurd (impossible (sym (rw e) ∙ h))
  ]
    where
      impossible : true ≡ false → ⊥
      impossible e = cc

  merged :
      (old now : Option Position)
      → (now ≡ none → old ≡ none)
      → or_else (kept stale old now) old ≡ now
  merged old none h = h refl
  merged old (some p) h = elim (Bool-cases (differs stale old p)) [
    | inl e ↦ rw e refl
    | inr e ↦ rw e (same_position old p e)
  ]

  settled :
      (a b : Bool) (old now : Option Position)
      → (a ≡ false → old ≡ none)
      → (b ≡ false → now ≡ none)
      → (b ≡ true → now ≢ none)
      → (if a && not b then none else or_else (kept stale old now) old) ≡ now
  settled true true old now f g h = merged old now (λ e. absurd (h refl e))
  settled false true old now f g h = merged old now (λ e. f refl)
  settled true false old now f g h = sym (g refl)
  settled false false old now f g h = merged old now (λ e. f refl)

  found : (v : String) (d : Dict String Position) → has_key v d ≡ true → lookup v d ≢ none
  found v [] h e = absurd (cc)
  found v ((k, p) ∷ d) h e = elim (key_cases k v) [
    | inl same ↦
        let impossible = sym (rw ((comparable_string.equal_iff k v).1 same)) ∙ e in
        none_is impossible
    | inr other ↦ found v d (sym (rw other) ∙ h) (sym (rw other) ∙ e)
  ]
    where
      none_is : some p ≡ none → ⊥
      none_is q = cc

  hset_changes :
      (previous current : Dict String Position) (v : String)
      → Distinct (keys current)
      → lookup v (hset (diff_snapshots stale previous current).changed previous)
        ≡ or_else (kept stale (lookup v previous) (lookup v current)) (lookup v previous)
  unfolding diff_snapshots
  hset_changes previous current v h =
      lookup-hset (changes stale previous current) previous v (changes-Distinct previous current h)
      ∙ ap (λ (o : Option Position). or_else o (lookup v previous))
          (lookup-changes stale previous current v h)

  -- The upserts and removals of a diff, applied to the snapshot that it was made from, give every
  -- vehicle the position of the snapshot that it was made for, where that one names no vehicle twice.
  pub diff_applied :
      (previous current : Dict String Position) (v : String)
      → Distinct (keys current)
      → lookup v (
          hdel
            (diff_snapshots stale previous current).removed
            (hset (diff_snapshots stale previous current).changed previous))
        ≡ lookup v current
  diff_applied previous current v h =
      lookup-hdel (diff_snapshots stale previous current).removed _ v
      ∙ (rw (removed_iff stale previous current v, hset_changes previous current v h)
          (settled (has_key v previous) (has_key v current) (lookup v previous) (lookup v current)
            (has_key-none v previous) (has_key-none v current) (found v current)))
