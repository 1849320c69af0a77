-- ===== src/Prelude/Dict.antt =====
-- Python's `dict`: keys in the order in which they were first inserted.
use mathlib.Core.Path.{◌≡◌, refl, sym, ap, subst, ◌∙◌}
use mathlib.Core.Option.{some-injective, Option, none, some}
use mathlib.Core.Logic.{inl, inr}
use mathlib.Core.Bool.{Bool, true, false, ◌||◌}
use mathlib.Core.List.{List, [], ◌∷◌}
use native.Mathlib.Omega.{arith}
use metropulse.Prelude.Tests.{
  key_cases, unequal_sym, not_both, Bool-cases, Comparable, ◌==◌, if◌then◌else◌,
}
use metropulse.Prelude.Lists.{All, Any, Distinct, contains, or_left, or_false}

abbrev pub Dict {ℓ κ} : Type ℓ → Type κ → Type (ℓ ⊔ κ)
Dict K V = List (K × V)

module _ {ℓ κ} {K : Type ℓ} {V : Type κ} where
  abbrev pub keys : Dict K V → List K
  keys [] = []
  keys ((k, v) ∷ d) = k ∷ keys d

module _ {ℓ κ} {K : Type ℓ} {V : Type κ} ⦃e : Comparable K⦄ where
  -- d.get(k)
  abbrev pub lookup : K → Dict K V → Option V
  lookup k [] = none
  lookup k ((j, v) ∷ d) = if j == k then some v else lookup k d

  -- k in d
  abbrev pub has_key : K → Dict K V → Bool
  has_key k [] = false
  has_key k ((j, v) ∷ d) = if j == k then true else has_key k d

  -- d[k] = v: a key that is there keeps its place
  abbrev pub insert : K → V → Dict K V → Dict K V
  insert k v [] = (k, v) ∷ []
  insert k v ((j, w) ∷ d) = if j == k then (k, v) ∷ d else (j, w) ∷ insert k v d

  -- d.pop(k, None)
  abbrev pub erase : K → Dict K V → Dict K V
  erase k [] = []
  erase k ((j, v) ∷ d) = let rest = erase k d in if j == k then rest else (j, v) ∷ rest

  pub lookup-insert :
      (k j : K) (v : V) (d : Dict K V)
      → lookup j (insert k v d) ≡ (if k == j then some v else lookup j d)
  lookup-insert k j v [] = refl
  lookup-insert k j v ((i, w) ∷ d) =
      ground (arith, e.equal_iff k j, e.equal_iff i k, e.equal_iff i j, lookup-insert k j v d)

  pub lookup-erase :
      (k j : K) (d : Dict K V) → lookup j (erase k d) ≡ (if k == j then none else lookup j d)
  lookup-erase k j [] = ground arith
  lookup-erase k j ((i, v) ∷ d) =
      ground (arith, lookup-erase k j d, e.equal_iff i k, e.equal_iff i j, e.equal_iff k j)

  pub has_key-eq-contains : (k : K) (d : Dict K V) → has_key k d ≡ contains k (keys d)
  has_key-eq-contains k [] = refl
  has_key-eq-contains k ((j, v) ∷ d) = ground (arith, has_key-eq-contains k d)

module _ {ℓ κ} {K : Type ℓ} {V : Type κ} ⦃e : Comparable K⦄ where
  pub has_key-of_lookup : (k : K) (d : Dict K V) → lookup k d ≡ none → has_key k d ≡ false
  has_key-of_lookup k [] h = refl
  has_key-of_lookup k ((j, v) ∷ d) h = ground (arith, has_key-of_lookup k d)

  pub lookup-of_has_key :
      (k : K) (d : Dict K V) → has_key k d ≡ true → (v : V) × (lookup k d ≡ some v)
  lookup-of_has_key k [] h = cc
  lookup-of_has_key k ((j, v) ∷ d) h = elim (Bool-cases (j == k)) [
    | inl same ↦ rw same (v, refl)
    | inr other ↦ rw other (lookup-of_has_key k d (sym (rw other) ∙ h))
  ]

-- What holds of every entry holds of the one that is found.
module _ {ℓ} {K : Type 0} {V : Type ℓ} ⦃e : Comparable K⦄ (P : K → V → Type 0) where
  pub lookup-All :
      (k : K) (v : V) (d : Dict K V)
      → All (λ entry. P entry.0 entry.1) d
      → lookup k d ≡ some v
      → P k v
  lookup-All k v [] h f = cc
  lookup-All k v ((j, w) ∷ d) h f = elim (key_cases j k) [
    | inl same ↦
        subst (λ (i : K). P i v) same
          (subst (λ (u : V). P j u) (some-injective _ _ (sym (rw ((e.equal_iff j k).1 same)) ∙ f))
            h.0)
    | inr other ↦ lookup-All k v d h.1 (sym (rw other) ∙ f)
  ]

-- d.values()
abbrev pub values {ℓ κ} : {K : Type ℓ} {V : Type κ} → Dict K V → List V
values [] = []
values ((k, v) ∷ d) = v ∷ values d

module _ {ℓ} {K : Type ℓ} {V : Type 0} ⦃e : Comparable K⦄ where
  contains-insert :
      (k j : K) (v : V) (d : Dict K V)
      → contains j (keys (insert k v d)) ≡ (k == j || contains j (keys d))
  contains-insert k j v [] = refl
  contains-insert k j v ((i, w) ∷ d) =
      ground (arith, contains-insert k j v d, e.equal_iff i k, e.equal_iff i j, e.equal_iff k j)

  pub Distinct-insert :
      (k : K) (v : V) (d : Dict K V) → Distinct (keys d) → Distinct (keys (insert k v d))
  Distinct-insert k v [] h = (refl, tt)
  Distinct-insert k v ((i, w) ∷ d) h = elim (key_cases i k) [
    | inl same ↦
        rw ((e.equal_iff i k).1 same) (subst (λ (x : K). contains x (keys d) ≡ false) same h.0, h.1)
    | inr other ↦
        rw other
          (contains-insert k i v d ∙ rw (unequal_sym i k other) h.0, Distinct-insert k v d h.1)
  ]

  pub All-insert :
      (P : K × V → Type 0) (k : K) (v : V) (d : Dict K V)
      → P (k, v)
      → All P d
      → All P (insert k v d)
  All-insert P k v [] p h = (p, tt)
  All-insert P k v ((i, w) ∷ d) p h = elim (Bool-cases (i == k)) [
    | inl e ↦ rw e (p, h.1)
    | inr e ↦ rw e (h.0, All-insert P k v d p h.1)
  ]

-- In a dictionary without a key twice, every entry is the one that is found.
module _ {K : Type 0} {V : Type 0} ⦃e : Comparable K⦄ where
  skipped :
      (k j : K) (v : V) (d : Dict K V)
      → Any (λ x. x ≡ (k, v)) d
      → contains j (keys d) ≡ false
      → (j == k) ≡ false
  skipped k j v [] h f = elim h [ ]
  skipped k j v ((i, w) ∷ d) (inl p) f = elim (Bool-cases (j == k)) [
    | inr other ↦ other
    | inl same ↦
        let is_j : i ≡ j = ap (λ (x : K × V). x.0) p ∙ sym ((e.equal_iff j k).0 same) in
        not_both (or_left _ _ ((e.equal_iff i j).1 is_j)) f
  ]
  skipped k j v ((i, w) ∷ d) (inr h) f = skipped k j v d h (or_false _ _ f).1

  pub lookup-entry :
      (k : K) (v : V) (d : Dict K V)
      → Distinct (keys d)
      → Any (λ x. x ≡ (k, v)) d
      → lookup k d ≡ some v
  lookup-entry k v [] h p = elim p [ ]
  lookup-entry k v ((i, w) ∷ d) h (inl p) =
      rw ((e.equal_iff i k).1 (ap (λ (x : K × V). x.0) p)) (ap (λ (x : K × V). some x.1) p)
  lookup-entry k v ((i, w) ∷ d) h (inr p) = rw (skipped k i v d p h.0) (lookup-entry k v d h.1 p)
