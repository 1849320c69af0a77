-- ===== src/Planner/Graph/Listed.antt =====
-- Dictionaries of lists to which elements are appended
-- (src/metropulse/application/journey_planner.py).
use metropulse.Prelude.{
  String, ◌≡◌, refl, sym, ap, subst, ◌∙◌, ◌⊎◌, inl, inr, Option, none, some, List, [], ◌∷◌, ◌++◌,
  if◌then◌else◌, Any, Any-append, Any-append_left, Any-append_right, Option-cases, key_cases,
  equal_refl, ◌==◌, comparable_string,
}
use mathlib.Core.Option.{some-injective}
use metropulse.Prelude.Dict.{Dict, lookup, lookup-insert}
use metropulse.Planner.Graph.{append_at, with_last}

module _ {A : Type 0} where
  -- the element is in the list under this key
  abbrev pub Listed : Dict String (List A) → String → A → Type 0
  Listed d k x = (xs : List A) × (lookup k d ≡ some xs) × Any (λ y. y ≡ x) xs

  with_last_self : (o : Option (List A)) (x : A) → Any (λ y. y ≡ x) (with_last o x)
  with_last_self none x = inl refl
  with_last_self (some xs) x = Any-append_right (λ y. y ≡ x) xs (x ∷ []) (inl refl)

  lookup-append_at :
      (k j : String) (x : A) (d : Dict String (List A))
      → lookup j (append_at k x d)
        ≡ (if k == j then some (with_last (lookup k d) x) else lookup j d)
  unfolding append_at
  lookup-append_at k j x d = lookup-insert k j (with_last (lookup k d) x) d

  pub Listed-new : (k : String) (x : A) (d : Dict String (List A)) → Listed (append_at k x d) k x
  Listed-new k x d = (
    with_last (lookup k d) x,
    lookup-append_at k k x d ∙ rw (equal_refl k) refl,
    with_last_self (lookup k d) x,
  )

  pub Listed-kept :
      (k j : String) (x y : A) (d : Dict String (List A))
      → Listed d j y
      → Listed (append_at k x d) j y
  Listed-kept k j x y d (xs, there, is_in) = elim (key_cases k j) [
    | inr other ↦ (xs, lookup-append_at k j x d ∙ rw other there, is_in)
    | inl same ↦
        let there_k : lookup k d ≡ some xs = ap (λ (i : String). lookup i d) same ∙ there in
        (
          xs ++ x ∷ [],
          lookup-append_at k j x d ∙ rw ((comparable_string.equal_iff k j).1 same, there_k) refl,
          Any-append_left (λ z. z ≡ y) xs (x ∷ []) is_in,
        )
  ]

  pub Listed-old :
      (k j : String) (x y : A) (d : Dict String (List A))
      → Listed (append_at k x d) j y
      → Listed d j y ⊎ (k ≡ j) × (x ≡ y)
  Listed-old k j x y d (xs, there, is_in) = elim (key_cases k j) [
    | inr other ↦ inl (xs, sym (rw other) ∙ (sym (lookup-append_at k j x d) ∙ there), is_in)
    | inl same ↦ elim (Option-cases (lookup k d)) [
      | inl e ↦ elim (subst (Any (λ z. z ≡ y)) (sym (now same none e)) is_in) [
        | inl p ↦ inr (same, p)
        | inr h ↦ elim h [ ]
      ]
      | inr (old, e) ↦
          elim (Any-append (λ z. z ≡ y) old (x ∷ [])
            (subst (Any (λ z. z ≡ y)) (sym (now same (some old) e)) is_in)) [
              | inl h ↦ inl (old, ap (λ (i : String). lookup i d) (sym same) ∙ e, h)
              | inr (inl p) ↦ inr (same, p)
              | inr (inr h) ↦ elim h [ ]
            ]
    ]
  ]
    where
      now : k ≡ j → (o : Option (List A)) → lookup k d ≡ o → with_last o x ≡ xs
      now same o e = some-injective _ _ (
          ap (λ (q : Option (List A)). some (with_last q x)) (sym e)
          ∙ (sym (rw ((comparable_string.equal_iff k j).1 same) at (lookup-append_at k j x d))
              ∙ there))
