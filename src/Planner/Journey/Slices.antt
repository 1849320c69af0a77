-- ===== src/Planner/Journey/Slices.antt =====
-- The stations of a ride: a slice of a pattern's stops
-- (src/metropulse/application/journey_planner.py).
use metropulse.Prelude.{
  ℕ, zero, suc, ◌+◌, ◌-◌, ◌≤◌, ◌≡◌, ap, ◌∙◌, some, List, [], ◌∷◌, map, get_elem?, get_last?, take,
  drop, arith,
}

module _ {A B : Type 0} (f : A → B) where
  get_elem?-map :
      (xs : List A) (i : ℕ) (x : A) → get_elem? xs i ≡ some x → get_elem? (map f xs) i ≡ some (f x)
  get_elem?-map [] i x h = cc
  get_elem?-map (y ∷ xs) zero x h = cc
  get_elem?-map (y ∷ xs) (suc i) x h = get_elem?-map xs i x h

  get_last?-map : (xs : List A) (x : A) → get_last? xs ≡ some x → get_last? (map f xs) ≡ some (f x)
  get_last?-map [] x h = cc
  get_last?-map (y ∷ []) x h = cc
  get_last?-map (y ∷ z ∷ xs) x h = get_last?-map (z ∷ xs) x h

module _ {A : Type 0} where
  first-slice :
      (xs : List A) (from n : ℕ) (x : A)
      → get_elem? xs from ≡ some x
      → get_elem? (take (suc n) (drop from xs)) 0 ≡ some x
  first-slice [] from n x h = cc
  first-slice (y ∷ xs) zero n x h = h
  first-slice (y ∷ xs) (suc from) n x h = first-slice xs from n x h

  last-take :
      (xs : List A) (n : ℕ) (x : A) → get_elem? xs n ≡ some x → get_last? (take (suc n) xs) ≡ some x
  last-take [] n x h = cc
  last-take (y ∷ xs) zero x h = h
  last-take (y ∷ []) (suc n) x h = cc
  last-take (y ∷ z ∷ xs) (suc n) x h = last-take (z ∷ xs) n x h

  last-slice :
      (xs : List A) (from n to : ℕ) (x : A)
      → from + n ≡ to
      → get_elem? xs to ≡ some x
      → get_last? (take (suc n) (drop from xs)) ≡ some x
  last-slice xs zero n to x e h = last-take xs n x (ap (get_elem? xs) (omega arith) ∙ h)
  last-slice [] (suc from) n to x e h = cc
  last-slice (y ∷ xs) (suc from) n zero x e h = absurd (omega arith)
  last-slice (y ∷ xs) (suc from) n (suc to) x e h = last-slice xs from n to x (omega arith) h

module _ {A B : Type 0} (f : A → B) (xs : List A) (from to : ℕ) (order : from ≤ to) where
  width : to + 1 - from ≡ suc (to - from)
  width = omega arith

  pub first-stations :
      (x : A)
      → get_elem? xs from ≡ some x
      → get_elem? (map f (take (to + 1 - from) (drop from xs))) 0 ≡ some (f x)
  first-stations x h = rw width (get_elem?-map f _ 0 x (first-slice xs from (to - from) x h))

  pub last-stations :
      (x : A)
      → get_elem? xs to ≡ some x
      → get_last? (map f (take (to + 1 - from) (drop from xs))) ≡ some (f x)
  last-stations x h = rw width (
      get_last?-map f (take (suc (to - from)) (drop from xs)) x
        (last-slice xs from (to - from) to x (omega arith) h))
