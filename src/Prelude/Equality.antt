-- ===== src/Prelude/Equality.antt =====
-- Python's `==` on lists and pairs.
use mathlib.Core.Path.{◌≡◌, refl}
use mathlib.Core.Logic.{◌↔◌}
use mathlib.Core.Bool.{Bool, true, false, ◌&&◌}
use mathlib.Core.List.{List, [], ◌∷◌}
use native.Mathlib.Omega.{arith}
use metropulse.Prelude.Tests.{Comparable, ◌==◌}

module _ {A : Type 0} ⦃e : Comparable A⦄ where
  abbrev pub list_eqb : List A → List A → Bool
  list_eqb [] [] = true
  list_eqb [] (y ∷ ys) = false
  list_eqb (x ∷ xs) [] = false
  list_eqb (x ∷ xs) (y ∷ ys) = x == y && list_eqb xs ys

  pub list_eqb→eq : (xs ys : List A) → list_eqb xs ys ≡ true → xs ≡ ys
  list_eqb→eq [] [] h = refl
  list_eqb→eq [] (y ∷ ys) h = cc
  list_eqb→eq (x ∷ xs) [] h = cc
  list_eqb→eq (x ∷ xs) (y ∷ ys) h = ground (arith, list_eqb→eq xs ys, e.equal_iff x y)

  pub list_eqb_refl : (xs : List A) → list_eqb xs xs ≡ true
  list_eqb_refl [] = refl
  list_eqb_refl (x ∷ xs) = rw ((e.equal_iff x x).1 refl) (list_eqb_refl xs)

  instance abbrev pub comparable_list : Comparable (List A)
  comparable_list = record {
    equal = list_eqb;
    equal_iff = λ x y. (list_eqb→eq x y, λ p. rw p (list_eqb_refl y));
  }

module _ {A : Type 0} {B : Type 0} ⦃e : Comparable A⦄ ⦃f : Comparable B⦄ where
  abbrev pub pair_eqb : A × B → A × B → Bool
  pair_eqb x y = x.0 == y.0 && f.equal x.1 y.1

  pub pair_eqb_iff : (x y : A × B) → (pair_eqb x y ≡ true) ↔ (x ≡ y)
  pair_eqb_iff (a, b) (c, d) = ground (arith, e.equal_iff a c, f.equal_iff b d)

  instance abbrev pub comparable_pair : Comparable (A × B)
  comparable_pair = record { equal = pair_eqb; equal_iff = pair_eqb_iff }
