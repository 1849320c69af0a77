-- ===== src/Static/Conversion/Beside.antt =====
-- The rows of a file and what they become, side by side.
use metropulse.Prelude.{
  Option, some, List, [], ◌∷◌, map, ◌≡◌, refl, subst, All, bind_some, comparable_nat,
}
use mathlib.Core.Option.{some-injective}
use metropulse.Prelude.Equality.{comparable_list}
use metropulse.Static.Rows.{RawRow, RawRows}
use metropulse.Static.Conversion.{convert_all}

module _ {A : Type 0} (convert_row : RawRow → Option A) where
  -- every row is converted
  pub convert_all-some :
      (rows : RawRows)
      → All (λ row. (a : A) × (convert_row row ≡ some a)) rows
      → (xs : List A) × (convert_all convert_row rows ≡ some xs)
  unfolding convert_all
  convert_all-some [] h = ([], refl)
  convert_all-some (row ∷ rows) h =
      let (x, e) = h.0 in let (xs, f) = convert_all-some rows h.1 in (x ∷ xs, rw (e, f) refl)

  -- The rows and what they become, side by side.
  abbrev pub Beside : (RawRow → A → Type 0) → RawRows → List A → Type 0
  Beside Q [] [] = Unit
  Beside Q [] (x ∷ xs) = ⊥
  Beside Q (row ∷ rows) [] = ⊥
  Beside Q (row ∷ rows) (x ∷ xs) = Q row x × Beside Q rows xs

  pub convert_all-Beside :
      (P : RawRow → Type 0) (Q : RawRow → A → Type 0)
      → ((row : RawRow) → P row → (a : A) → convert_row row ≡ some a → Q row a)
      → (rows : RawRows) (xs : List A) → All P rows
      → convert_all convert_row rows ≡ some xs
      → Beside Q rows xs
  unfolding convert_all
  convert_all-Beside P Q f [] xs h e =
      subst (λ (ys : List A). Beside Q [] ys) (some-injective _ _ e) tt
  convert_all-Beside P Q f (row ∷ rows) xs h e =
      let (x, e1, rest) = bind_some (convert_row row) _ xs e in
      let (ys, e2, made) = bind_some (convert_all convert_row rows) _ xs rest in
      subst (λ (zs : List A). Beside Q (row ∷ rows) zs) (some-injective _ _ made)
        (f row h.0 x e1, convert_all-Beside P Q f rows ys h.1 e2)

  -- The same keys in the same order.
  pub Beside-map :
      {K : Type 0} (key : A → K) (raw : RawRow → K) (Q : RawRow → A → Type 0)
      → ((row : RawRow) (a : A) → Q row a → key a ≡ raw row)
      → (rows : RawRows) (xs : List A) → Beside Q rows xs
      → map key xs ≡ map raw rows
  Beside-map key raw Q f [] [] h = refl
  Beside-map key raw Q f [] (x ∷ xs) h = elim h [ ]
  Beside-map key raw Q f (row ∷ rows) [] h = elim h [ ]
  Beside-map key raw Q f (row ∷ rows) (x ∷ xs) h =
      rw (f row x h.0, Beside-map key raw Q f rows xs h.1) refl

  -- What holds of each row by what it becomes.
  pub Beside-All :
      (P : RawRow → Type 0) (Q : RawRow → A → Type 0) (R : A → Type 0)
      → ((row : RawRow) (a : A) → P row → Q row a → R a)
      → (rows : RawRows) (xs : List A) → All P rows
      → Beside Q rows xs
      → All R xs
  Beside-All P Q R f [] [] p h = tt
  Beside-All P Q R f [] (x ∷ xs) p h = elim h [ ]
  Beside-All P Q R f (row ∷ rows) [] p h = elim h [ ]
  Beside-All P Q R f (row ∷ rows) (x ∷ xs) p h =
      (f row x p.0 h.0, Beside-All P Q R f rows xs p.1 h.1)
