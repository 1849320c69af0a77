-- ===== src/Static/Loader/Batches.antt =====
-- The batches of `bulk_insert` (src/metropulse/infrastructure/db/repositories.py).
use metropulse.Prelude.{
  ℕ, zero, suc, ◌≤◌, ◌<◌, List, [], ◌∷◌, ◌++◌, take, drop, length, ◌≡◌, refl, sym, ap, ◌∙◌, arith,
}
use mathlib.Core.List.{append-nil, append_assoc}
use metropulse.Static.Loader.{insert_batches, bulk_insert}

module _ {A : Type 0} where
  take-drop : (n : ℕ) (xs : List A) → take n xs ++ drop n xs ≡ xs
  take-drop zero xs = refl
  take-drop (suc n) [] = refl
  take-drop (suc n) (x ∷ xs) = ap (λ ys. x ∷ ys) (take-drop n xs)

  length-drop-le : (n : ℕ) (xs : List A) → length (drop n xs) ≤ length xs
  length-drop-le zero xs = omega arith
  length-drop-le (suc n) [] = omega arith
  length-drop-le (suc n) (x ∷ xs) = omega (arith, length-drop-le n xs)

  insert_batches-append :
      (size fuel : ℕ) (rows table : List A)
      → 0 < size
      → length rows ≤ fuel
      → insert_batches size fuel rows table ≡ table ++ rows
  unfolding insert_batches
  insert_batches-append size zero [] table positive enough = sym (append-nil table)
  insert_batches-append size zero (row ∷ rows) table positive enough =
      absurd (omega (arith, enough))
  insert_batches-append size (suc fuel) [] table positive enough = sym (append-nil table)
  insert_batches-append zero (suc fuel) (row ∷ rows) table positive enough =
      absurd (omega (arith, positive))
  insert_batches-append (suc size) (suc fuel) (row ∷ rows) table positive enough =
      insert_batches-append (suc size) fuel (drop size rows) (table ++ (row ∷ take size rows))
        positive (omega (arith, length-drop-le size rows, enough))
      ∙ append_assoc table (row ∷ take size rows) (drop size rows)
      ∙ ap (λ (ys : List A). table ++ (row ∷ ys)) (take-drop size rows)

  -- Whatever the positive size of a batch, `bulk_insert` adds the rows to the table, all of them and
  -- in their order.
  pub bulk_insert-append :
      (size : ℕ) (rows table : List A) → 0 < size → bulk_insert size rows table ≡ table ++ rows
  unfolding bulk_insert
  bulk_insert-append size rows table positive =
      insert_batches-append size (length rows) rows table positive (omega arith)
