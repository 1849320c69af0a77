-- ===== src/Static/Rows/Loops.antt =====
-- What a loop over the rows of a file has established when it adds no error to the report.
use metropulse.Prelude.{
  filter, ℕ, ◌+◌, Bool, false, ◌||◌, List, [], ◌∷◌, ◌++◌, map, ◌≡◌, refl, sym, subst, ap, ◌∙◌,
  arith, Comparable, ◌==◌, contains, Distinct, All, or_false, unequal_sym, filter-append,
}
use metropulse.Static.Rows.{
  RawRow, RawRows, Report, has_errors, errors, is_error, is_nonempty, check_rows,
}

nonempty-append :
    {A : Type 0} (xs ys : List A) → is_nonempty (xs ++ ys) ≡ (is_nonempty xs || is_nonempty ys)
nonempty-append [] ys = refl
nonempty-append (x ∷ xs) ys = refl

pub has_errors-append : (xs ys : Report) → has_errors (xs ++ ys) ≡ (has_errors xs || has_errors ys)
unfolding has_errors errors
has_errors-append xs ys =
    rw (filter-append is_error xs ys) (nonempty-append (filter is_error xs) (filter is_error ys))

-- Neither of two reports has errors if they have none together.
pub no_errors :
    (xs ys : Report)
    → has_errors (xs ++ ys) ≡ false
    → (has_errors xs ≡ false) × (has_errors ys ≡ false)
no_errors xs ys h = or_false _ _ (sym (has_errors-append xs ys) ∙ h)

module _ {K : Type 0} (P : RawRow → Type 0) (step : List K → ℕ → RawRow → Report × List K)
    (sound : (seen : List K) (i : ℕ) (row : RawRow)
      → has_errors (step seen i row).0 ≡ false
      → P row) where
  pub check_rows-All :
      (seen : List K) (i : ℕ) (rows : RawRows)
      → has_errors (check_rows step seen i rows).0 ≡ false
      → All P rows
  unfolding check_rows
  check_rows-All seen i [] h = tt
  check_rows-All seen i (row ∷ rows) h =
      let (here, there) =
        no_errors (step seen i row).0 (check_rows step (step seen i row).1 (i + 1) rows).0 h in
      (sound seen i row here, check_rows-All (step seen i row).1 (i + 1) rows there)

-- A step that adds the key of its row to the set, and no error only if the row is right.
module _ {K : Type 0} ⦃e : Comparable K⦄ (key : RawRow → K) (P : RawRow → Type 0)
    (step : List K → ℕ → RawRow → Report × List K)
    (sound : (seen : List K) (i : ℕ) (row : RawRow)
      → has_errors (step seen i row).0 ≡ false
      → P row × ((step seen i row).1 ≡ key row ∷ seen)) where
  pub check_rows_sound :
      (seen : List K) (i : ℕ) (rows : RawRows)
      → has_errors (check_rows step seen i rows).0 ≡ false
      → All P rows
        × ((a : K)
            → contains a (check_rows step seen i rows).1
              ≡ (contains a (map key rows) || contains a seen))
  unfolding check_rows
  check_rows_sound seen i [] h = (tt, λ a. refl)
  check_rows_sound seen i (row ∷ rows) h =
      let (here, there) =
        no_errors (step seen i row).0 (check_rows step (step seen i row).1 (i + 1) rows).0 h in
      let (right, added) = sound seen i row here in
      let (rest, known) = check_rows_sound (step seen i row).1 (i + 1) rows there in
      (
        (right, rest),
        λ a. known a ∙ rw added (swap (contains a (map key rows)) (key row == a) (contains a seen)),
      )
    where
      swap : (x y z : Bool) → (x || (y || z)) ≡ ((y || x) || z)
      swap x y z = ground arith

  -- A step that also adds an error if the key was there before.
  module _
      (fresh : (seen : List K) (i : ℕ) (row : RawRow)
        → has_errors (step seen i row).0 ≡ false
        → contains (key row) seen ≡ false) where
    unseen :
        (seen : List K) (row : RawRow) (rows : RawRows)
        → All (λ r. contains (key r) (key row ∷ seen) ≡ false) rows
        → (contains (key row) (map key rows) ≡ false)
          × All (λ r. contains (key r) seen ≡ false) rows
    unseen seen row [] h = (refl, tt)
    unseen seen row (r ∷ rows) h =
        let (different, old) = or_false _ _ h.0 in
        let (others, olds) = unseen seen row rows h.1 in
        (rw (unequal_sym (key row) (key r) different) others, (old, olds))

    pub check_rows-Distinct :
        (seen : List K) (i : ℕ) (rows : RawRows)
        → has_errors (check_rows step seen i rows).0 ≡ false
        → Distinct (map key rows) × All (λ row. contains (key row) seen ≡ false) rows
    unfolding check_rows
    check_rows-Distinct seen i [] h = (tt, tt)
    check_rows-Distinct seen i (row ∷ rows) h =
        let (here, there) =
          no_errors (step seen i row).0 (check_rows step (step seen i row).1 (i + 1) rows).0 h in
        let (right, added) = sound seen i row here in
        let (distinct, new) = check_rows-Distinct (step seen i row).1 (i + 1) rows there in
        let (others, olds) =
          unseen seen row rows
            (subst (λ (s : List K). All (λ r. contains (key r) s ≡ false) rows) added new) in
        ((others, distinct), (fresh seen i row here, olds))

or_nothing : (a b : Bool) → a ≡ (b || false) → a ≡ b
or_nothing a b h = ground arith

-- A check of a whole file whose rows have keys of their own.
module _ {K : Type 0} ⦃e : Comparable K⦄ (key : RawRow → K) (P : RawRow → Type 0)
    (step : List K → ℕ → RawRow → Report × List K)
    (sound : (seen : List K) (i : ℕ) (row : RawRow)
      → has_errors (step seen i row).0 ≡ false
      → (contains (key row) seen ≡ false) × (P row × ((step seen i row).1 ≡ key row ∷ seen))) where
  pub keyed_rows :
      (result : Report × List K) (rows : RawRows)
      → result ≡ check_rows step [] 2 rows
      → has_errors result.0 ≡ false
      → Distinct (map key rows)
        × (All P rows × ((a : K) → contains a result.1 ≡ contains a (map key rows)))
  keyed_rows result rows same h =
      let quiet = sym (ap (λ (r : Report × List K). has_errors r.0) same) ∙ h in
      let (valid, known) =
        check_rows_sound key P step (λ s i r k. (sound s i r k).1) [] 2 rows quiet in
      let (distinct, new) =
        check_rows-Distinct key P step (λ s i r k. (sound s i r k).1) (λ s i r k. (sound s i r k).0)
          [] 2 rows quiet in
      (
        distinct,
        (valid, λ a. ap (λ (r : Report × List K). contains a r.1) same ∙ or_nothing _ _ (known a)),
      )
