-- ===== src/Static/Conversion/Fields.antt =====
-- The fields of a row that stands under a header with the required columns.
use metropulse.Prelude.{
  String, Bool, true, Option, none, some, List, [], ◌∷◌, ◌≡◌, refl, sym, subst, ap, ◌∙◌, ◌⊎◌, inl,
  inr, ◌==◌, All, All-map, contains, comparable_string, comparable_nat, Option-cases, key_cases,
}
use metropulse.Prelude.Equality.{comparable_list}
use metropulse.Prelude.Dict.{lookup, has_key, lookup-of_has_key, lookup-All}
use metropulse.Prelude.Int.{ℤ}
use metropulse.Gtfs.Text.{Text, Unicode, strip}
use metropulse.Gtfs.Text.Strip.{strip-strip}
use metropulse.Gtfs.Date.{Date, parse_gtfs_date}
use metropulse.Gtfs.Time.{parse_gtfs_time}
use metropulse.Static.Numbers.{Float, int, signed}
use metropulse.Static.Rows.{RawRow, RawRows, get}
use metropulse.Static.Columns.{all_in, has_columns}
use metropulse.Static.Checks.{is_some, is_int, text}
use metropulse.Static.Validation.{as_float}
use metropulse.Static.Validation.Quiet.{and_true, some-of_is_some}
use metropulse.Static.Archive.Uniform.{IsStripped, IsUnder, HasHeader}
use metropulse.Static.Conversion.{field, int_at, float_at, date_at, time_at, runs_on}

abbrev value_or_empty : Option Text → Text
value_or_empty o = elim o [ none ↦ [] | some value ↦ value ]

get-eq :
    (column : String) (row : RawRow) (o : Option Text)
    → lookup column row ≡ o
    → get column row ≡ value_or_empty o
unfolding get
get-eq column row o e = ap value_or_empty e

module _ (u : Unicode) where
  strip-nothing : strip u [] ≡ []
  unfolding strip
  strip-nothing = refl

  -- The row has the columns, and no value has space around it.
  abbrev pub IsComplete : List String → RawRow → Type 0
  IsComplete columns row = (all_in columns row ≡ true) × All (IsStripped u) row

  all_in-same :
      (columns : List String) (one other : RawRow)
      → ((c : String) → has_key c one ≡ has_key c other)
      → all_in columns one ≡ true
      → all_in columns other ≡ true
  unfolding all_in
  all_in-same [] one other e h = refl
  all_in-same (column ∷ columns) one other e h =
      let (here, there) = and_true (has_key column one) (all_in columns one) h in
      rw (sym (e column), here) (all_in-same columns one other e there)

  pub rows-IsComplete :
      (columns : List String) (rows : RawRows)
      → HasHeader u rows
      → (rows ≡ []) ⊎ (has_columns rows columns ≡ true)
      → All (IsComplete columns) rows
  rows-IsComplete columns rows header (inl e) =
      subst (λ (r : RawRows). All (IsComplete columns) r) (sym e) tt
  rows-IsComplete columns [] header (inr h) = tt
  rows-IsComplete columns (row ∷ rows) (names, under) (inr h) =
      All-map (IsUnder u names) (IsComplete columns)
        (λ r k. (
          all_in-same columns row r (λ c. under.0.0 c ∙ sym (k.0 c)) (unfold has_columns in h),
          k.1,
        ))
        (row ∷ rows) under

  module _ (columns : List String) (row : RawRow) (complete : IsComplete columns row) where
    has_column :
        (all : List String) (column : String)
        → all_in all row ≡ true
        → contains column all ≡ true
        → has_key column row ≡ true
    unfolding all_in
    has_column [] column h k = cc
    has_column (c ∷ all) column h k =
        let (here, there) = and_true _ _ h in
        elim (key_cases c column) [
          | inl same ↦ subst (λ (x : String). has_key x row ≡ true) same here
          | inr other ↦ has_column all column there (sym (rw other) ∙ k)
        ]

    pub field-get :
        (column : String)
        → contains column columns ≡ true
        → field column row ≡ some (get column row)
    field-get column k =
        let (v, found) = lookup-of_has_key column row (has_column columns column complete.0 k) in
        found ∙ ap (λ (t : Text). some t) (sym (get-eq column row (some v) found))

    pub get-IsStripped : (column : String) → strip u (get column row) ≡ get column row
    get-IsStripped column = elim (Option-cases (lookup column row)) [
      | inl e ↦ rw (get-eq column row none e) (strip-nothing)
      | inr (v, e) ↦
          rw (get-eq column row (some v) e)
            (lookup-All (λ (c : String) (t : Text). strip u t ≡ t) column v row complete.1 e)
    ]

    pub int_at-int :
        (column : String)
        → contains column columns ≡ true
        → is_int u (get column row) ≡ true
        → (n : ℤ) × (int_at u column row ≡ some n)
    unfolding int_at is_int int
    int_at-int column k h =
        let (n, read) = some-of_is_some (int u (strip u (get column row))) h in
        (
          n,
          rw (field-get column k)
              (ap (λ (t : Text). signed u t) (sym (strip-strip u (get column row))) ∙ read),
        )

    pub date_at-some :
        (column : String)
        → contains column columns ≡ true
        → is_some (parse_gtfs_date u (get column row)) ≡ true
        → (d : Date) × (date_at u column row ≡ some d)
    unfolding date_at
    date_at-some column k h =
        let (d, read) = some-of_is_some (parse_gtfs_date u (get column row)) h in
        (d, rw (field-get column k) read)

    pub time_at-parse :
        (column : String)
        → contains column columns ≡ true
        → time_at u column row ≡ parse_gtfs_time u (get column row)
    unfolding time_at
    time_at-parse column k = rw (field-get column k) refl

    pub runs_on-some :
        (column : String)
        → contains column columns ≡ true
        → (b : Bool) × (runs_on u column row ≡ some b)
    unfolding runs_on
    runs_on-some column k = (get column row == (b'1' ∷ []), rw (field-get column k) refl)

    pub text-get : (column : String) → text u column row ≡ get column row
    unfolding text
    text-get column = get-IsStripped column

    module _ (floats : Float) where
      pub float_at-float :
          (column : String)
          → contains column columns ≡ true
          → is_some (as_float u floats (get column row)) ≡ true
          → (x : floats.Num) × (float_at u floats column row ≡ some x)
      unfolding float_at as_float
      float_at-float column k h =
          let (x, read) = some-of_is_some (floats.float (strip u (get column row))) h in
          (
            x,
            rw (field-get column k)
                (ap (λ (t : Text). floats.float t) (sym (get-IsStripped column)) ∙ read),
          )
