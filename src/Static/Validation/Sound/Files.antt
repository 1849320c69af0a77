-- ===== src/Static/Validation/Sound/Files.antt =====
-- The files and columns that a dataset has if `_check_presence` and `_check_columns` report no error.
use metropulse.Prelude.{
  String, Bool, true, false, not, ◌&&◌, Option, none, some, List, [], ◌∷◌, ◌++◌, ◌≡◌, refl, sym, ap,
  subst, ◌∙◌, ◌⊎◌, inl, inr, contains, Any, comparable_string, Option-cases,
}
use metropulse.Prelude.Dict.{Dict, keys, lookup, has_key, has_key-eq-contains, has_key-of_lookup}
use metropulse.Static.Columns.{
  check_presence, check_files, check_columns, missing_columns, missing_files, all_in, has_columns,
}
use metropulse.Static.Rows.{
  RawRow, RawRows, RawDataset, Report, has_errors, errors, file_issue, rows_of, report_if,
  calendar_is_missing, missing_column,
}
use metropulse.Static.Rows.Loops.{no_errors}
use metropulse.Static.Validation.Quiet.{quiet_file, quiet_file_if}

missing_columns-all_in :
    (filename : String) (required : List String) (row : RawRow)
    → has_errors (missing_columns filename required (keys row)) ≡ false
    → all_in required row ≡ true
unfolding missing_columns all_in
missing_columns-all_in filename [] row h = refl
missing_columns-all_in filename (column ∷ required) row h =
    let (here, there) =
      no_errors
        (report_if (not (contains column (keys row))) (file_issue filename (missing_column column)))
        _ h in
    rw (has_key-eq-contains column row, quiet_file _ _ _ here)
      (missing_columns-all_in filename required row there)

check_columns-has_columns :
    (filename : String) (required : List String) (rows : RawRows)
    → has_errors (check_columns filename required rows) ≡ false
    → has_columns rows required ≡ true
check_columns-has_columns filename required [] h =
    unfold check_columns has_errors errors file_issue in cc h
check_columns-has_columns filename required (row ∷ rows) h =
    unfold check_columns has_columns in missing_columns-all_in filename required row h

abbrev pub IsAbsentOrHas : RawDataset → String → List String → Type 0
IsAbsentOrHas dataset filename columns =
    (has_key filename dataset ≡ false) × (rows_of filename dataset ≡ [])
    ⊎ (has_columns (rows_of filename dataset) columns ≡ true)

rows_of-eq :
    (filename : String) (dataset : RawDataset) (o : Option RawRows)
    → lookup filename dataset ≡ o
    → rows_of filename dataset ≡ (elim o [ none ↦ [] | some rows ↦ rows ])
unfolding rows_of
rows_of-eq filename dataset o e =
    ap (λ (p : Option RawRows). elim p as (λ p. RawRows) [ none ↦ [] | some rows ↦ rows ]) e

one_file :
    (filename : String) (columns : List String) (dataset : RawDataset) (rest : Report)
    → has_errors (
        elim (lookup filename dataset) [
          | none ↦ []
          | some rows ↦ check_columns filename columns rows
        ]
        ++ rest)
      ≡ false
    → IsAbsentOrHas dataset filename columns × (has_errors rest ≡ false)
one_file filename columns dataset rest h = elim (Option-cases (lookup filename dataset)) [
  | inl e ↦ (
    inl (has_key-of_lookup filename dataset e, rows_of-eq filename dataset none e),
    sym (rw e) ∙ h,
  )
  | inr (rows, e) ↦
      let k : has_errors (check_columns filename columns rows ++ rest) ≡ false = sym (rw e) ∙ h in
      let (here, there) = no_errors (check_columns filename columns rows) rest k in
      let same : rows_of filename dataset ≡ rows = rows_of-eq filename dataset (some rows) e in
      (inr (rw same (check_columns-has_columns filename columns rows here)), there)
]

-- A file of the list is absent, or its first row has the columns.
pub check_files-columns :
    (files : Dict String (List String)) (dataset : RawDataset) (filename : String)
    (columns : List String)
    → has_errors (check_files files dataset) ≡ false
    → Any (λ file. file ≡ (filename, columns)) files
    → IsAbsentOrHas dataset filename columns
unfolding check_files
check_files-columns [] dataset filename columns h p = elim p [ ]
check_files-columns ((name, required) ∷ files) dataset filename columns h (inr p) =
    check_files-columns files dataset filename columns (one_file name required dataset _ h).1 p
check_files-columns ((name, required) ∷ files) dataset filename columns h (inl p) =
    subst (λ (file : String × List String). IsAbsentOrHas dataset file.0 file.1) p
      (one_file name required dataset _ h).0

-- One of the calendar files is there.
pub check_presence-calendar :
    (dataset : RawDataset)
    → has_errors (check_presence dataset) ≡ false
    → (has_key "calendar.txt" dataset ≡ true) ⊎ (has_key "calendar_dates.txt" dataset ≡ true)
unfolding check_presence
check_presence-calendar dataset h =
    let (files, rest) = no_errors (missing_files _ dataset) _ h in
    let (calendar, shapes) =
      no_errors
        (report_if
          (not (has_key "calendar.txt" dataset) && not (has_key "calendar_dates.txt" dataset))
          (file_issue "calendar.txt" calendar_is_missing))
        _ rest in
    either (has_key "calendar.txt" dataset) (has_key "calendar_dates.txt" dataset)
      (quiet_file_if _ _ _ calendar)
  where
    either : (a b : Bool) → (not a && not b) ≡ false → (a ≡ true) ⊎ (b ≡ true)
    either true b k = inl refl
    either false true k = inr refl
    either false false k = cc k
