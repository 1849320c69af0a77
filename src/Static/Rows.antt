-- ===== src/Static/Rows.antt =====
-- The raw rows of a dataset, the issues of a report (src/metropulse/application/validation.py) and
-- the loops over the rows of a file.
pub mod Loops
use metropulse.Prelude.{
  ℕ, ◌+◌, String, Bool, true, false, ◌||◌, Option, none, some, List, [], ◌∷◌, ◌++◌, ◌≡◌, filter,
  comparable_string, comparable_nat, contains, if◌then◌else◌,
}
use metropulse.Prelude.Equality.{comparable_list}
use metropulse.Prelude.Dict.{Dict, lookup}
use metropulse.Gtfs.Text.{Text, Unicode, strip}

abbrev pub RawRow : Type 0
RawRow = Dict String Text

abbrev pub RawRows : Type 0
RawRows = List RawRow

abbrev pub RawDataset : Type 0
RawDataset = Dict String RawRows

pub data Severity : Type 0 where
  error : Severity
  warning : Severity

-- What a message says, without its wording. A column's value is quoted as the message quotes it.
pub data Reason : Type 0 where
  required_file_is_missing : Reason
  calendar_is_missing : Reason
  shapes_are_missing : Reason
  file_is_empty : Reason
  missing_column : String → Reason
  empty_value : String → Reason
  duplicate : String → Text → Reason
  non_integer : String → Text → Reason
  invalid : String → Text → Reason
  out_of_range : String → Reason
  unknown : String → Text → Reason
  end_precedes_start : Reason
  departure_precedes_arrival : Reason

pub record ValidationIssue : Type 0 where
  pub file : String
  pub row : Option ℕ
  pub reason : Reason
  pub severity : Severity

abbrev pub Report : Type 0
Report = List ValidationIssue

-- report.add(file, message, row=row)
unfoldable pub issue : String → ℕ → Reason → ValidationIssue
issue file row reason = record { file = file; row = some row; reason = reason; severity = error }

-- report.add(file, message)
unfoldable pub file_issue : String → Reason → ValidationIssue
file_issue file reason = record { file = file; row = none; reason = reason; severity = error }

abbrev pub is_error : ValidationIssue → Bool
is_error i = elim i.severity [ error ↦ true | warning ↦ false ]

abbrev pub is_warning : ValidationIssue → Bool
is_warning i = elim i.severity [ error ↦ false | warning ↦ true ]

unfoldable pub errors : Report → Report
errors issues = filter is_error issues

unfoldable pub warnings : Report → Report
warnings issues = filter is_warning issues

abbrev pub is_nonempty {ℓ} : {A : Type ℓ} → List A → Bool
is_nonempty [] = false
is_nonempty (x ∷ xs) = true

-- bool(report.errors)
unfoldable pub has_errors : Report → Bool
unfolding errors
has_errors issues = is_nonempty (errors issues)

-- `none` is the normal return, `some` the issues of GtfsValidationError.
unfoldable pub raise_for_errors : Report → Option Report
unfolding errors has_errors
raise_for_errors issues = if has_errors issues then some (errors issues) else none

-- row.get(column, "")
unfoldable pub get : String → RawRow → Text
get column row = elim (lookup column row) [ none ↦ [] | some value ↦ value ]

-- dataset.get(filename, ())
unfoldable pub rows_of : String → RawDataset → RawRows
rows_of filename dataset = elim (lookup filename dataset) [ none ↦ [] | some rows ↦ rows ]

-- `report.add(...)` under a condition
abbrev pub report_if : Bool → ValidationIssue → Report
report_if true i = i ∷ []
report_if false i = []

-- `for i, row in enumerate(rows, start=i)`: what the loop adds to the report, and the set that it
-- leaves. A step gives both for one row.
module _ {K : Type 0} (step : List K → ℕ → RawRow → Report × List K) where
  unfoldable pub check_rows : List K → ℕ → RawRows → Report × List K
  check_rows seen i [] = ([], seen)
  check_rows seen i (row ∷ rows) =
      let here = step seen i row in
      let rest = check_rows here.1 (i + 1) rows in (here.0 ++ rest.0, rest.1)
