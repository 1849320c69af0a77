-- ===== src/Static/Columns.antt =====
-- src/metropulse/application/validation.py: the files and columns that a dataset must have.
use metropulse.Prelude.{
  String, Bool, true, false, not, ◌&&◌, none, some, List, [], ◌∷◌, ◌++◌, comparable_string,
  comparable_nat, contains,
}
use metropulse.Prelude.Equality.{comparable_list, comparable_pair}
use metropulse.Prelude.Dict.{Dict, keys, lookup, has_key}
use metropulse.Static.Rows.{
  RawRow, RawRows, RawDataset, Report, warning, required_file_is_missing, calendar_is_missing,
  shapes_are_missing, file_is_empty, missing_column, file_issue, report_if,
}

abbrev pub required_files : Dict String (List String)
required_files =
    ("agency.txt", "agency_name" ∷ "agency_url" ∷ "agency_timezone" ∷ [])
    ∷ ("routes.txt", "route_id" ∷ "route_type" ∷ [])
    ∷ ("trips.txt", "trip_id" ∷ "route_id" ∷ "service_id" ∷ [])
    ∷ ("stops.txt", "stop_id" ∷ "stop_name" ∷ "stop_lat" ∷ "stop_lon" ∷ [])
    ∷ (
      "stop_times.txt",
      "trip_id" ∷ "stop_id" ∷ "stop_sequence" ∷ "arrival_time" ∷ "departure_time" ∷ [],
    )
    ∷ []

abbrev pub days_of_week : List String
days_of_week =
    "monday" ∷ "tuesday" ∷ "wednesday" ∷ "thursday" ∷ "friday" ∷ "saturday" ∷ "sunday" ∷ []

abbrev pub conditional_files : Dict String (List String)
conditional_files =
    ("calendar.txt", "service_id" ∷ (days_of_week ++ ("start_date" ∷ "end_date" ∷ [])))
    ∷ ("calendar_dates.txt", "service_id" ∷ "date" ∷ "exception_type" ∷ [])
    ∷ ("shapes.txt", "shape_id" ∷ "shape_pt_lat" ∷ "shape_pt_lon" ∷ "shape_pt_sequence" ∷ [])
    ∷ []

-- required_files[filename], conditional_files[filename]
abbrev pub columns_of : String → List String
columns_of filename = elim (lookup filename (required_files ++ conditional_files)) [
  | none ↦ []
  | some columns ↦ columns
]

unfoldable pub missing_files : Dict String (List String) → RawDataset → Report
missing_files [] dataset = []
missing_files ((filename, columns) ∷ files) dataset =
    report_if (not (has_key filename dataset)) (file_issue filename required_file_is_missing)
    ++ missing_files files dataset

unfoldable pub check_presence : RawDataset → Report
check_presence dataset =
    missing_files required_files dataset
    ++ (report_if
          (not (has_key "calendar.txt" dataset) && not (has_key "calendar_dates.txt" dataset))
          (file_issue "calendar.txt" calendar_is_missing)
        ++ report_if (not (has_key "shapes.txt" dataset)) (record {
          file = "shapes.txt";
          row = none;
          reason = shapes_are_missing;
          severity = warning;
        }))

unfoldable pub missing_columns : String → List String → List String → Report
missing_columns filename [] present = []
missing_columns filename (column ∷ required) present =
    report_if (not (contains column present)) (file_issue filename (missing_column column))
    ++ missing_columns filename required present

unfoldable pub check_columns : String → List String → RawRows → Report
check_columns filename required [] = file_issue filename file_is_empty ∷ []
check_columns filename required (row ∷ rows) = missing_columns filename required (keys row)

-- `for filename, columns in ...items(): if filename in dataset: _check_columns(...)`
unfoldable pub check_files : Dict String (List String) → RawDataset → Report
check_files [] dataset = []
check_files ((filename, columns) ∷ files) dataset =
    elim (lookup filename dataset) [ none ↦ [] | some rows ↦ check_columns filename columns rows ]
    ++ check_files files dataset

-- `all(c in row for c in columns)`
unfoldable pub all_in : List String → RawRow → Bool
all_in [] row = true
all_in (column ∷ columns) row = has_key column row && all_in columns row

unfoldable pub has_columns : RawRows → List String → Bool
has_columns [] columns = false
has_columns (row ∷ rows) columns = all_in columns row
