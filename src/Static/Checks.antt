-- ===== src/Static/Checks.antt =====
-- src/metropulse/application/validation.py: the checks of agencies, routes and calendars. What a check
-- adds to the report is what its function returns, with the set that the check returns.
use metropulse.Prelude.{
  ℕ, String, Bool, true, false, not, ◌&&◌, ◌||◌, Option, none, some, List, [], ◌∷◌, ◌++◌, ltb,
  nat_eqb, if◌then◌else◌, comparable_string, comparable_nat, contains,
}
use metropulse.Prelude.Equality.{comparable_list, comparable_pair}
use metropulse.Gtfs.Text.{Text, Unicode, strip}
use metropulse.Gtfs.Date.{Date, parse_gtfs_date}
use metropulse.Static.Numbers.{int}
use metropulse.Static.Columns.{days_of_week, columns_of, has_columns}
use metropulse.Static.Rows.{
  RawRow, RawRows, Report, empty_value, duplicate, non_integer, invalid, out_of_range,
  end_precedes_start, issue, is_nonempty, get, report_if, check_rows,
}

abbrev pub is_some {ℓ} : {A : Type ℓ} → Option A → Bool
is_some none = false
is_some (some a) = true

-- end < start
unfoldable pub precedes : Date → Date → Bool
precedes a b =
    ltb a.year b.year
    || nat_eqb a.year b.year && (ltb a.month b.month || nat_eqb a.month b.month && ltb a.day b.day)

abbrev pub zero_text : Text
zero_text = b'0' ∷ []

abbrev pub one_text : Text
one_text = b'1' ∷ []

abbrev pub two_text : Text
two_text = b'2' ∷ []

-- `start is not None and end is not None and end < start`
unfoldable pub out_of_order : Option Date → Option Date → Bool
out_of_order (some start) (some end) = precedes end start
out_of_order _ _ = false

module _ (u : Unicode) where
  -- row.get(column, "").strip()
  unfoldable pub text : String → RawRow → Text
  text column row = strip u (get column row)

  unfoldable pub is_int : Text → Bool
  is_int value = is_some (int u (strip u value))

  unfoldable pub empty_values : String → ℕ → List String → RawRow → Report
  empty_values file i [] row = []
  empty_values file i (column ∷ columns) row =
      report_if (not (is_nonempty (text column row))) (issue file i (empty_value column))
      ++ empty_values file i columns row

  unfoldable pub agency_row : List Text → ℕ → RawRow → Report × List Text
  agency_row seen i row = (
    empty_values "agency.txt" i ("agency_name" ∷ "agency_url" ∷ "agency_timezone" ∷ []) row,
    seen,
  )

  unfoldable pub check_agency : RawRows → Report
  check_agency rows =
      if has_columns rows (columns_of "agency.txt") then (check_rows agency_row [] 2 rows).0 else []

  unfoldable pub route_row : List Text → ℕ → RawRow → Report × List Text
  route_row ids i row =
      let route_id = text "route_id" row in
      if not (is_nonempty route_id)
      then (issue "routes.txt" i (empty_value "route_id") ∷ [], ids)
      else (
        report_if (contains route_id ids) (issue "routes.txt" i (duplicate "route_id" route_id))
            ++ report_if (not (is_int (get "route_type" row)))
                (issue "routes.txt" i (non_integer "route_type" (get "route_type" row))),
        route_id ∷ ids,
      )

  unfoldable pub check_routes : RawRows → Report × List Text
  check_routes rows =
      if has_columns rows (columns_of "routes.txt")
      then check_rows route_row [] 2 rows
      else ([], [])

  -- `day`'s flag, `row.get(day, "").strip() not in ("0", "1")`
  unfoldable pub bad_days : ℕ → List String → RawRow → Report
  bad_days i [] row = []
  bad_days i (day ∷ days) row =
      report_if (not (contains (text day row) (zero_text ∷ one_text ∷ [])))
        (issue "calendar.txt" i (out_of_range day))
      ++ bad_days i days row

  unfoldable pub calendar_row : List Text → ℕ → RawRow → Report × List Text
  calendar_row ids i row =
      let service_id = text "service_id" row in
      let start = parse_gtfs_date u (get "start_date" row) in
      let end = parse_gtfs_date u (get "end_date" row) in
      if not (is_nonempty service_id)
      then (issue "calendar.txt" i (empty_value "service_id") ∷ [], ids)
      else (
        bad_days i days_of_week row
            ++ (report_if (not (is_some start))
                  (issue "calendar.txt" i (invalid "start_date" (get "start_date" row)))
                ++ (report_if (not (is_some end))
                      (issue "calendar.txt" i (invalid "end_date" (get "end_date" row)))
                    ++ report_if (out_of_order start end)
                        (issue "calendar.txt" i end_precedes_start))),
        service_id ∷ ids,
      )

  unfoldable pub calendar_date_row : List Text → ℕ → RawRow → Report × List Text
  calendar_date_row ids i row =
      let service_id = text "service_id" row in
      if not (is_nonempty service_id)
      then (issue "calendar_dates.txt" i (empty_value "service_id") ∷ [], ids)
      else (
        report_if (not (is_some (parse_gtfs_date u (get "date" row))))
              (issue "calendar_dates.txt" i (invalid "date" (get "date" row)))
            ++ report_if (not (contains (text "exception_type" row) (one_text ∷ two_text ∷ [])))
                (issue "calendar_dates.txt" i (out_of_range "exception_type")),
        service_id ∷ ids,
      )

  unfoldable pub check_calendar : RawRows → RawRows → Report × List Text
  check_calendar calendar_rows calendar_date_rows =
      let first =
        if has_columns calendar_rows (columns_of "calendar.txt")
        then check_rows calendar_row [] 2 calendar_rows
        else ([], []) in
      let second =
        if has_columns calendar_date_rows (columns_of "calendar_dates.txt")
        then check_rows calendar_date_row first.1 2 calendar_date_rows
        else ([], first.1) in
      (first.0 ++ second.0, second.1)
