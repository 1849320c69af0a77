-- ===== src/Static/Validation/Sound.antt =====
-- What a dataset satisfies if `validate_dataset` reports no error.
pub mod Files
pub mod Trips
use metropulse.Prelude.{
  ℕ, String, Bool, true, false, not, ◌&&◌, ◌||◌, Option, none, some, List, [], ◌∷◌, ◌++◌, map, ◌≡◌,
  refl, sym, ap, subst, ◌∙◌, ◌⊎◌, inl, inr, contains, Distinct, All, All-map, Any, comparable_nat,
  comparable_string, if◌then◌else◌, Bool-cases, Option-cases, arith, or_false, equal_refl, not_both,
  or_left, or_right,
}
use metropulse.Prelude.Equality.{comparable_list, comparable_pair}
use metropulse.Prelude.Dict.{keys, lookup, has_key, has_key-eq-contains}
use metropulse.Gtfs.Text.{Text, Unicode}
use metropulse.Static.Numbers.{Float}
use metropulse.Static.Columns.{
  required_files, conditional_files, columns_of, check_presence, check_files, check_columns,
  missing_columns, missing_files, all_in, has_columns,
}
use metropulse.Static.Rows.{
  RawRow, RawRows, RawDataset, Report, has_errors, errors, file_issue, rows_of, is_nonempty,
  report_if, check_rows,
}
use metropulse.Static.Rows.Loops.{no_errors, check_rows_sound, keyed_rows}
use metropulse.Static.Checks.{
  text, route_row, check_routes, check_agency, calendar_row, calendar_date_row, check_calendar,
}
use metropulse.Static.Validation.{
  trip_row, check_trips, stop_time_row, check_stop_times, stop_row, check_stops, shape_row,
  check_shapes, validate_dataset,
}
use metropulse.Static.Validation.Quiet.{quiet_file, not-false, checked}
use metropulse.Static.Validation.Sound.Files.{
  IsAbsentOrHas, check_files-columns, check_presence-calendar,
}
use metropulse.Static.Validation.Valid.{
  IsValidRoute, IsValidCalendar, IsValidCalendarDate, route_row-checked, calendar_row-checked,
  calendar_date_row-checked,
}
use metropulse.Static.Validation.Known.{
  IsValidTrip, IsValidStopTime, IsValidStop, IsValidShape, sequence_key, trip_row-checked,
  stop_time_row-checked, stop_row-checked, shape_row-checked,
}

module _ (u : Unicode) (floats : Float) (dataset : RawDataset) where
  abbrev pub rows : String → RawRows
  rows filename = rows_of filename dataset

  abbrev pub services : Report × List Text
  services = check_calendar u (rows "calendar.txt") (rows "calendar_dates.txt")

  abbrev pub trips : Report × List Text
  trips =
      check_trips u (rows "trips.txt") (check_routes u (rows "routes.txt")).1 services.1
        (check_shapes u floats (rows "shapes.txt")).1

  -- the identifiers of a file
  abbrev pub ids : String → String → List Text
  ids filename column = map (text u column) (rows filename)

  module _ (no_error : has_errors (validate_dataset u floats dataset) ≡ false) where
    pub reports :
        (has_errors (check_presence dataset) ≡ false)
        × ((has_errors (check_files (required_files ++ conditional_files) dataset) ≡ false)
            × ((has_errors (check_routes u (rows "routes.txt")).0 ≡ false)
                × ((has_errors (check_stops u floats (rows "stops.txt")).0 ≡ false)
                    × ((has_errors services.0 ≡ false)
                        × ((has_errors (check_shapes u floats (rows "shapes.txt")).0 ≡ false)
                            × ((has_errors trips.0 ≡ false)
                                × (has_errors (
                                      check_stop_times u
                                        (rows "stop_times.txt")
                                        trips.1
                                        (check_stops u floats (rows "stops.txt")).1)
                                    ≡ false)))))))
    unfolding validate_dataset
    reports =
        let (presence, h1) = no_errors (check_presence dataset) _ no_error in
        let (files, h2) =
          no_errors (check_files (required_files ++ conditional_files) dataset) _ h1 in
        let (agency, h3) = no_errors (check_agency u (rows "agency.txt")) _ h2 in
        let (routes, h4) = no_errors (check_routes u (rows "routes.txt")).0 _ h3 in
        let (stops, h5) = no_errors (check_stops u floats (rows "stops.txt")).0 _ h4 in
        let (calendar, h6) = no_errors services.0 _ h5 in
        let (shapes, h7) = no_errors (check_shapes u floats (rows "shapes.txt")).0 _ h6 in
        let (trip, times) = no_errors trips.0 _ h7 in
        (presence, (files, (routes, (stops, (calendar, (shapes, (trip, times)))))))

    pub columns-are_there :
        (filename : String) (columns : List String)
        → Any (λ file. file ≡ (filename, columns)) (required_files ++ conditional_files)
        → IsAbsentOrHas dataset filename columns
    columns-are_there filename columns p =
        check_files-columns _ dataset filename columns reports.1.0 p

    pub absent_or :
        (filename : String) (columns : List String)
        → Any (λ file. file ≡ (filename, columns)) (required_files ++ conditional_files)
        → (rows filename ≡ []) ⊎ (has_columns (rows filename) columns ≡ true)
    absent_or filename columns p = elim (columns-are_there filename columns p) [
      | inl a ↦ inl a.1
      | inr h ↦ inr h
    ]

    routes-checked :
        check_routes u (rows "routes.txt") ≡ check_rows (route_row u) [] 2 (rows "routes.txt")
    unfolding check_routes
    routes-checked =
        checked (route_row u) _ [] (rows "routes.txt") (absent_or "routes.txt" _ (inr (inl refl)))

    stops-checked :
        check_stops u floats (rows "stops.txt")
        ≡ check_rows (stop_row u floats) [] 2 (rows "stops.txt")
    unfolding check_stops
    stops-checked =
        checked (stop_row u floats) _ [] (rows "stops.txt")
          (absent_or "stops.txt" _ (inr (inr (inr (inl refl)))))

    shapes-checked :
        check_shapes u floats (rows "shapes.txt")
        ≡ check_rows (shape_row u floats) [] 2 (rows "shapes.txt")
    unfolding check_shapes
    shapes-checked =
        checked (shape_row u floats) _ [] (rows "shapes.txt")
          (absent_or "shapes.txt" _ (inr (inr (inr (inr (inr (inr (inr (inl refl)))))))))

    abbrev pub trip_step : List Text → ℕ → RawRow → Report × List Text
    trip_step =
        trip_row u (check_routes u (rows "routes.txt")).1 services.1
          (check_shapes u floats (rows "shapes.txt")).1

    pub trips-checked : trips ≡ check_rows trip_step [] 2 (rows "trips.txt")
    unfolding check_trips
    trips-checked =
        checked trip_step _ [] (rows "trips.txt") (absent_or "trips.txt" _ (inr (inr (inl refl))))

    pub valid_routes :
        Distinct (ids "routes.txt" "route_id")
        × (All (IsValidRoute u) (rows "routes.txt")
            × ((a : Text)
                → contains a (check_routes u (rows "routes.txt")).1
                  ≡ contains a (ids "routes.txt" "route_id")))
    valid_routes =
        keyed_rows (text u "route_id") (IsValidRoute u) (route_row u) (route_row-checked u) _
          (rows "routes.txt") routes-checked reports.1.1.0

    pub valid_stops :
        Distinct (ids "stops.txt" "stop_id")
        × (All (IsValidStop u floats) (rows "stops.txt")
            × ((a : Text)
                → contains a (check_stops u floats (rows "stops.txt")).1
                  ≡ contains a (ids "stops.txt" "stop_id")))
    valid_stops =
        keyed_rows (text u "stop_id") (IsValidStop u floats) (stop_row u floats)
          (stop_row-checked u floats) _ (rows "stops.txt") stops-checked reports.1.1.1.0

    pub valid_shapes : All (IsValidShape u floats) (rows "shapes.txt")
    valid_shapes =
        (check_rows_sound (text u "shape_id") (IsValidShape u floats) (shape_row u floats)
          (shape_row-checked u floats) [] 2 (rows "shapes.txt")
          (sym (ap (λ (r : Report × List Text). has_errors r.0) shapes-checked)
            ∙ reports.1.1.1.1.1.0)).0

    -- the two loops of `_check_calendar`
    abbrev calendars : Report × List Text
    calendars =
        if has_columns (rows "calendar.txt") (columns_of "calendar.txt")
        then check_rows (calendar_row u) [] 2 (rows "calendar.txt")
        else ([], [])

    abbrev calendar_dates : List Text → Report × List Text
    calendar_dates seen =
        if has_columns (rows "calendar_dates.txt") (columns_of "calendar_dates.txt")
        then check_rows (calendar_date_row u) seen 2 (rows "calendar_dates.txt")
        else ([], seen)

    calendars-checked : calendars ≡ check_rows (calendar_row u) [] 2 (rows "calendar.txt")
    calendars-checked =
        checked (calendar_row u) _ [] (rows "calendar.txt")
          (absent_or "calendar.txt" _ (inr (inr (inr (inr (inr (inl refl)))))))

    calendar_dates-checked :
        (seen : List Text)
        → calendar_dates seen ≡ check_rows (calendar_date_row u) seen 2 (rows "calendar_dates.txt")
    calendar_dates-checked seen =
        checked (calendar_date_row u) _ seen (rows "calendar_dates.txt")
          (absent_or "calendar_dates.txt" _ (inr (inr (inr (inr (inr (inr (inl refl))))))))

    nothing : (b : Bool) → (b || false) ≡ b
    nothing b = ground arith

    -- the services of the two calendar files
    pub valid_services :
        All (IsValidCalendar u) (rows "calendar.txt")
        × (All (IsValidCalendarDate u) (rows "calendar_dates.txt")
            × ((a : Text)
                → contains a services.1 ≡ (
                    contains a (ids "calendar_dates.txt" "service_id")
                    || contains a (ids "calendar.txt" "service_id"))))
    unfolding check_calendar
    valid_services =
        let (quiet_one, quiet_two) =
          no_errors calendars.0 (calendar_dates calendars.1).0 reports.1.1.1.1.0 in
        let (valid, known) =
          check_rows_sound (text u "service_id") (IsValidCalendar u) (calendar_row u)
            (calendar_row-checked u) [] 2 (rows "calendar.txt")
            (sym (ap (λ (r : Report × List Text). has_errors r.0) calendars-checked) ∙ quiet_one) in
        let (valid_dates, known_dates) =
          check_rows_sound (text u "service_id") (IsValidCalendarDate u) (calendar_date_row u)
            (calendar_date_row-checked u) calendars.1 2 (rows "calendar_dates.txt")
            (sym (
                ap (λ (r : Report × List Text). has_errors r.0)
                  (calendar_dates-checked calendars.1))
              ∙ quiet_two) in
        (
          valid,
          (
            valid_dates,
            λ a.
                ap (λ (r : Report × List Text). contains a r.1) (calendar_dates-checked calendars.1)
                ∙ known_dates a
                ∙ ap (λ (b : Bool). contains a (ids "calendar_dates.txt" "service_id") || b)
                    (ap (λ (r : Report × List Text). contains a r.1) calendars-checked
                      ∙ known a
                      ∙ nothing _),
          ),
        )
