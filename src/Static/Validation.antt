-- ===== src/Static/Validation.antt =====
-- src/metropulse/application/validation.py: the checks of trips, stop times, stops and shapes, and
-- the whole validation.
pub mod Quiet
pub mod Valid
pub mod Known
pub mod Sound
use metropulse.Prelude.{
  ℕ, Bool, false, not, ◌&&◌, Option, none, some, List, [], ◌∷◌, ◌++◌, ltb, if◌then◌else◌,
  comparable_string, comparable_nat, contains,
}
use metropulse.Prelude.Equality.{comparable_list, comparable_pair}
use metropulse.Prelude.Int.{pos, negsuc}
use metropulse.Gtfs.Text.{Text, Unicode, strip}
use metropulse.Gtfs.Time.{parse_gtfs_time}
use metropulse.Static.Numbers.{Float}
use metropulse.Static.Columns.{
  required_files, conditional_files, columns_of, check_presence, check_files, has_columns,
}
use metropulse.Static.Rows.{
  RawRow, RawRows, RawDataset, Report, warning, empty_value, duplicate, non_integer, invalid,
  unknown, departure_precedes_arrival, issue, is_nonempty, get, rows_of, report_if, check_rows,
}
use metropulse.Static.Checks.{is_some, is_int, text, check_agency, check_routes, check_calendar}

-- `arrival is not None and departure is not None and departure < arrival`
unfoldable pub leaves_early : Option ℕ → Option ℕ → Bool
leaves_early (some arrival) (some departure) = ltb departure arrival
leaves_early _ _ = false

module _ (u : Unicode) where
  unfoldable pub trip_row :
      List Text → List Text → List Text → List Text → ℕ → RawRow → Report × List Text
  trip_row route_ids service_ids shape_ids ids i row =
      let trip_id = text u "trip_id" row in
      let shape_id = text u "shape_id" row in
      if not (is_nonempty trip_id)
      then (issue "trips.txt" i (empty_value "trip_id") ∷ [], ids)
      else (
        report_if (contains trip_id ids) (issue "trips.txt" i (duplicate "trip_id" trip_id))
            ++ (report_if (not (contains (text u "route_id" row) route_ids))
                  (issue "trips.txt" i (unknown "route_id" (get "route_id" row)))
                ++ (report_if
                      (is_nonempty service_ids
                        && not (contains (text u "service_id" row) service_ids))
                      (issue "trips.txt" i (unknown "service_id" (get "service_id" row)))
                    ++ report_if
                        (is_nonempty shape_id
                          && (is_nonempty shape_ids && not (contains shape_id shape_ids)))
                        (record {
                          file = "trips.txt";
                          row = some i;
                          reason = unknown "shape_id" shape_id;
                          severity = warning;
                        }))),
        trip_id ∷ ids,
      )

  unfoldable pub check_trips : RawRows → List Text → List Text → List Text → Report × List Text
  check_trips rows route_ids service_ids shape_ids =
      if has_columns rows (columns_of "trips.txt")
      then check_rows (trip_row route_ids service_ids shape_ids) [] 2 rows
      else ([], [])

  -- the branches on `sequence`: what they report, and `seen`
  unfoldable pub sequence_seen : List (Text × Text) → ℕ → Text → Text → Report × List (Text × Text)
  sequence_seen seen i trip_id sequence =
      if not (is_int u sequence)
      then (issue "stop_times.txt" i (non_integer "stop_sequence" sequence) ∷ [], seen)
      else if contains (trip_id, sequence) seen
      then (issue "stop_times.txt" i (duplicate "stop_sequence" sequence) ∷ [], seen)
      else ([], (trip_id, sequence) ∷ seen)

  unfoldable pub stop_time_row :
      List Text → List Text → List (Text × Text) → ℕ → RawRow → Report × List (Text × Text)
  stop_time_row trip_ids stop_ids seen i row =
      let trip_id = text u "trip_id" row in
      let here = sequence_seen seen i trip_id (text u "stop_sequence" row) in
      let arrival = parse_gtfs_time u (get "arrival_time" row) in
      let departure = parse_gtfs_time u (get "departure_time" row) in
      (
        report_if (not (contains trip_id trip_ids))
              (issue "stop_times.txt" i (unknown "trip_id" trip_id))
            ++ (report_if (not (contains (text u "stop_id" row) stop_ids))
                  (issue "stop_times.txt" i (unknown "stop_id" (get "stop_id" row)))
                ++ (here.0
                    ++ (report_if (not (is_some arrival)) (
                          issue "stop_times.txt" i
                            (invalid "arrival_time" (get "arrival_time" row)))
                        ++ (report_if (not (is_some departure)) (
                              issue "stop_times.txt" i
                                (invalid "departure_time" (get "departure_time" row)))
                            ++ report_if (leaves_early arrival departure)
                                (issue "stop_times.txt" i departure_precedes_arrival))))),
        here.1,
      )

  unfoldable pub check_stop_times : RawRows → List Text → List Text → Report
  check_stop_times rows trip_ids stop_ids =
      if has_columns rows (columns_of "stop_times.txt")
      then (check_rows (stop_time_row trip_ids stop_ids) [] 2 rows).0
      else []

  module _ (floats : Float) where
    open floats use {Num, float, at_most, of_int}

    abbrev pub within : Num → Num → Option Num → Bool
    within low high none = false
    within low high (some x) = at_most low x && at_most x high

    unfoldable pub as_float : Text → Option Num
    as_float value = float (strip u value)

    unfoldable pub stop_row : List Text → ℕ → RawRow → Report × List Text
    stop_row ids i row =
        let stop_id = text u "stop_id" row in
        if not (is_nonempty stop_id)
        then (issue "stops.txt" i (empty_value "stop_id") ∷ [], ids)
        else (
          report_if (contains stop_id ids) (issue "stops.txt" i (duplicate "stop_id" stop_id))
              ++ (report_if
                    (not (
                      within (of_int (negsuc 89)) (of_int (pos 90))
                        (as_float (get "stop_lat" row))))
                    (issue "stops.txt" i (invalid "stop_lat" (get "stop_lat" row)))
                  ++ report_if
                      (not (
                        within (of_int (negsuc 179)) (of_int (pos 180))
                          (as_float (get "stop_lon" row))))
                      (issue "stops.txt" i (invalid "stop_lon" (get "stop_lon" row)))),
          stop_id ∷ ids,
        )

    unfoldable pub check_stops : RawRows → Report × List Text
    check_stops rows =
        if has_columns rows (columns_of "stops.txt")
        then check_rows stop_row [] 2 rows
        else ([], [])

    unfoldable pub shape_row : List Text → ℕ → RawRow → Report × List Text
    shape_row ids i row =
        let shape_id = text u "shape_id" row in
        if not (is_nonempty shape_id)
        then (issue "shapes.txt" i (empty_value "shape_id") ∷ [], ids)
        else (
          report_if (not (is_some (as_float (get "shape_pt_lat" row))))
                (issue "shapes.txt" i (invalid "shape_pt_lat" (get "shape_pt_lat" row)))
              ++ (report_if (not (is_some (as_float (get "shape_pt_lon" row))))
                    (issue "shapes.txt" i (invalid "shape_pt_lon" (get "shape_pt_lon" row)))
                  ++ report_if (not (is_int u (get "shape_pt_sequence" row))) (
                      issue "shapes.txt" i
                        (non_integer "shape_pt_sequence" (get "shape_pt_sequence" row)))),
          shape_id ∷ ids,
        )

    unfoldable pub check_shapes : RawRows → Report × List Text
    check_shapes rows =
        if has_columns rows (columns_of "shapes.txt")
        then check_rows shape_row [] 2 rows
        else ([], [])

    unfoldable pub validate_dataset : RawDataset → Report
    validate_dataset dataset =
        let routes = check_routes u (rows_of "routes.txt" dataset) in
        let stops = check_stops (rows_of "stops.txt" dataset) in
        let services =
          check_calendar u (rows_of "calendar.txt" dataset)
            (rows_of "calendar_dates.txt" dataset) in
        let shapes = check_shapes (rows_of "shapes.txt" dataset) in
        let trips = check_trips (rows_of "trips.txt" dataset) routes.1 services.1 shapes.1 in
        check_presence dataset
        ++ (check_files (required_files ++ conditional_files) dataset
            ++ (check_agency u (rows_of "agency.txt" dataset)
                ++ (routes.0
                    ++ (stops.0
                        ++ (services.0
                            ++ (shapes.0
                                ++ (trips.0
                                    ++ check_stop_times (rows_of "stop_times.txt" dataset) trips.1
                                        stops.1)))))))
