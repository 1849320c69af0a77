-- ===== src/Static/Loader/Converts.antt =====
-- The conversion of a dataset without errors (src/metropulse/application/static_loader.py).
use metropulse.Prelude.{
  String, true, false, some, List, ◌++◌, ◌≡◌, refl, inl, inr, All, All-map, All-zip, Any,
  comparable_nat,
}
use metropulse.Prelude.Equality.{comparable_list}
use metropulse.Gtfs.Text.{Unicode}
use metropulse.Static.Numbers.{Float, int}
use metropulse.Static.Rows.{RawRow, RawDataset, has_errors, get, rows_of}
use metropulse.Static.Columns.{required_files, conditional_files, columns_of}
use metropulse.Static.Checks.{is_some, text}
use metropulse.Static.Validation.{validate_dataset}
use metropulse.Static.Tables.{StaticTables}
use metropulse.Static.Conversion.{
  convert, optional_by, agency_row_of, route_row_of, stop_row_of, calendar_row_of,
  calendar_date_row_of, shape_row_of, trip_row_of, stop_time_row_of, default_agency,
}
use metropulse.Static.Conversion.Beside.{convert_all-some}
use metropulse.Static.Conversion.Fields.{IsComplete, rows-IsComplete}
use metropulse.Static.Archive.Uniform.{HasHeader}
use metropulse.Static.Validation.Valid.{IsValidRoute, IsValidCalendar, IsValidCalendarDate}
use metropulse.Static.Validation.Known.{IsValidStopTime, IsValidStop, IsValidShape}
use metropulse.Static.Validation.Sound.{
  ids, columns-are_there, valid_routes, valid_stops, valid_shapes, valid_services,
}
use metropulse.Static.Validation.Sound.Trips.{valid_stop_times}
use metropulse.Static.Conversion.Converted.{
  converted-total, agency-by, route-by, calendar-by, calendar_date-by,
}
use metropulse.Static.Conversion.Keyed.{
  stop-by, shape-by, trip-by, stop_time-by, HasTripKeys, HasStopTimeKeys,
}

-- The numbers that may be left out, and that the validation does not look at, are read where they are
-- given.
abbrev pub HasReadableOptions : Unicode → Float → RawDataset → Type 0
HasReadableOptions u floats dataset =
    All (λ row. is_some (optional_by (int u) (get "location_type" row)) ≡ true)
      (rows_of "stops.txt" dataset)
    × (All (λ row. is_some (optional_by floats.float (get "shape_dist_traveled" row)) ≡ true)
          (rows_of "shapes.txt" dataset)
        × (All (λ row. is_some (optional_by (int u) (get "direction_id" row)) ≡ true)
              (rows_of "trips.txt" dataset)
            × All (λ row. is_some (optional_by floats.float (get "shape_dist_traveled" row)) ≡ true)
                (rows_of "stop_times.txt" dataset)))

module _ (u : Unicode) (floats : Float) (dataset : RawDataset)
    (header : (filename : String) → HasHeader u (rows_of filename dataset))
    (no_error : has_errors (validate_dataset u floats dataset) ≡ false) where
  pub complete :
      (filename : String) (columns : List String)
      → Any (λ file. file ≡ (filename, columns)) (required_files ++ conditional_files)
      → All (IsComplete u columns) (rows_of filename dataset)
  complete filename columns p =
      rows-IsComplete u columns (rows_of filename dataset) (header filename)
        (elim (columns-are_there u floats dataset no_error filename columns p) [
          | inl a ↦ inl a.1
          | inr h ↦ inr h
        ])

  abbrev pub Both : (RawRow → Type 0) → (RawRow → Type 0) → RawRow → Type 0
  Both P Q row = P row × Q row

  both :
      (P Q : RawRow → Type 0) (filename : String)
      → All P (rows_of filename dataset)
      → All Q (rows_of filename dataset)
      → All (Both P Q) (rows_of filename dataset)
  both P Q filename p q = All-zip P Q (Both P Q) (λ row x y. (x, y)) (rows_of filename dataset) p q

  abbrev pub Routes : RawRow → Type 0
  Routes = Both (IsComplete u (columns_of "routes.txt")) (IsValidRoute u)

  abbrev pub Stops : RawRow → Type 0
  Stops = Both (IsComplete u (columns_of "stops.txt")) (IsValidStop u floats)

  abbrev pub Calendars : RawRow → Type 0
  Calendars = Both (IsComplete u (columns_of "calendar.txt")) (IsValidCalendar u)

  abbrev pub CalendarDates : RawRow → Type 0
  CalendarDates = Both (IsComplete u (columns_of "calendar_dates.txt")) (IsValidCalendarDate u)

  abbrev pub StopTimes : RawRow → Type 0
  StopTimes = Both (IsComplete u (columns_of "stop_times.txt")) (
      IsValidStopTime u (ids u floats dataset "trips.txt" "trip_id")
        (ids u floats dataset "stops.txt" "stop_id"))

  pub routes : All Routes (rows_of "routes.txt" dataset)
  routes =
      both _ _ "routes.txt" (complete "routes.txt" _ (inr (inl refl)))
        (valid_routes u floats dataset no_error).1.0

  pub stops : All Stops (rows_of "stops.txt" dataset)
  stops =
      both _ _ "stops.txt" (complete "stops.txt" _ (inr (inr (inr (inl refl)))))
        (valid_stops u floats dataset no_error).1.0

  pub calendars : All Calendars (rows_of "calendar.txt" dataset)
  calendars =
      both _ _ "calendar.txt" (complete "calendar.txt" _ (inr (inr (inr (inr (inr (inl refl)))))))
        (valid_services u floats dataset no_error).0

  pub calendar_dates : All CalendarDates (rows_of "calendar_dates.txt" dataset)
  calendar_dates =
      both _ _ "calendar_dates.txt"
        (complete "calendar_dates.txt" _ (inr (inr (inr (inr (inr (inr (inl refl))))))))
        (valid_services u floats dataset no_error).1.0

  pub trips : All (IsComplete u (columns_of "trips.txt")) (rows_of "trips.txt" dataset)
  trips = complete "trips.txt" _ (inr (inr (inl refl)))

  pub shapes :
      All
        (Both (IsComplete u (columns_of "shapes.txt")) (IsValidShape u floats))
        (rows_of "shapes.txt" dataset)
  shapes =
      both _ _ "shapes.txt"
        (complete "shapes.txt" _ (inr (inr (inr (inr (inr (inr (inr (inl refl)))))))))
        (valid_shapes u floats dataset no_error)

  pub stop_times : All StopTimes (rows_of "stop_times.txt" dataset)
  stop_times =
      both _ _ "stop_times.txt" (complete "stop_times.txt" _ (inr (inr (inr (inr (inl refl))))))
        (valid_stop_times u floats dataset no_error).1

  pub convert-total :
      HasReadableOptions u floats dataset
      → (tables : StaticTables floats.Num) × (convert u floats dataset ≡ some tables)
  unfolding convert
  convert-total (locations, (shape_distances, (directions, distances))) =
      let default = default_agency u (rows_of "agency.txt" dataset) in
      let (a, e1) = convert_all-some (agency_row_of u) (rows_of "agency.txt" dataset) (
        All-map _ _
          (λ row c. converted-total (agency_row_of u) _ (λ r. Unit) row (agency-by u row c) refl) _
          (complete "agency.txt" _ (inl refl))) in
      let (b, e2) = convert_all-some (route_row_of u default) (rows_of "routes.txt" dataset) (
        All-map _ _
          (λ row v.
            converted-total (route_row_of u default) _ (λ r. r.route_id ≡ text u "route_id" row) row
              (route-by u default row v.0 v.1) refl)
          _ routes) in
      let (c, e3) = convert_all-some (stop_row_of u floats) (rows_of "stops.txt" dataset) (
        All-zip _ _ _
          (λ row v o.
            converted-total (stop_row_of u floats) _ (λ r. r.stop_id ≡ text u "stop_id" row) row
              (stop-by u floats row v.0 v.1) o)
          _ stops locations) in
      let (d, e4) = convert_all-some (calendar_row_of u) (rows_of "calendar.txt" dataset) (
        All-map _ _
          (λ row v.
            converted-total (calendar_row_of u) _ (λ r. r.service_id ≡ text u "service_id" row) row
              (calendar-by u row v.0 v.1) refl)
          _ calendars) in
      let (e, e5) =
        convert_all-some (calendar_date_row_of u) (rows_of "calendar_dates.txt" dataset) (
          All-map _ _
            (λ row v.
              converted-total (calendar_date_row_of u) _
                (λ r. r.service_id ≡ text u "service_id" row) row (calendar_date-by u row v.0 v.1)
                refl)
            _ calendar_dates) in
      let (f, e6) = convert_all-some (shape_row_of u floats) (rows_of "shapes.txt" dataset) (
        All-zip _ _ _
          (λ row v o.
            converted-total (shape_row_of u floats) _ (λ r. Unit) row
              (shape-by u floats row v.0 v.1) o)
          _ shapes shape_distances) in
      let (g, e7) = convert_all-some (trip_row_of u) (rows_of "trips.txt" dataset) (
        All-zip _ _ _
          (λ row v o. converted-total (trip_row_of u) _ (HasTripKeys u row) row (trip-by u row v) o)
          _ trips directions) in
      let (h, e8) =
        convert_all-some (stop_time_row_of u floats) (rows_of "stop_times.txt" dataset) (
          All-zip _ _ _
            (λ row v o.
              converted-total (stop_time_row_of u floats) _ (HasStopTimeKeys u floats row) row
                (stop_time-by u floats (ids u floats dataset "trips.txt" "trip_id")
                  (ids u floats dataset "stops.txt" "stop_id") row v.0 v.1)
                o)
            _ stop_times distances) in
      (
        record {
          agencies = a;
          routes = b;
          stops = c;
          calendar = d;
          calendar_dates = e;
          shapes = f;
          trips = g;
          stop_times = h;
        },
        rw (e1, e2, e3, e4, e5, e6, e7, e8) refl,
      )
