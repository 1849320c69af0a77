-- ===== src/Static/Loader/Consistent.antt =====
-- What the tables that a load makes refer to (src/metropulse/application/static_loader.py).
use metropulse.Prelude.{
  String, true, false, ◌||◌, ◌≤◌, some, List, ◌++◌, map, ◌≡◌, ap, ◌∙◌, contains, contains-append,
  Distinct, All, bind_some, comparable_nat,
}
use mathlib.Core.Option.{some-injective}
use metropulse.Prelude.Equality.{comparable_list}
use metropulse.Gtfs.Text.{Text, Unicode}
use metropulse.Static.Numbers.{Float}
use metropulse.Static.Rows.{RawDataset, has_errors, rows_of}
use metropulse.Static.Archive.Uniform.{HasHeader}
use metropulse.Static.Checks.{text}
use metropulse.Static.Validation.{validate_dataset}
use metropulse.Static.Validation.Sound.{ids, valid_routes, valid_stops}
use metropulse.Static.Validation.Sound.Trips.{valid_trips, HasRouteAndService}
use metropulse.Static.Tables.{
  StaticTables, RouteRow, StopRow, TripRow, StopTimeRow, CalendarRow, CalendarDateRow,
}
use metropulse.Static.Conversion.{
  convert, convert_all, default_agency, agency_row_of, shape_row_of, route_row_of, stop_row_of,
  calendar_row_of, calendar_date_row_of, trip_row_of, stop_time_row_of,
}
use metropulse.Static.Conversion.Converted.{
  converted-related, route-by, calendar-by, calendar_date-by,
}
use metropulse.Static.Conversion.Keyed.{
  stop-by, trip-by, stop_time-by, HasTripKeys, HasStopTimeKeys,
}
use metropulse.Static.Conversion.Fields.{IsComplete}
use metropulse.Static.Columns.{columns_of}
use metropulse.Static.Conversion.Beside.{Beside, convert_all-Beside, Beside-map, Beside-All}
use metropulse.Static.Loader.Converts.{
  Routes, Stops, Calendars, CalendarDates, StopTimes, routes, stops, calendars, calendar_dates,
  trips, stop_times,
}

module _ {Num : Type 0} where
  abbrev pub route_ids : StaticTables Num → List Text
  route_ids tables = map (λ (r : RouteRow). r.route_id) tables.routes

  abbrev pub stop_ids : StaticTables Num → List Text
  stop_ids tables = map (λ (r : StopRow Num). r.stop_id) tables.stops

  abbrev pub trip_ids : StaticTables Num → List Text
  trip_ids tables = map (λ (r : TripRow). r.trip_id) tables.trips

  -- the services of the two calendars
  abbrev pub service_ids : StaticTables Num → List Text
  service_ids tables =
      map (λ (r : CalendarDateRow). r.service_id) tables.calendar_dates
      ++ map (λ (r : CalendarRow). r.service_id) tables.calendar

  -- No route, stop or trip is there twice; every trip is on a route and in a service; every stop time
  -- is at a stop on a trip, and its departure is not before its arrival.
  abbrev pub IsConsistent : StaticTables Num → Type 0
  IsConsistent tables =
      (Distinct (route_ids tables) × (Distinct (stop_ids tables) × Distinct (trip_ids tables)))
      × (All
            (λ (r : TripRow).
              (contains r.route_id (route_ids tables) ≡ true)
              × (contains r.service_id (service_ids tables) ≡ true))
            tables.trips
          × All
              (λ (r : StopTimeRow Num).
                (contains r.trip_id (trip_ids tables) ≡ true)
                × ((contains r.stop_id (stop_ids tables) ≡ true)
                    × (r.arrival_seconds ≤ r.departure_seconds)))
              tables.stop_times)

module _ (u : Unicode) (floats : Float) (dataset : RawDataset)
    (header : (filename : String) → HasHeader u (rows_of filename dataset))
    (no_error : has_errors (validate_dataset u floats dataset) ≡ false)
    (tables : StaticTables floats.Num) (made : convert u floats dataset ≡ some tables) where
  -- The lists of the tables are the rows of the files, converted.
  convert-parts :
      (convert_all
          (route_row_of u (default_agency u (rows_of "agency.txt" dataset)))
          (rows_of "routes.txt" dataset)
        ≡ some tables.routes)
      × ((convert_all (stop_row_of u floats) (rows_of "stops.txt" dataset) ≡ some tables.stops)
          × ((convert_all (calendar_row_of u) (rows_of "calendar.txt" dataset)
                ≡ some tables.calendar)
              × ((convert_all (calendar_date_row_of u) (rows_of "calendar_dates.txt" dataset)
                    ≡ some tables.calendar_dates)
                  × ((convert_all (trip_row_of u) (rows_of "trips.txt" dataset) ≡ some tables.trips)
                      × (convert_all (stop_time_row_of u floats) (rows_of "stop_times.txt" dataset)
                          ≡ some tables.stop_times)))))
  unfolding convert
  convert-parts =
      let (a, e1, h1) =
        bind_some (convert_all (agency_row_of u) (rows_of "agency.txt" dataset)) _ tables made in
      let (b, e2, h2) =
        bind_some
          (convert_all (route_row_of u (default_agency u (rows_of "agency.txt" dataset)))
            (rows_of "routes.txt" dataset))
          _ tables h1 in
      let (c, e3, h3) =
        bind_some (convert_all (stop_row_of u floats) (rows_of "stops.txt" dataset)) _ tables h2 in
      let (d, e4, h4) =
        bind_some (convert_all (calendar_row_of u) (rows_of "calendar.txt" dataset)) _ tables h3 in
      let (e, e5, h5) =
        bind_some (convert_all (calendar_date_row_of u) (rows_of "calendar_dates.txt" dataset)) _
          tables h4 in
      let (f, e6, h6) =
        bind_some (convert_all (shape_row_of u floats) (rows_of "shapes.txt" dataset)) _ tables
          h5 in
      let (g, e7, h7) =
        bind_some (convert_all (trip_row_of u) (rows_of "trips.txt" dataset)) _ tables h6 in
      let (t, e8, h8) =
        bind_some (convert_all (stop_time_row_of u floats) (rows_of "stop_times.txt" dataset)) _
          tables h7 in
      let same = some-injective _ _ h8 in
      (
        e2 ∙ ap (λ (x : StaticTables floats.Num). some x.routes) same,
        (
          e3 ∙ ap (λ (x : StaticTables floats.Num). some x.stops) same,
          (
            e4 ∙ ap (λ (x : StaticTables floats.Num). some x.calendar) same,
            (
              e5 ∙ ap (λ (x : StaticTables floats.Num). some x.calendar_dates) same,
              (
                e7 ∙ ap (λ (x : StaticTables floats.Num). some x.trips) same,
                e8 ∙ ap (λ (x : StaticTables floats.Num). some x.stop_times) same,
              ),
            ),
          ),
        ),
      )

  route_ids-eq : route_ids tables ≡ ids u floats dataset "routes.txt" "route_id"
  route_ids-eq =
      let default = default_agency u (rows_of "agency.txt" dataset) in
      Beside-map (route_row_of u default) (λ (r : RouteRow). r.route_id) (text u "route_id")
        (λ row r. r.route_id ≡ text u "route_id" row) (λ row r h. h) _ _
        (convert_all-Beside (route_row_of u default) (Routes u floats dataset header no_error)
          (λ row r. r.route_id ≡ text u "route_id" row)
          (λ row v.
            converted-related (route_row_of u default) _ _ row (route-by u default row v.0 v.1))
          _ tables.routes (routes u floats dataset header no_error) convert-parts.0)

  stop_ids-eq : stop_ids tables ≡ ids u floats dataset "stops.txt" "stop_id"
  stop_ids-eq =
      Beside-map (stop_row_of u floats) (λ (r : StopRow floats.Num). r.stop_id) (text u "stop_id")
        (λ row r. r.stop_id ≡ text u "stop_id" row) (λ row r h. h) _ _
        (convert_all-Beside (stop_row_of u floats) (Stops u floats dataset header no_error)
          (λ row r. r.stop_id ≡ text u "stop_id" row)
          (λ row v. converted-related (stop_row_of u floats) _ _ row (stop-by u floats row v.0 v.1))
          _ tables.stops (stops u floats dataset header no_error) convert-parts.1.0)

  calendar_ids-eq :
      map (λ (r : CalendarRow). r.service_id) tables.calendar
      ≡ ids u floats dataset "calendar.txt" "service_id"
  calendar_ids-eq =
      Beside-map (calendar_row_of u) (λ (r : CalendarRow). r.service_id) (text u "service_id")
        (λ row r. r.service_id ≡ text u "service_id" row) (λ row r h. h) _ _
        (convert_all-Beside (calendar_row_of u) (Calendars u floats dataset header no_error)
          (λ row r. r.service_id ≡ text u "service_id" row)
          (λ row v. converted-related (calendar_row_of u) _ _ row (calendar-by u row v.0 v.1)) _
          tables.calendar (calendars u floats dataset header no_error) convert-parts.1.1.0)

  calendar_date_ids-eq :
      map (λ (r : CalendarDateRow). r.service_id) tables.calendar_dates
      ≡ ids u floats dataset "calendar_dates.txt" "service_id"
  calendar_date_ids-eq =
      Beside-map (calendar_date_row_of u) (λ (r : CalendarDateRow). r.service_id)
        (text u "service_id") (λ row r. r.service_id ≡ text u "service_id" row) (λ row r h. h) _ _
        (convert_all-Beside (calendar_date_row_of u)
          (CalendarDates u floats dataset header no_error)
          (λ row r. r.service_id ≡ text u "service_id" row)
          (λ row v.
            converted-related (calendar_date_row_of u) _ _ row (calendar_date-by u row v.0 v.1))
          _ tables.calendar_dates (calendar_dates u floats dataset header no_error)
          convert-parts.1.1.1.0)

  trips-Beside : Beside (trip_row_of u) (HasTripKeys u) (rows_of "trips.txt" dataset) tables.trips
  trips-Beside =
      convert_all-Beside (trip_row_of u) (IsComplete u (columns_of "trips.txt")) (HasTripKeys u)
        (λ row v. converted-related (trip_row_of u) _ (HasTripKeys u row) row (trip-by u row v)) _
        tables.trips (trips u floats dataset header no_error) convert-parts.1.1.1.1.0

  trip_ids-eq : trip_ids tables ≡ ids u floats dataset "trips.txt" "trip_id"
  trip_ids-eq =
      Beside-map (trip_row_of u) (λ (r : TripRow). r.trip_id) (text u "trip_id") (HasTripKeys u)
        (λ row r h. h.0) _ _ trips-Beside

  stop_times-Beside :
      Beside
        (stop_time_row_of u floats)
        (HasStopTimeKeys u floats)
        (rows_of "stop_times.txt" dataset)
        tables.stop_times
  stop_times-Beside =
      convert_all-Beside (stop_time_row_of u floats) (StopTimes u floats dataset header no_error)
        (HasStopTimeKeys u floats)
        (λ row v.
          converted-related (stop_time_row_of u floats) _ (HasStopTimeKeys u floats row) row (
            stop_time-by u floats (ids u floats dataset "trips.txt" "trip_id")
              (ids u floats dataset "stops.txt" "stop_id") row v.0 v.1))
        _ tables.stop_times (stop_times u floats dataset header no_error) convert-parts.1.1.1.1.1

  known_service :
      (service : Text)
      → (contains service (ids u floats dataset "calendar_dates.txt" "service_id")
          || contains service (ids u floats dataset "calendar.txt" "service_id"))
        ≡ true
      → contains service (service_ids tables) ≡ true
  known_service service h =
      rw (calendar_date_ids-eq, calendar_ids-eq)
        (contains-append service (ids u floats dataset "calendar_dates.txt" "service_id")
            (ids u floats dataset "calendar.txt" "service_id")
          ∙ h)

  pub convert-IsConsistent : IsConsistent tables
  convert-IsConsistent = (
    (
      rw route_ids-eq (valid_routes u floats dataset no_error).0,
      (
        rw stop_ids-eq (valid_stops u floats dataset no_error).0,
        rw trip_ids-eq (valid_trips u floats dataset no_error).0,
      ),
    ),
    (
      Beside-All (trip_row_of u) (HasRouteAndService u floats dataset no_error) (HasTripKeys u) _
          (λ row r known keys. (
            rw (keys.1.0, route_ids-eq) known.0,
            rw keys.1.1 (known_service (text u "service_id" row) known.1),
          ))
          _ tables.trips (valid_trips u floats dataset no_error).1.0 trips-Beside,
      Beside-All (stop_time_row_of u floats) (StopTimes u floats dataset header no_error)
          (HasStopTimeKeys u floats) _
          (λ row r known keys. (
            rw (keys.0, trip_ids-eq) known.1.0,
            (rw (keys.1.0, stop_ids-eq) known.1.1.0, keys.1.1),
          ))
          _ tables.stop_times (stop_times u floats dataset header no_error) stop_times-Beside,
    ),
  )
