-- ===== src/Static/Conversion/Keyed.antt =====
-- What trips, stops, shapes and stop times are converted to, and the keys that they keep.
use metropulse.Prelude.{
  ℕ, true, false, ◌≤◌, some, List, ◌≡◌, refl, sym, ap, ◌∙◌, arith, comparable_nat,
}
use metropulse.Prelude.Equality.{comparable_list}
use metropulse.Gtfs.Text.{Text, Unicode, strip}
use metropulse.Gtfs.Text.Strip.{strip-strip}
use metropulse.Gtfs.Time.{parse_gtfs_time}
use metropulse.Static.Numbers.{Float, int}
use metropulse.Static.Rows.{RawRow, get}
use metropulse.Static.Columns.{columns_of}
use metropulse.Static.Checks.{is_some, is_int, text}
use metropulse.Static.Validation.{leaves_early}
use metropulse.Static.Validation.Quiet.{some-of_is_some}
use metropulse.Static.Validation.Known.{IsValidStopTime, IsValidStop, IsValidShape}
use metropulse.Static.Tables.{TripRow, StopTimeRow}
use metropulse.Static.Conversion.{
  optional_by, stop_row_of, shape_row_of, trip_row_of, stop_time_row_of, optional,
}
use metropulse.Static.Conversion.Fields.{
  IsComplete, field-get, int_at-int, time_at-parse, float_at-float, text-get,
}
use metropulse.Static.Conversion.Converted.{ConvertsBy}

module _ (u : Unicode) where
  -- what a trip keeps of its row
  abbrev pub HasTripKeys : RawRow → TripRow → Type 0
  HasTripKeys row r =
      (r.trip_id ≡ text u "trip_id" row)
      × ((r.route_id ≡ text u "route_id" row) × (r.service_id ≡ text u "service_id" row))

  pub trip-by :
      (row : RawRow)
      → IsComplete u (columns_of "trips.txt") row
      → ConvertsBy
          (trip_row_of u)
          (optional_by (int u) (get "direction_id" row))
          (HasTripKeys row)
          row
  unfolding trip_row_of
  trip-by row complete =
      let value = field-get u (columns_of "trips.txt") row complete in
      let same = text-get u (columns_of "trips.txt") row complete in
      (
        λ direction. record {
          trip_id = get "trip_id" row;
          route_id = get "route_id" row;
          service_id = get "service_id" row;
          trip_headsign = optional (get "trip_headsign" row);
          direction_id = direction;
          shape_id = optional (get "shape_id" row);
        },
        (
          rw (value "trip_id" refl, value "route_id" refl, value "service_id" refl) refl,
          λ b e. (sym (same "trip_id"), (sym (same "route_id"), sym (same "service_id"))),
        ),
      )

  module _ (floats : Float) where
    pub stop-by :
        (row : RawRow)
        → IsComplete u (columns_of "stops.txt") row
        → IsValidStop u floats row
        → ConvertsBy
            (stop_row_of u floats)
            (optional_by (int u) (get "location_type" row))
            (λ r. r.stop_id ≡ text u "stop_id" row)
            row
    unfolding stop_row_of
    stop-by row complete valid =
        let value = field-get u (columns_of "stops.txt") row complete in
        let (lat, e1) =
          float_at-float u (columns_of "stops.txt") row complete floats "stop_lat" refl valid.0 in
        let (lon, e2) =
          float_at-float u (columns_of "stops.txt") row complete floats "stop_lon" refl valid.1 in
        (
          λ location. record {
            stop_id = get "stop_id" row;
            stop_code = optional (get "stop_code" row);
            stop_name = get "stop_name" row;
            stop_lat = lat;
            stop_lon = lon;
            zone_id = optional (get "zone_id" row);
            location_type = location;
            parent_station = optional (get "parent_station" row);
          },
          (
            rw (value "stop_id" refl, value "stop_name" refl, e1, e2) refl,
            λ b e. sym (text-get u (columns_of "stops.txt") row complete "stop_id"),
          ),
        )

    pub shape-by :
        (row : RawRow)
        → IsComplete u (columns_of "shapes.txt") row
        → IsValidShape u floats row
        → ConvertsBy
            (shape_row_of u floats)
            (optional_by floats.float (get "shape_dist_traveled" row))
            (λ r. Unit)
            row
    unfolding shape_row_of
    shape-by row complete valid =
        let (lat, e1) =
          float_at-float u (columns_of "shapes.txt") row complete floats "shape_pt_lat" refl
            valid.0 in
        let (lon, e2) =
          float_at-float u (columns_of "shapes.txt") row complete floats "shape_pt_lon" refl
            valid.1.0 in
        let (n, e3) =
          int_at-int u (columns_of "shapes.txt") row complete "shape_pt_sequence" refl valid.1.1 in
        (
          λ distance. record {
            shape_id = get "shape_id" row;
            shape_pt_sequence = n;
            shape_pt_lat = lat;
            shape_pt_lon = lon;
            shape_dist_traveled = distance;
          },
          (
            rw (field-get u (columns_of "shapes.txt") row complete "shape_id" refl, e3, e1, e2)
                refl,
            λ b e. tt,
          ),
        )

    -- what a stop time keeps of its row; it does not leave before it arrives
    abbrev pub HasStopTimeKeys : RawRow → StopTimeRow floats.Num → Type 0
    HasStopTimeKeys row r =
        (r.trip_id ≡ text u "trip_id" row)
        × ((r.stop_id ≡ text u "stop_id" row) × (r.arrival_seconds ≤ r.departure_seconds))

    in_order :
        (arrival departure : ℕ)
        → leaves_early (some arrival) (some departure) ≡ false
        → arrival ≤ departure
    unfolding leaves_early
    in_order arrival departure h = ground arith

    is_int-twice : (value : Text) → is_int u (strip u value) ≡ true → is_int u value ≡ true
    unfolding is_int
    is_int-twice value h = ap (λ (t : Text). is_some (int u t)) (sym (strip-strip u value)) ∙ h

    pub stop_time-by :
        (trip_ids stop_ids : List Text) (row : RawRow)
        → IsComplete u (columns_of "stop_times.txt") row
        → IsValidStopTime u trip_ids stop_ids row
        → ConvertsBy
            (stop_time_row_of u floats)
            (optional_by floats.float (get "shape_dist_traveled" row))
            (HasStopTimeKeys row)
            row
    unfolding stop_time_row_of
    stop_time-by trip_ids stop_ids row complete
          (trip, (stop, (number, (arrives, (leaves, ordered))))) =
        let columns = columns_of "stop_times.txt" in
        let value = field-get u columns row complete in
        let same = text-get u columns row complete in
        let (n, e1) =
          int_at-int u columns row complete "stop_sequence" refl
            (is_int-twice (get "stop_sequence" row) (unfold text in number)) in
        let (arrival, e2) = some-of_is_some (parse_gtfs_time u (get "arrival_time" row)) arrives in
        let (departure, e3) =
          some-of_is_some (parse_gtfs_time u (get "departure_time" row)) leaves in
        (
          λ distance. record {
            trip_id = get "trip_id" row;
            stop_sequence = n;
            stop_id = get "stop_id" row;
            arrival_seconds = arrival;
            departure_seconds = departure;
            shape_dist_traveled = distance;
          },
          (
            rw
                (
                  value "trip_id" refl,
                  e1,
                  value "stop_id" refl,
                  time_at-parse u columns row complete "arrival_time" refl,
                  e2,
                  time_at-parse u columns row complete "departure_time" refl,
                  e3,
                )
                refl,
            λ b e. (
              sym (same "trip_id"),
              (sym (same "stop_id"), in_order arrival departure (sym (rw (e2, e3)) ∙ ordered)),
            ),
          ),
        )
