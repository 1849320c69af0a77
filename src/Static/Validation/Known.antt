-- ===== src/Static/Validation/Known.antt =====
-- What the rows of trips, stop times, stops and shapes satisfy if their checks add no error to the
-- report.
use metropulse.Prelude.{
  ℕ, true, false, not, ◌&&◌, Option, none, some, List, ◌∷◌, ◌≡◌, refl, contains, comparable_nat,
  arith,
}
use metropulse.Prelude.Equality.{comparable_list, comparable_pair}
use metropulse.Gtfs.Text.{Text, Unicode}
use metropulse.Gtfs.Time.{parse_gtfs_time}
use metropulse.Static.Numbers.{Float}
use metropulse.Static.Rows.{
  RawRow, has_errors, errors, get, issue, is_nonempty, empty_value, report_if,
}
use metropulse.Static.Rows.Loops.{no_errors}
use metropulse.Static.Checks.{is_some, is_int, text}
use metropulse.Static.Validation.{
  trip_row, stop_time_row, sequence_seen, leaves_early, stop_row, shape_row, as_float, within,
}
use metropulse.Static.Validation.Quiet.{quiet, quiet_not, guarded}

module _ (u : Unicode) where
  -- the route is known, and so is the service where any service is
  abbrev pub IsValidTrip : List Text → List Text → RawRow → Type 0
  IsValidTrip route_ids service_ids row =
      (contains (text u "route_id" row) route_ids ≡ true)
      × ((is_nonempty service_ids && not (contains (text u "service_id" row) service_ids)) ≡ false)

  pub trip_row-checked :
      (route_ids service_ids shape_ids seen : List Text) (i : ℕ) (row : RawRow)
      → has_errors (trip_row u route_ids service_ids shape_ids seen i row).0 ≡ false
      → (contains (text u "trip_id" row) seen ≡ false)
        × (IsValidTrip route_ids service_ids row
            × ((trip_row u route_ids service_ids shape_ids seen i row).1
                ≡ text u "trip_id" row ∷ seen))
  unfolding trip_row
  trip_row-checked route_ids service_ids shape_ids seen i row h =
      let (nonempty, (rest, added)) =
        guarded (is_nonempty (text u "trip_id" row)) (issue "trips.txt" i (empty_value "trip_id")) _
          seen (text u "trip_id" row) (unfold issue in refl) h in
      let (fresh, others) = no_errors (report_if (contains (text u "trip_id" row) seen) _) _ rest in
      let (route, more) =
        no_errors (report_if (not (contains (text u "route_id" row) route_ids)) _) _ others in
      let (service, shape) =
        no_errors
          (report_if
            (is_nonempty service_ids && not (contains (text u "service_id" row) service_ids)) _)
          _ more in
      (quiet _ _ _ _ fresh, ((quiet_not _ _ _ _ route, quiet _ _ _ _ service), added))

  -- the trip and the stop are known, and the numbers and times are read
  abbrev pub IsValidStopTime : List Text → List Text → RawRow → Type 0
  IsValidStopTime trip_ids stop_ids row =
      (contains (text u "trip_id" row) trip_ids ≡ true)
      × ((contains (text u "stop_id" row) stop_ids ≡ true)
          × ((is_int u (text u "stop_sequence" row) ≡ true)
              × ((is_some (parse_gtfs_time u (get "arrival_time" row)) ≡ true)
                  × ((is_some (parse_gtfs_time u (get "departure_time" row)) ≡ true)
                      × (leaves_early (parse_gtfs_time u (get "arrival_time" row))
                            (parse_gtfs_time u (get "departure_time" row))
                          ≡ false)))))

  abbrev pub sequence_key : RawRow → Text × Text
  sequence_key row = (text u "trip_id" row, text u "stop_sequence" row)

  sequence_seen-checked :
      (seen : List (Text × Text)) (i : ℕ) (trip_id sequence : Text)
      → has_errors (sequence_seen u seen i trip_id sequence).0 ≡ false
      → (contains (trip_id, sequence) seen ≡ false)
        × ((is_int u sequence ≡ true)
            × ((sequence_seen u seen i trip_id sequence).1 ≡ (trip_id, sequence) ∷ seen))
  unfolding sequence_seen has_errors errors issue
  sequence_seen-checked seen i trip_id sequence h = ground arith

  pub stop_time_row-checked :
      (trip_ids stop_ids : List Text) (seen : List (Text × Text)) (i : ℕ) (row : RawRow)
      → has_errors (stop_time_row u trip_ids stop_ids seen i row).0 ≡ false
      → (contains (sequence_key row) seen ≡ false)
        × (IsValidStopTime trip_ids stop_ids row
            × ((stop_time_row u trip_ids stop_ids seen i row).1 ≡ sequence_key row ∷ seen))
  unfolding stop_time_row
  stop_time_row-checked trip_ids stop_ids seen i row h =
      let (trip, h1) =
        no_errors (report_if (not (contains (text u "trip_id" row) trip_ids)) _) _ h in
      let (stop, h2) =
        no_errors (report_if (not (contains (text u "stop_id" row) stop_ids)) _) _ h1 in
      let (sequence, h3) =
        no_errors (sequence_seen u seen i (text u "trip_id" row) (text u "stop_sequence" row)).0 _
          h2 in
      let (arrival, h4) =
        no_errors (report_if (not (is_some (parse_gtfs_time u (get "arrival_time" row)))) _) _ h3 in
      let (departure, order) =
        no_errors (report_if (not (is_some (parse_gtfs_time u (get "departure_time" row)))) _) _
          h4 in
      let (fresh, (number, added)) =
        sequence_seen-checked seen i (text u "trip_id" row) (text u "stop_sequence" row) sequence in
      (
        fresh,
        (
          (
            quiet_not _ _ _ _ trip,
            (
              quiet_not _ _ _ _ stop,
              (
                number,
                (quiet_not _ _ _ _ arrival, (quiet_not _ _ _ _ departure, quiet _ _ _ _ order)),
              ),
            ),
          ),
          added,
        ),
      )

  module _ (floats : Float) where
    open floats use {float}

    within-is_some :
        (low high : floats.Num) (o : Option floats.Num)
        → within u floats low high o ≡ true
        → is_some o ≡ true
    within-is_some low high none h = cc
    within-is_some low high (some x) h = refl

    abbrev pub IsValidStop : RawRow → Type 0
    IsValidStop row =
        (is_some (as_float u floats (get "stop_lat" row)) ≡ true)
        × (is_some (as_float u floats (get "stop_lon" row)) ≡ true)

    pub stop_row-checked :
        (seen : List Text) (i : ℕ) (row : RawRow)
        → has_errors (stop_row u floats seen i row).0 ≡ false
        → (contains (text u "stop_id" row) seen ≡ false)
          × (IsValidStop row × ((stop_row u floats seen i row).1 ≡ text u "stop_id" row ∷ seen))
    unfolding stop_row
    stop_row-checked seen i row h =
        let (nonempty, (rest, added)) =
          guarded (is_nonempty (text u "stop_id" row)) (issue "stops.txt" i (empty_value "stop_id"))
            _ seen (text u "stop_id" row) (unfold issue in refl) h in
        let (fresh, others) =
          no_errors (report_if (contains (text u "stop_id" row) seen) _) _ rest in
        let (lat, lon) =
          no_errors
            (report_if (not (within u floats _ _ (as_float u floats (get "stop_lat" row)))) _) _
            others in
        (
          quiet _ _ _ _ fresh,
          (
            (
              within-is_some _ _ _ (quiet_not _ _ _ _ lat),
              within-is_some _ _ _ (quiet_not _ _ _ _ lon),
            ),
            added,
          ),
        )

    abbrev pub IsValidShape : RawRow → Type 0
    IsValidShape row =
        (is_some (as_float u floats (get "shape_pt_lat" row)) ≡ true)
        × ((is_some (as_float u floats (get "shape_pt_lon" row)) ≡ true)
            × (is_int u (get "shape_pt_sequence" row) ≡ true))

    pub shape_row-checked :
        (seen : List Text) (i : ℕ) (row : RawRow)
        → has_errors (shape_row u floats seen i row).0 ≡ false
        → IsValidShape row × ((shape_row u floats seen i row).1 ≡ text u "shape_id" row ∷ seen)
    unfolding shape_row
    shape_row-checked seen i row h =
        let (nonempty, (rest, added)) =
          guarded (is_nonempty (text u "shape_id" row))
            (issue "shapes.txt" i (empty_value "shape_id")) _ seen (text u "shape_id" row)
            (unfold issue in refl) h in
        let (lat, others) =
          no_errors (report_if (not (is_some (as_float u floats (get "shape_pt_lat" row)))) _) _
            rest in
        let (lon, sequence) =
          no_errors (report_if (not (is_some (as_float u floats (get "shape_pt_lon" row)))) _) _
            others in
        ((quiet_not _ _ _ _ lat, (quiet_not _ _ _ _ lon, quiet_not _ _ _ _ sequence)), added)
