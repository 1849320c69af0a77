-- ===== src/Static/Validation/Sound/Trips.antt =====
-- The services, trips and stop times of a dataset in which `validate_dataset` reports no error.
use metropulse.Prelude.{
  String, Bool, true, false, not, ◌&&◌, ◌||◌, List, [], ◌∷◌, ◌++◌, map, ◌≡◌, refl, sym, ap, ◌∙◌,
  inl, inr, contains, Distinct, All, All-map, Any, comparable_nat, comparable_string, if◌then◌else◌,
  arith, equal_refl, not_both, or_left, or_right,
}
use metropulse.Prelude.Equality.{comparable_list, comparable_pair}
use metropulse.Prelude.Dict.{has_key}
use metropulse.Gtfs.Text.{Text, Unicode}
use metropulse.Static.Numbers.{Float}
use metropulse.Static.Columns.{required_files, conditional_files, columns_of, has_columns}
use metropulse.Static.Rows.{
  RawRow, RawRows, RawDataset, Report, has_errors, is_nonempty, check_rows,
}
use metropulse.Static.Rows.Loops.{keyed_rows}
use metropulse.Static.Checks.{text, check_routes}
use metropulse.Static.Validation.{
  stop_time_row, check_stop_times, check_stops, check_shapes, validate_dataset,
}
use metropulse.Static.Validation.Quiet.{checked}
use metropulse.Static.Validation.Sound.Files.{check_presence-calendar}
use metropulse.Static.Validation.Known.{
  IsValidTrip, IsValidStopTime, sequence_key, trip_row-checked, stop_time_row-checked,
}
use metropulse.Static.Validation.Sound.{
  rows, services, trips, ids, reports, columns-are_there, absent_or, trip_step, trips-checked,
  valid_routes, valid_stops, valid_services,
}

module _ (u : Unicode) (floats : Float) (dataset : RawDataset) where
  module _ (no_error : has_errors (validate_dataset u floats dataset) ≡ false) where
    some_service :
        (filename : String) (columns : List String)
        → Any (λ file. file ≡ (filename, columns)) (required_files ++ conditional_files)
        → has_key filename dataset ≡ true
        → (a : Text) × (contains a ((ids u floats dataset) filename "service_id") ≡ true)
    some_service filename columns p there =
        elim ((columns-are_there u floats dataset no_error) filename columns p) [
          | inl absent ↦ not_both there absent.0
          | inr h ↦ first_id ((rows u floats dataset) filename) h
        ]
      where
        first_id :
            (file : RawRows)
            → has_columns file columns ≡ true
            → (a : Text) × (contains a (map (text u "service_id") file) ≡ true)
        first_id [] k = unfold has_columns in cc k
        first_id (row ∷ file) k =
            (text u "service_id" row, or_left _ _ (equal_refl (text u "service_id" row)))

    services-nonempty : is_nonempty (services u floats dataset).1 ≡ true
    services-nonempty =
        elim (check_presence-calendar dataset (reports u floats dataset no_error).0) [
          | inl h ↦
              let (a, known) =
                some_service "calendar.txt" _ (inr (inr (inr (inr (inr (inl refl)))))) h in
              contains-is_nonempty a (services u floats dataset).1
                ((valid_services u floats dataset no_error).1.1 a ∙ or_right _ known)
          | inr h ↦
              let (a, known) =
                some_service "calendar_dates.txt" _ (inr (inr (inr (inr (inr (inr (inl refl)))))))
                  h in
              contains-is_nonempty a (services u floats dataset).1
                ((valid_services u floats dataset no_error).1.1 a ∙ or_left _ _ known)
        ]
      where
        contains-is_nonempty :
            (a : Text) (xs : List Text) → contains a xs ≡ true → is_nonempty xs ≡ true
        contains-is_nonempty a [] k = cc k
        contains-is_nonempty a (x ∷ xs) k = refl

    -- Every trip has a route and a service.
    abbrev pub HasRouteAndService : RawRow → Type 0
    HasRouteAndService row =
        (contains (text u "route_id" row) ((ids u floats dataset) "routes.txt" "route_id") ≡ true)
        × ((contains (text u "service_id" row)
                ((ids u floats dataset) "calendar_dates.txt" "service_id")
              || contains (text u "service_id" row)
                  ((ids u floats dataset) "calendar.txt" "service_id"))
            ≡ true)

    pub valid_trips :
        Distinct ((ids u floats dataset) "trips.txt" "trip_id")
        × (All HasRouteAndService ((rows u floats dataset) "trips.txt")
            × ((a : Text)
                → contains a (trips u floats dataset).1
                  ≡ contains a ((ids u floats dataset) "trips.txt" "trip_id")))
    valid_trips =
        let (distinct, (valid, known)) =
          keyed_rows (text u "trip_id")
            (IsValidTrip u (check_routes u ((rows u floats dataset) "routes.txt")).1
              (services u floats dataset).1)
            (trip_step u floats dataset no_error)
            (trip_row-checked u (check_routes u ((rows u floats dataset) "routes.txt")).1
              (services u floats dataset).1
              (check_shapes u floats ((rows u floats dataset) "shapes.txt")).1)
            (trips u floats dataset) ((rows u floats dataset) "trips.txt")
            (trips-checked u floats dataset no_error)
            (reports u floats dataset no_error).1.1.1.1.1.1.0 in
        (
          distinct,
          (
            All-map _ HasRouteAndService
                (λ row v. (
                  sym ((valid_routes u floats dataset no_error).1.1 (text u "route_id" row)) ∙ v.0,
                  sym ((valid_services u floats dataset no_error).1.1 (text u "service_id" row))
                      ∙ in_service _ _ services-nonempty v.1,
                ))
                ((rows u floats dataset) "trips.txt") valid,
            known,
          ),
        )
      where
        in_service : (a b : Bool) → a ≡ true → (a && not b) ≡ false → b ≡ true
        in_service a b k l = ground arith

    abbrev pair_if :
        Bool
        → Report × List (Text × Text)
        → Report × List (Text × Text)
        → Report × List (Text × Text)
    pair_if b x y = if b then x else y

    first_of :
        (b : Bool) (x y : Report × List (Text × Text))
        → (pair_if b x y).0 ≡ (if b then x.0 else y.0)
    first_of true x y = refl
    first_of false x y = refl

    -- Every stop time has a trip and a stop, a number and ordered times.
    pub valid_stop_times :
        Distinct (map (sequence_key u) ((rows u floats dataset) "stop_times.txt"))
        × All
            (IsValidStopTime u
              ((ids u floats dataset) "trips.txt" "trip_id")
              ((ids u floats dataset) "stops.txt" "stop_id"))
            ((rows u floats dataset) "stop_times.txt")
    unfolding check_stop_times
    valid_stop_times =
        let step =
          stop_time_row u (trips u floats dataset).1
            (check_stops u floats ((rows u floats dataset) "stops.txt")).1 in
        let same =
          checked step (columns_of "stop_times.txt") [] ((rows u floats dataset) "stop_times.txt") (
            (absent_or u floats dataset no_error) "stop_times.txt" _
              (inr (inr (inr (inr (inl refl)))))) in
        let quiet : has_errors (check_rows step [] 2 ((rows u floats dataset) "stop_times.txt")).0
            ≡ false =
          sym (ap (λ (r : Report × List (Text × Text)). has_errors r.0) same)
          ∙ ap has_errors (
              first_of
                (has_columns ((rows u floats dataset) "stop_times.txt")
                  (columns_of "stop_times.txt"))
                (check_rows step [] 2 ((rows u floats dataset) "stop_times.txt")) ([], []))
          ∙ (reports u floats dataset no_error).1.1.1.1.1.1.1 in
        let (distinct, (valid, known)) =
          keyed_rows (sequence_key u)
            (IsValidStopTime u (trips u floats dataset).1
              (check_stops u floats ((rows u floats dataset) "stops.txt")).1)
            step
            (stop_time_row-checked u (trips u floats dataset).1
              (check_stops u floats ((rows u floats dataset) "stops.txt")).1)
            (check_rows step [] 2 ((rows u floats dataset) "stop_times.txt"))
            ((rows u floats dataset) "stop_times.txt") refl quiet in
        (
          distinct,
          All-map _
              (IsValidStopTime u ((ids u floats dataset) "trips.txt" "trip_id")
                ((ids u floats dataset) "stops.txt" "stop_id"))
              (λ row v. (
                sym (valid_trips.1.1 (text u "trip_id" row)) ∙ v.0,
                (
                  sym ((valid_stops u floats dataset no_error).1.1 (text u "stop_id" row)) ∙ v.1.0,
                  v.1.1,
                ),
              ))
              ((rows u floats dataset) "stop_times.txt") valid,
        )
