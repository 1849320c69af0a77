-- ===== src/Static/Tables.antt =====
-- The rows of the static tables, as src/metropulse/application/static_loader.py makes them.
use metropulse.Prelude.{ℕ, Bool, Option, List}
use metropulse.Prelude.Int.{ℤ}
use metropulse.Gtfs.Text.{Text}
use metropulse.Gtfs.Date.{Date}

pub record AgencyRow : Type 0 where
  pub agency_id : Text
  pub agency_name : Text
  pub agency_url : Text
  pub agency_timezone : Text
  pub agency_lang : Option Text

pub record RouteRow : Type 0 where
  pub route_id : Text
  pub agency_id : Option Text
  pub route_short_name : Option Text
  pub route_long_name : Option Text
  pub route_type : ℤ
  pub route_color : Option Text
  pub route_text_color : Option Text

pub record StopRow (Num : Type 0) : Type 0 where
  pub stop_id : Text
  pub stop_code : Option Text
  pub stop_name : Text
  pub stop_lat : Num
  pub stop_lon : Num
  pub zone_id : Option Text
  pub location_type : Option ℤ
  pub parent_station : Option Text

pub record CalendarRow : Type 0 where
  pub service_id : Text
  pub monday : Bool
  pub tuesday : Bool
  pub wednesday : Bool
  pub thursday : Bool
  pub friday : Bool
  pub saturday : Bool
  pub sunday : Bool
  pub start_date : Date
  pub end_date : Date

pub record CalendarDateRow : Type 0 where
  pub service_id : Text
  pub date : Date
  pub exception_type : ℤ

pub record ShapeRow (Num : Type 0) : Type 0 where
  pub shape_id : Text
  pub shape_pt_sequence : ℤ
  pub shape_pt_lat : Num
  pub shape_pt_lon : Num
  pub shape_dist_traveled : Option Num

pub record TripRow : Type 0 where
  pub trip_id : Text
  pub route_id : Text
  pub service_id : Text
  pub trip_headsign : Option Text
  pub direction_id : Option ℤ
  pub shape_id : Option Text

pub record StopTimeRow (Num : Type 0) : Type 0 where
  pub trip_id : Text
  pub stop_sequence : ℤ
  pub stop_id : Text
  pub arrival_seconds : ℕ
  pub departure_seconds : ℕ
  pub shape_dist_traveled : Option Num

pub record StaticTables (Num : Type 0) : Type 0 where
  pub agencies : List AgencyRow
  pub routes : List RouteRow
  pub stops : List (StopRow Num)
  pub calendar : List CalendarRow
  pub calendar_dates : List CalendarDateRow
  pub shapes : List (ShapeRow Num)
  pub trips : List TripRow
  pub stop_times : List (StopTimeRow Num)
