-- ===== src/Static/Conversion.antt =====
-- src/metropulse/application/static_loader.py: the conversion of the raw rows. `none` is the
-- KeyError or ValueError of a conversion.
pub mod Fields
pub mod Converted
pub mod Keyed
pub mod Beside
use metropulse.Static.Tables.{
  AgencyRow, RouteRow, StopRow, CalendarRow, CalendarDateRow, ShapeRow, TripRow, StopTimeRow,
  StaticTables,
}
use metropulse.Prelude.{
  ℕ, String, Bool, Option, none, some, List, [], ◌∷◌, comparable_string, comparable_nat, ◌>>=◌,
  ◌==◌,
}
use metropulse.Prelude.Equality.{comparable_list}
use metropulse.Prelude.Dict.{lookup}
use metropulse.Prelude.Int.{ℤ}
use metropulse.Gtfs.Text.{Text, Unicode}
use metropulse.Gtfs.Date.{Date, parse_gtfs_date}
use metropulse.Gtfs.Time.{parse_gtfs_time}
use metropulse.Static.Numbers.{Float, int}
use metropulse.Static.Rows.{RawRow, RawRows, RawDataset, get, rows_of}
use metropulse.Static.Checks.{text, one_text}

-- row[column]
abbrev pub field : String → RawRow → Option Text
field column row = lookup column row

abbrev pub optional : Text → Option Text
optional [] = none
optional (c ∷ t) = some (c ∷ t)

-- `f(value) if value else None`
unfoldable pub optional_by : {A : Type 0} → (Text → Option A) → Text → Option (Option A)
optional_by f [] = some none
optional_by f (c ∷ t) = do x ← f (c ∷ t); some (some x)

-- `[convert(row) for row in rows]`
unfoldable pub convert_all : {A : Type 0} → (RawRow → Option A) → RawRows → Option (List A)
convert_all convert [] = some []
convert_all convert (row ∷ rows) = do x ← convert row; xs ← convert_all convert rows; some (x ∷ xs)

abbrev pub default_text : Text
default_text = b'd' ∷ b'e' ∷ b'f' ∷ b'a' ∷ b'u' ∷ b'l' ∷ b't' ∷ []

-- `value or other`
abbrev pub or_else : Text → Text → Text
or_else [] other = other
or_else (c ∷ t) other = c ∷ t

-- `value or other`, where the other may be None
abbrev pub or_maybe : Text → Option Text → Option Text
or_maybe [] other = other
or_maybe (c ∷ t) other = some (c ∷ t)

module _ (u : Unicode) where
  unfoldable pub agency_row_of : RawRow → Option AgencyRow
  agency_row_of row = do
    name ← field "agency_name" row
    url ← field "agency_url" row
    timezone ← field "agency_timezone" row
    some (record {
      agency_id = or_else (text u "agency_id" row) default_text;
      agency_name = name;
      agency_url = url;
      agency_timezone = timezone;
      agency_lang = optional (get "agency_lang" row);
    })

  unfoldable pub default_agency : RawRows → Option Text
  default_agency [] = none
  default_agency (row ∷ rows) = some (or_else (text u "agency_id" row) default_text)

  unfoldable pub int_at : String → RawRow → Option ℤ
  int_at column row = do value ← field column row; int u value

  unfoldable pub route_row_of : Option Text → RawRow → Option RouteRow
  route_row_of default row = do
    id ← field "route_id" row
    n ← int_at "route_type" row
    some (record {
      route_id = id;
      agency_id = or_maybe (text u "agency_id" row) default;
      route_short_name = optional (get "route_short_name" row);
      route_long_name = optional (get "route_long_name" row);
      route_type = n;
      route_color = optional (get "route_color" row);
      route_text_color = optional (get "route_text_color" row);
    })

  -- row[day] == "1"
  unfoldable pub runs_on : String → RawRow → Option Bool
  runs_on day row = do flag ← field day row; some (flag == one_text)

  unfoldable pub date_at : String → RawRow → Option Date
  date_at column row = do value ← field column row; parse_gtfs_date u value

  unfoldable pub calendar_row_of : RawRow → Option CalendarRow
  calendar_row_of row = do
    service ← field "service_id" row
    mo ← runs_on "monday" row
    tu ← runs_on "tuesday" row
    we ← runs_on "wednesday" row
    th ← runs_on "thursday" row
    fr ← runs_on "friday" row
    sa ← runs_on "saturday" row
    su ← runs_on "sunday" row
    start ← date_at "start_date" row
    end ← date_at "end_date" row
    some (record {
      service_id = service;
      monday = mo;
      tuesday = tu;
      wednesday = we;
      thursday = th;
      friday = fr;
      saturday = sa;
      sunday = su;
      start_date = start;
      end_date = end;
    })

  unfoldable pub calendar_date_row_of : RawRow → Option CalendarDateRow
  calendar_date_row_of row = do
    service ← field "service_id" row
    day ← date_at "date" row
    n ← int_at "exception_type" row
    some (record { service_id = service; date = day; exception_type = n })

  unfoldable pub trip_row_of : RawRow → Option TripRow
  trip_row_of row = do
    trip ← field "trip_id" row
    route ← field "route_id" row
    service ← field "service_id" row
    direction ← optional_by (int u) (get "direction_id" row)
    some (record {
      trip_id = trip;
      route_id = route;
      service_id = service;
      trip_headsign = optional (get "trip_headsign" row);
      direction_id = direction;
      shape_id = optional (get "shape_id" row);
    })

  unfoldable pub time_at : String → RawRow → Option ℕ
  time_at column row = do value ← field column row; parse_gtfs_time u value

  module _ (floats : Float) where
    open floats use {Num, float}

    unfoldable pub float_at : String → RawRow → Option Num
    float_at column row = do value ← field column row; float value

    unfoldable pub stop_row_of : RawRow → Option (StopRow Num)
    stop_row_of row = do
      id ← field "stop_id" row
      name ← field "stop_name" row
      lat ← float_at "stop_lat" row
      lon ← float_at "stop_lon" row
      location ← optional_by (int u) (get "location_type" row)
      some (record {
        stop_id = id;
        stop_code = optional (get "stop_code" row);
        stop_name = name;
        stop_lat = lat;
        stop_lon = lon;
        zone_id = optional (get "zone_id" row);
        location_type = location;
        parent_station = optional (get "parent_station" row);
      })

    unfoldable pub shape_row_of : RawRow → Option (ShapeRow Num)
    shape_row_of row = do
      id ← field "shape_id" row
      sequence ← int_at "shape_pt_sequence" row
      lat ← float_at "shape_pt_lat" row
      lon ← float_at "shape_pt_lon" row
      distance ← optional_by float (get "shape_dist_traveled" row)
      some (record {
        shape_id = id;
        shape_pt_sequence = sequence;
        shape_pt_lat = lat;
        shape_pt_lon = lon;
        shape_dist_traveled = distance;
      })

    unfoldable pub stop_time_row_of : RawRow → Option (StopTimeRow Num)
    stop_time_row_of row = do
      trip ← field "trip_id" row
      sequence ← int_at "stop_sequence" row
      stop ← field "stop_id" row
      arrival ← time_at "arrival_time" row
      departure ← time_at "departure_time" row
      distance ← optional_by float (get "shape_dist_traveled" row)
      some (record {
        trip_id = trip;
        stop_sequence = sequence;
        stop_id = stop;
        arrival_seconds = arrival;
        departure_seconds = departure;
        shape_dist_traveled = distance;
      })

    -- the lists of `inserts`, in their order
    unfoldable pub convert : RawDataset → Option (StaticTables Num)
    convert dataset = do
      agencies ← convert_all agency_row_of (rows_of "agency.txt" dataset)
      routes ←
          convert_all (route_row_of (default_agency (rows_of "agency.txt" dataset)))
            (rows_of "routes.txt" dataset)
      stops ← convert_all stop_row_of (rows_of "stops.txt" dataset)
      calendar ← convert_all calendar_row_of (rows_of "calendar.txt" dataset)
      dates ← convert_all calendar_date_row_of (rows_of "calendar_dates.txt" dataset)
      shapes ← convert_all shape_row_of (rows_of "shapes.txt" dataset)
      trips ← convert_all trip_row_of (rows_of "trips.txt" dataset)
      times ← convert_all stop_time_row_of (rows_of "stop_times.txt" dataset)
      some (record {
        agencies = agencies;
        routes = routes;
        stops = stops;
        calendar = calendar;
        calendar_dates = dates;
        shapes = shapes;
        trips = trips;
        stop_times = times;
      })
