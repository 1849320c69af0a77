-- ===== src/Static/Examples.antt =====
-- A small feed, loaded.
use Prim.Native.Char.{code}
use metropulse.Prelude.{ℕ, String, List, [], ◌∷◌, ◌++◌, ◌≡◌, refl, arith}
use metropulse.Prelude.Int.{ℤ, leb_ℤ}
use metropulse.Gtfs.Text.{Text, ascii, strip}
use metropulse.Static.Numbers.{Float, int, signed, magnitude, digits_of, value_of}
use metropulse.Static.Archive.{Member}
use metropulse.Static.Tables.{StaticTables}
use metropulse.Static.Loader.{Database, bulk_insert}
use metropulse.Static.Loader.Batches.{bulk_insert-append}

abbrev codes : String → Text
codes String.[] = []
codes (String.◌∷◌ c s) = code c ∷ codes s

abbrev cells : List String → List Text
cells [] = []
cells (s ∷ line) = codes s ∷ cells line

abbrev degrees : Float
degrees = record { Num = ℤ; float = int ascii; at_most = leb_ℤ; of_int = λ n. n }

abbrev file : String → List String → List (List Text) → Member
file path names lines = record { path = path; fieldnames = names; lines = lines }

abbrev feed : List Member
feed =
    file "agency.txt" ("agency_name" ∷ "agency_url" ∷ "agency_timezone" ∷ [])
      (cells ("DMRC" ∷ "u" ∷ "z" ∷ []) ∷ [])
    ∷ file "routes.txt" (" route_id" ∷ "route_type" ∷ []) (cells ("R" ∷ "1" ∷ []) ∷ [])
    ∷ file "trips.txt" ("trip_id" ∷ "route_id" ∷ "service_id" ∷ [])
        (cells ("T" ∷ " R" ∷ "S" ∷ []) ∷ [])
    ∷ file "stops.txt" ("stop_id" ∷ "stop_name" ∷ "stop_lat" ∷ "stop_lon" ∷ [])
        (cells ("A" ∷ "A" ∷ "28" ∷ "77" ∷ []) ∷ [])
    ∷ file "stop_times.txt"
        ("trip_id" ∷ "stop_id" ∷ "stop_sequence" ∷ "arrival_time" ∷ "departure_time" ∷ [])
        (cells ("T" ∷ "A" ∷ "1" ∷ "08:00:00" ∷ "08:00:30" ∷ []) ∷ [])
    ∷ file "calendar_dates.txt" ("service_id" ∷ "date" ∷ "exception_type" ∷ [])
        (cells ("S" ∷ "20260101" ∷ "1" ∷ []) ∷ [])
    ∷ []

abbrev nothing : StaticTables ℤ
nothing = record {
  agencies = [];
  routes = [];
  stops = [];
  calendar = [];
  calendar_dates = [];
  shapes = [];
  trips = [];
  stop_times = [];
}

abbrev empty : Database ℤ
empty = record { tables = nothing; versions = [] }

abbrev three : List ℕ
three = 5 ∷ 6 ∷ 7 ∷ []

bulk_insert-append_example : bulk_insert 2 three three ≡ three ++ three
bulk_insert-append_example = bulk_insert-append 2 three three (omega arith)

-- `01` and `1` are two sequences to the check of stop times, and one number to the conversion.
same_number : int ascii (codes "01") ≡ int ascii (codes " +1")
unfolding int signed magnitude digits_of value_of strip
same_number = refl
