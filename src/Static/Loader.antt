-- ===== src/Static/Loader.antt =====
-- src/metropulse/application/static_loader.py: `GtfsStaticLoader.load`, with `delete_all_static` and
-- `bulk_insert` of src/metropulse/infrastructure/db/repositories.py. The database is what it holds
-- after a transaction.
pub mod Converts
pub mod Consistent
pub mod Batches
pub mod Loads
use metropulse.Prelude.{
  Option, none, some, ℕ, zero, suc, String, Bool, none, some, List, [], ◌∷◌, ◌++◌, take, drop,
  length, if◌then◌else◌,
}
use metropulse.Gtfs.Text.{Text, Unicode}
use metropulse.Static.Numbers.{Float}
use metropulse.Static.Rows.{RawDataset, Report, raise_for_errors}
use metropulse.Static.Validation.{validate_dataset}
use metropulse.Static.Archive.{Member, read_gtfs_zip}
use metropulse.Static.Tables.{StaticTables}
use metropulse.Static.Conversion.{convert}

pub record DatasetVersion : Type 0 where
  pub version : Text
  pub checksum : Text

pub record LoadResult : Type 0 where
  pub counts : List (String × ℕ)
  pub report : Report
  pub version : Text

-- What a load returns, or that it raises: GtfsValidationError with its issues, or another exception.
pub data Outcome : Type 0 where
  loaded : LoadResult → Outcome
  refused : Report → Outcome
  failed : Outcome

pub record Database (Num : Type 0) : Type 0 where
  pub tables : StaticTables Num
  pub versions : List DatasetVersion

-- `range(0, len(rows), batch_size)`, with fuel for its steps
unfoldable pub insert_batches : {A : Type 0} → ℕ → ℕ → List A → List A → List A
insert_batches size zero rows table = table
insert_batches size (suc fuel) [] table = table
insert_batches size (suc fuel) (row ∷ rows) table =
    insert_batches size fuel (drop size (row ∷ rows)) (table ++ take size (row ∷ rows))

unfoldable pub bulk_insert : {A : Type 0} → ℕ → List A → List A → List A
bulk_insert size rows table = insert_batches size (length rows) rows table

-- The wipe leaves empty tables, and the inserts fill them.
unfoldable pub replace_tables : {Num : Type 0} → ℕ → StaticTables Num → StaticTables Num
replace_tables size rows = record {
  agencies = bulk_insert size rows.agencies [];
  routes = bulk_insert size rows.routes [];
  stops = bulk_insert size rows.stops [];
  calendar = bulk_insert size rows.calendar [];
  calendar_dates = bulk_insert size rows.calendar_dates [];
  shapes = bulk_insert size rows.shapes [];
  trips = bulk_insert size rows.trips [];
  stop_times = bulk_insert size rows.stop_times [];
}

unfoldable pub counts_of : {Num : Type 0} → StaticTables Num → List (String × ℕ)
counts_of rows =
    ("agency", length rows.agencies)
    ∷ ("routes", length rows.routes)
    ∷ ("stops", length rows.stops)
    ∷ ("calendar", length rows.calendar)
    ∷ ("calendar_dates", length rows.calendar_dates)
    ∷ ("shapes", length rows.shapes)
    ∷ ("trips", length rows.trips)
    ∷ ("stop_times", length rows.stop_times)
    ∷ []

-- `accepts` says whether the database takes the rows, `checksum` is the SHA-256 of the file.
module _ (u : Unicode) (floats : Float) (name : String → String) (batch_size : ℕ)
    (accepts : StaticTables floats.Num → Bool) where
  unfoldable pub store :
      Report → Text → Database floats.Num → StaticTables floats.Num → Outcome × Database floats.Num
  store report checksum db rows =
      if accepts rows
      then (
        loaded (record { counts = counts_of rows; report = report; version = take 16 checksum }),
        record {
          tables = replace_tables batch_size rows;
          versions = db.versions ++ record { version = take 16 checksum; checksum = checksum } ∷ [];
        },
      )
      else (failed, db)

  -- `none` is an exception of a conversion.
  unfoldable pub store_converted :
      Report
      → Text
      → Database floats.Num
      → Option (StaticTables floats.Num)
      → Outcome × Database floats.Num
  store_converted report checksum db none = (failed, db)
  store_converted report checksum db (some rows) = store report checksum db rows

  -- `some` is the GtfsValidationError of `raise_for_errors`.
  unfoldable pub go_on :
      RawDataset
      → Report
      → Text
      → Database floats.Num
      → Option Report
      → Outcome × Database floats.Num
  go_on dataset report checksum db (some issues) = (refused issues, db)
  go_on dataset report checksum db none =
      store_converted report checksum db (convert u floats dataset)

  unfoldable pub load_dataset :
      RawDataset → Text → Database floats.Num → Outcome × Database floats.Num
  load_dataset dataset checksum db =
      let report = validate_dataset u floats dataset in
      go_on dataset report checksum db (raise_for_errors report)

  unfoldable pub load : List Member → Text → Database floats.Num → Outcome × Database floats.Num
  load archive checksum db = load_dataset (read_gtfs_zip u name archive) checksum db
