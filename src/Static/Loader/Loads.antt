-- ===== src/Static/Loader/Loads.antt =====
-- What a load leaves in the database (`GtfsStaticLoader.load` of
-- src/metropulse/application/static_loader.py).
use metropulse.Prelude.{ℕ, ◌<◌, String, Bool, false, some, [], ◌++◌, ◌∷◌, take, ◌≡◌, ◌⊎◌}
use metropulse.Gtfs.Text.{Text, Unicode}
use metropulse.Static.Numbers.{Float}
use metropulse.Static.Rows.{RawDataset, has_errors}
use metropulse.Static.Validation.{validate_dataset}
use metropulse.Static.Tables.{StaticTables}
use metropulse.Static.Conversion.{convert}
use metropulse.Static.Loader.{Database, Outcome, loaded, counts_of}

module _ (u : Unicode) (floats : Float) (name : String → String) (batch_size : ℕ)
    (accepts : StaticTables floats.Num → Bool) (positive : 0 < batch_size) where
  -- How a load can end: the database is as it was, or it holds what a dataset without errors was
  -- converted to, and one more version.
  abbrev pub EndsWell :
      RawDataset → Text → Database floats.Num → Outcome × Database floats.Num → Type 0
  EndsWell dataset checksum db end =
      (end.1 ≡ db)
      ⊎ ((rows : StaticTables floats.Num) × ((has_errors (validate_dataset u floats dataset)
              ≡ false)
            × ((convert u floats dataset ≡ some rows)
                × ((end.0
                      ≡ loaded (record {
                        counts = counts_of rows;
                        report = validate_dataset u floats dataset;
                        version = take 16 checksum;
                      }))
                    × (end.1 ≡ record {
                      tables = rows;
                      versions =
                          db.versions
                          ++ record { version = take 16 checksum; checksum = checksum } ∷ [];
                    })))))
