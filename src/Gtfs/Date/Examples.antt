-- ===== src/Gtfs/Date/Examples.antt =====
-- Tests of GTFS dates and the theorem at a concrete input.
use metropulse.Prelude.{some, ◌≡◌, arith}
use metropulse.Gtfs.Text.{ascii}
use metropulse.Gtfs.Date.{parse_gtfs_date}
use metropulse.Gtfs.Date.Roundtrip.{digits_of, parse-digits_of}

-- the 29th of February in a leap year
parse-digits_of_example :
    parse_gtfs_date ascii (digits_of 2028 2 29) ≡ some (record { year = 2028; month = 2; day = 29 })
parse-digits_of_example = parse-digits_of ascii 2028 2 29 (omega arith) (omega arith) (omega arith)
