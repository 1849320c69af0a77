-- ===== src/Gtfs/Time/Examples.antt =====
-- Tests of GTFS times (tests/test_gtfs_time.py) and the theorems at concrete inputs.
use metropulse.Prelude.{none, some, ◌<◌, [], ◌∷◌, ◌≡◌, refl, ◌>>=◌}
use metropulse.Prelude.Int.{pos}
use metropulse.Gtfs.Text.{ascii, strip, read_digits}
use metropulse.Gtfs.Time.{sixtieth, groups, match_time, parse_gtfs_time, format_gtfs_time}
use metropulse.Gtfs.Time.Roundtrip.{parse-format, parse_stable}

parse_regular :
    parse_gtfs_time ascii (b'0' ∷ b'8' ∷ b':' ∷ b'3' ∷ b'0' ∷ b':' ∷ b'1' ∷ b'5' ∷ []) ≡ some 30615
unfolding parse_gtfs_time match_time groups sixtieth strip read_digits
parse_regular = refl

parse_out_of_range :
    parse_gtfs_time ascii (b'0' ∷ b'8' ∷ b':' ∷ b'6' ∷ b'1' ∷ b':' ∷ b'0' ∷ b'0' ∷ []) ≡ none
unfolding parse_gtfs_time match_time groups sixtieth strip read_digits
parse_out_of_range = refl

parse-format_example : (format_gtfs_time (pos 93909) >>= parse_gtfs_time ascii) ≡ some 93909
parse-format_example = parse-format ascii 93909

accepted :
    parse_gtfs_time ascii (32 ∷ b'8' ∷ b':' ∷ b'0' ∷ b'0' ∷ b':' ∷ b'0' ∷ b'0' ∷ []) ≡ some 28800
unfolding parse_gtfs_time match_time groups sixtieth strip read_digits
accepted = refl

parse_stable_example :
    (28800 < 3600000) × ((format_gtfs_time (pos 28800) >>= parse_gtfs_time ascii) ≡ some 28800)
parse_stable_example =
    parse_stable ascii (32 ∷ b'8' ∷ b':' ∷ b'0' ∷ b'0' ∷ b':' ∷ b'0' ∷ b'0' ∷ []) 28800 accepted
