-- ===== src/Gtfs/Date/Roundtrip.antt =====
-- Which texts of eight digits `parse_gtfs_date` accepts (src/metropulse/domain/gtfs_time.py).
use metropulse.Prelude.{ℕ, ◌+◌, ◌/◌, ◌%◌, ◌<◌, ◌≡◌, none, some, [], ◌∷◌, arith, if◌then◌else◌}
use metropulse.Gtfs.Text.{Text, Unicode, read_digits}
use metropulse.Gtfs.Text.Decimal.{strip-Visible}
use metropulse.Gtfs.Date.{is_date, date, parse_gtfs_date}

-- YYYYMMDD
abbrev pub digits_of : ℕ → ℕ → ℕ → Text
digits_of y m d =
    (48 + y / 1000)
    ∷ (48 + y / 100 % 10)
    ∷ (48 + y / 10 % 10)
    ∷ (48 + y % 10)
    ∷ (48 + m / 10)
    ∷ (48 + m % 10)
    ∷ (48 + d / 10)
    ∷ (48 + d % 10)
    ∷ []

module _ (u : Unicode) where
  read_digits-two :
      (n : ℕ) → n < 100 → read_digits u 0 ((48 + n / 10) ∷ (48 + n % 10) ∷ []) ≡ some n
  unfolding read_digits
  read_digits-two n h =
      rw (u.decimal_ascii (n / 10) (omega arith), u.decimal_ascii (n % 10) (omega arith))
        (ground arith)

  read_digits-four :
      (n : ℕ)
      → n < 10000
      → read_digits u 0
          ((48 + n / 1000) ∷ (48 + n / 100 % 10) ∷ (48 + n / 10 % 10) ∷ (48 + n % 10) ∷ [])
        ≡ some n
  unfolding read_digits
  read_digits-four n h =
      rw
        (
          u.decimal_ascii (n / 1000) (omega arith),
          u.decimal_ascii (n / 100 % 10) (omega arith),
          u.decimal_ascii (n / 10 % 10) (omega arith),
          u.decimal_ascii (n % 10) (omega arith),
        )
        (ground arith)

  -- A text YYYYMMDD of ASCII digits is parsed to the date that it names, if the calendar has that
  -- date (years from 1, months to 12, days to the month's length, leap years included), and is
  -- refused if not.
  pub parse-digits_of :
      (y m d : ℕ)
      → y < 10000
      → m < 100
      → d < 100
      → parse_gtfs_date u (digits_of y m d)
        ≡ (if is_date y m d then some (record { year = y; month = m; day = d }) else none)
  unfolding parse_gtfs_date date
  parse-digits_of y m d hy hm hd = rw (
    strip-Visible u (digits_of y m d) (
      u.space_digit _ (omega arith),
      (
        u.space_digit _ (omega arith),
        (
          u.space_digit _ (omega arith),
          (
            u.space_digit _ (omega arith),
            (
              u.space_digit _ (omega arith),
              (
                u.space_digit _ (omega arith),
                (u.space_digit _ (omega arith), (u.space_digit _ (omega arith), tt)),
              ),
            ),
          ),
        ),
      ),
    ),
    read_digits-four y hy,
    read_digits-two m hm,
    read_digits-two d hd,
  )
