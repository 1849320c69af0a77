-- ===== src/Gtfs/Date.antt =====
-- src/metropulse/domain/gtfs_time.py: `parse_gtfs_date`, with the constructor of Python's
-- `datetime.date`. `none` is ValueError.
pub mod Roundtrip
pub mod Examples
use metropulse.Prelude.{
  ℕ, ◌%◌, Bool, ◌&&◌, ◌||◌, not, Option, none, some, [], ◌∷◌, leb, nat_eqb, if◌then◌else◌, ◌>>=◌,
}
use metropulse.Gtfs.Text.{Text, Unicode, strip, read_digits}

-- a day of the proleptic Gregorian calendar
pub record Date : Type 0 where
  pub year : ℕ
  pub month : ℕ
  pub day : ℕ

abbrev pub is_leap : ℕ → Bool
is_leap y = nat_eqb (y % 4) 0 && (not (nat_eqb (y % 100) 0) || nat_eqb (y % 400) 0)

abbrev pub days_in_month : ℕ → ℕ → ℕ
days_in_month y m =
    if nat_eqb m 2
    then (if is_leap y then 29 else 28)
    else if nat_eqb m 4 || (nat_eqb m 6 || (nat_eqb m 9 || nat_eqb m 11))
    then 30
    else 31

-- what `date(year, month, day)` checks
abbrev pub is_date : ℕ → ℕ → ℕ → Bool
is_date y m d =
    (leb 1 y && leb y 9999) && ((leb 1 m && leb m 12) && (leb 1 d && leb d (days_in_month y m)))

unfoldable pub date : ℕ → ℕ → ℕ → Option Date
date y m d = if is_date y m d then some (record { year = y; month = m; day = d }) else none

module _ (u : Unicode) where
  -- `isdigit` and the three calls of `int`: both refuse a character that is no decimal digit
  unfoldable pub date_fields : Text → Option Date
  date_fields (a ∷ b ∷ c ∷ d ∷ e ∷ f ∷ g ∷ h ∷ []) = do
    year ← read_digits u 0 (a ∷ b ∷ c ∷ d ∷ [])
    month ← read_digits u 0 (e ∷ f ∷ [])
    day ← read_digits u 0 (g ∷ h ∷ [])
    date year month day
  date_fields _ = none

  unfoldable pub parse_gtfs_date : Text → Option Date
  unfolding date_fields
  parse_gtfs_date value = date_fields (strip u value)
