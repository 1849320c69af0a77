-- ===== src/Gtfs/Time.antt =====
-- src/metropulse/domain/gtfs_time.py: `parse_gtfs_time` and `format_gtfs_time`. `none` is ValueError.
pub mod Roundtrip
pub mod Examples
use metropulse.Prelude.{
  ℕ, ◌+◌, ◌-◌, ◌*◌, ◌/◌, ◌%◌, ◌&&◌, Option, none, some, [], ◌∷◌, ◌++◌, ◌≡◌, refl, leb, nat_eqb,
  if◌then◌else◌, ◌>>=◌,
}
use metropulse.Prelude.Int.{ℤ, pos, negsuc}
use metropulse.Gtfs.Text.{Text, Unicode, strip, read_digits, two_digits}

module _ (u : Unicode) where
  -- `([0-5]\d)` and `int` of what it matched
  unfoldable pub sixtieth : ℕ → ℕ → Option ℕ
  sixtieth tens units =
      if leb b'0' tens && leb tens b'5'
      then (do d ← u.decimal units; some ((tens - b'0') * 10 + d))
      else none

  -- The groups of one match, as seconds. The matched text is a run of hour digits, then
  -- `:`, two digits, `:`, two digits.
  unfoldable pub groups : Text → ℕ → ℕ → ℕ → ℕ → ℕ → ℕ → Option ℕ
  groups hours c m1 m2 d s1 s2 =
      if nat_eqb c b':' && nat_eqb d b':'
      then (do
        h ← read_digits u 0 hours
        m ← sixtieth m1 m2
        s ← sixtieth s1 s2
        some (h * 3600 + m * 60 + s))
      else none

  -- `^(\d{1,3}):([0-5]\d):([0-5]\d)$`: one, two or three hour digits
  unfoldable pub match_time : Text → Option ℕ
  match_time (a ∷ c ∷ m1 ∷ m2 ∷ d ∷ s1 ∷ s2 ∷ []) = groups (a ∷ []) c m1 m2 d s1 s2
  match_time (a ∷ b ∷ c ∷ m1 ∷ m2 ∷ d ∷ s1 ∷ s2 ∷ []) = groups (a ∷ b ∷ []) c m1 m2 d s1 s2
  match_time (a ∷ b ∷ e ∷ c ∷ m1 ∷ m2 ∷ d ∷ s1 ∷ s2 ∷ []) = groups (a ∷ b ∷ e ∷ []) c m1 m2 d s1 s2
  match_time _ = none

  unfoldable pub parse_gtfs_time : Text → Option ℕ
  parse_gtfs_time value = match_time (strip u value)

-- hours, minutes and seconds by two `divmod`s
unfoldable pub format_gtfs_time : ℤ → Option Text
format_gtfs_time (negsuc n) = none
format_gtfs_time (pos seconds) =
    let remainder = seconds % 3600 in
    some (
      two_digits (seconds / 3600)
      ++ (b':' ∷ (two_digits (remainder / 60) ++ (b':' ∷ two_digits (remainder % 60)))))
