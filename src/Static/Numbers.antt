-- ===== src/Static/Numbers.antt =====
-- Python's `int` and `float` of a text, which src/metropulse/application/validation.py tries and
-- src/metropulse/application/static_loader.py calls. `none` is ValueError.
use metropulse.Prelude.{
  ℕ, ◌+◌, ◌*◌, Bool, true, false, ◌&&◌, Option, none, some, List, [], ◌∷◌, leb, nat_eqb,
  if◌then◌else◌, ◌>>=◌, length,
}
use metropulse.Prelude.Int.{ℤ, pos, sub_ℕ}
use metropulse.Gtfs.Text.{Text, Unicode, strip}

-- the value of digits, the first one first
unfoldable pub value_of : ℕ → List ℕ → ℕ
value_of acc [] = acc
value_of acc (d ∷ digits) = value_of (acc * 10 + d) digits

module _ (u : Unicode) where
  -- The digits of a number, with a single `_` allowed between two of them. The test says whether a
  -- digit came just before.
  unfoldable pub digits_of : Bool → Text → Option (List ℕ)
  digits_of after [] = if after then some [] else none
  digits_of after (c ∷ t) =
      if nat_eqb c b'_' && after
      then digits_of false t
      else (do d ← u.decimal c; digits ← digits_of true t; some (d ∷ digits))

  -- `int` refuses more than 4300 digits.
  unfoldable pub magnitude : Text → Option ℕ
  magnitude t = do
    digits ← digits_of false t
    if leb (length digits) 4300 then some (value_of 0 digits) else none

  unfoldable pub signed : Text → Option ℤ
  signed [] = none
  signed (c ∷ t) =
      if nat_eqb c b'-'
      then (do n ← magnitude t; some (sub_ℕ 0 n))
      else if nat_eqb c b'+'
      then (do n ← magnitude t; some (pos n))
      else (do n ← magnitude (c ∷ t); some (pos n))

  -- int(value)
  unfoldable pub int : Text → Option ℤ
  int value = signed (strip u value)

-- Python's `float`: `float(value)`, the comparison `<=`, and the conversion of an integer literal.
pub record Float : Type 1 where
  pub Num : Type 0
  pub float : Text → Option Num
  pub at_most : Num → Num → Bool
  pub of_int : ℤ → Num
