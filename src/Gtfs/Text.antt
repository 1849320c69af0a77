-- ===== src/Gtfs/Text.antt =====
-- Texts as lists of code points, with what Python's `str` and `re` ask the Unicode database, and
-- the decimal notation of `int` and of the format `02d`.
pub mod Decimal
pub mod Strip
use mathlib.Core.List.{reverse}
use metropulse.Prelude.{
  ℕ, zero, suc, ◌+◌, ◌-◌, ◌*◌, ◌/◌, ◌%◌, ◌<◌, ◌≡◌, refl, Bool, true, false, ◌&&◌, ◌||◌, Option,
  none, some, List, [], ◌∷◌, ◌++◌, arith, ltb, leb, nat_eqb, if◌then◌else◌, ◌>>=◌,
}

abbrev pub Text : Type 0
Text = List ℕ

-- Python's interpreter carries the database: `decimal` is the value of a character that `\d`
-- matches and `int` reads, `space` says what `str.strip` removes.
pub record Unicode : Type 0 where
  pub decimal : ℕ → Option ℕ
  pub space : ℕ → Bool
  pub decimal_lt : (c n : ℕ) → decimal c ≡ some n → n < 10
  pub decimal_ascii : (n : ℕ) → n < 10 → decimal (48 + n) ≡ some n
  pub space_digit : (n : ℕ) → n < 10 → space (48 + n) ≡ false
  pub space_colon : space 58 ≡ false

-- The database as far as ASCII goes.
abbrev ascii_decimal : ℕ → Option ℕ
ascii_decimal c = if leb 48 c && ltb c 58 then some (c - 48) else none

abbrev ascii_space : ℕ → Bool
ascii_space c = (leb 9 c && ltb c 14) || ((leb 28 c && ltb c 32) || nat_eqb c 32)

pub ascii_decimal_lt : (c n : ℕ) → ascii_decimal c ≡ some n → n < 10
ascii_decimal_lt c n h = ground arith

pub ascii_decimal_digit : (n : ℕ) → n < 10 → ascii_decimal (48 + n) ≡ some n
ascii_decimal_digit n h = ground arith

pub ascii_space_digit : (n : ℕ) → n < 10 → ascii_space (48 + n) ≡ false
ascii_space_digit n h = ground arith

abbrev pub ascii : Unicode
ascii = record {
  decimal = ascii_decimal;
  space = ascii_space;
  decimal_lt = ascii_decimal_lt;
  decimal_ascii = ascii_decimal_digit;
  space_digit = ascii_space_digit;
  space_colon = refl;
}

-- str(n), with fuel for its digits
unfoldable pub print_digits : ℕ → ℕ → Text
print_digits zero n = []
print_digits (suc fuel) n =
    let rest = print_digits fuel (n / 10) in
    if ltb n 10 then (48 + n) ∷ [] else rest ++ (48 + n % 10) ∷ []

-- f"{n:02d}"
unfoldable pub two_digits : ℕ → Text
two_digits n = if ltb n 10 then 48 ∷ (48 + n) ∷ [] else print_digits (suc n) n

module _ (u : Unicode) where
  lstrip : Text → Text
  lstrip [] = []
  lstrip (c ∷ t) = let rest = lstrip t in if u.space c then rest else c ∷ t

  -- value.strip()
  unfoldable pub strip : Text → Text
  unfolding lstrip
  strip t = reverse (lstrip (reverse (lstrip t)))

  -- int(text) of a text of decimal digits, none where a character is not one
  unfoldable pub read_digits : ℕ → Text → Option ℕ
  read_digits acc [] = some acc
  read_digits acc (c ∷ t) = do d ← u.decimal c; read_digits (acc * 10 + d) t
