-- ===== src/Planner/Number.antt =====
-- Python's `float`, which src/metropulse/application/journey_planner.py counts seconds in. The laws
-- are those of IEEE arithmetic away from NaN: sums are rounded, so they are neither associative nor
-- strictly monotone, and none of that is assumed.
use metropulse.Prelude.{ℕ, ◌+◌, ◌*◌, ◌≡◌, Bool, true, false, arith, ltb, Bool-cases, inl, inr}
use metropulse.Prelude.Int.{ℤ, pos_part}

pub record Number : Type 1 where
  pub Num : Type 0
  pub zero : Num
  pub plus : Num → Num → Num
  pub times : Num → Num → Num
  pub lt : Num → Num → Bool
  pub of_int : ℤ → Num
  pub lt_irrefl : (a : Num) → lt a a ≡ false
  pub lt_asymm : (a b : Num) → lt a b ≡ true → lt b a ≡ false
  -- a ≤ b and b ≤ c give a ≤ c, where a ≤ b says that b < a is false
  pub at_most_trans : (a b c : Num) → lt b a ≡ false → lt c b ≡ false → lt c a ≡ false
  pub plus_mono : (a b c : Num) → lt b a ≡ false → lt (plus b c) (plus a c) ≡ false
  pub plus_grows : (a b : Num) → lt b zero ≡ false → lt (plus a b) a ≡ false

module _ (number : Number) where
  open number use {Num, lt, lt_irrefl, lt_asymm, at_most_trans}

  abbrev pub AtMost : Num → Num → Type 0
  AtMost a b = lt b a ≡ false

  pub lt-of_lt_at_most : (a b c : Num) → lt a b ≡ true → AtMost b c → lt a c ≡ true
  lt-of_lt_at_most a b c h k = elim (Bool-cases (lt a c)) [
    | inl e ↦ e
    | inr e ↦ cc (at_most_trans b c a k e)
  ]

-- Whole seconds meet the laws.
pub whole_seconds_trans : (a b c : ℕ) → ltb b a ≡ false → ltb c b ≡ false → ltb c a ≡ false
whole_seconds_trans a b c h k = ground arith

pub whole_seconds_mono : (a b c : ℕ) → ltb b a ≡ false → ltb (b + c) (a + c) ≡ false
whole_seconds_mono a b c h = ground arith

pub whole_seconds_grow : (a b : ℕ) → ltb b 0 ≡ false → ltb (a + b) a ≡ false
whole_seconds_grow a b h = ground arith

pub whole_seconds_irrefl : (a : ℕ) → ltb a a ≡ false
whole_seconds_irrefl a = ground arith

pub whole_seconds_asymm : (a b : ℕ) → ltb a b ≡ true → ltb b a ≡ false
whole_seconds_asymm a b h = ground arith

abbrev pub whole_seconds : Number
whole_seconds = record {
  Num = ℕ;
  zero = 0;
  plus = λ a b. a + b;
  times = λ a b. a * b;
  lt = ltb;
  of_int = pos_part;
  lt_irrefl = whole_seconds_irrefl;
  lt_asymm = whole_seconds_asymm;
  at_most_trans = whole_seconds_trans;
  plus_mono = whole_seconds_mono;
  plus_grows = whole_seconds_grow;
}
