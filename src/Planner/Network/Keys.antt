-- ===== src/Planner/Network/Keys.antt =====
-- The keys of patterns and the states of the search, which are Python tuples compared by `==`
-- (src/metropulse/application/journey_planner.py).
use metropulse.Prelude.{
  ℕ, String, ◌≡◌, ◌↔◌, Bool, true, false, ◌&&◌, arith, Comparable, nat_eqb, comparable_string,
}
use metropulse.Prelude.Int.{ℤ, int_eqb, int_eqb_iff}
use text.Mathlib.Text.{◌==◌ as str_eq}
use text.Mathlib.TextEquality.{eq_iff}

-- (route_id, direction bucket)
abbrev pub PatternKey : Type 0
PatternKey = String × ℤ

abbrev pub key_equal : PatternKey → PatternKey → Bool
key_equal (r, d) (s, e) = str_eq r s && int_eqb d e

pub key_equal_iff : (x y : PatternKey) → (key_equal x y ≡ true) ↔ (x ≡ y)
key_equal_iff (r, d) (s, e) = ground (arith, eq_iff r s, int_eqb_iff d e)

instance abbrev pub comparable_key : Comparable PatternKey
comparable_key = record { equal = key_equal; equal_iff = key_equal_iff }

-- off the train at a stop, or on a train at a stop of its pattern
pub data State : Type 0 where
  at : String → State
  on : PatternKey → ℕ → State

abbrev pub state_equal : State → State → Bool
state_equal (at s) (at t) = str_eq s t
state_equal (on k i) (on l j) = key_equal k l && nat_eqb i j
state_equal _ _ = false

pub state_equal_iff : (x y : State) → (state_equal x y ≡ true) ↔ (x ≡ y)
state_equal_iff (at s) (at t) = ground (arith, eq_iff s t)
state_equal_iff (at s) (on l j) = (λ h. cc, λ h. cc)
state_equal_iff (on k i) (at t) = (λ h. cc, λ h. cc)
state_equal_iff (on k i) (on l j) = ground (arith, key_equal_iff k l)

instance abbrev pub comparable_state : Comparable State
comparable_state = record { equal = state_equal; equal_iff = state_equal_iff }
