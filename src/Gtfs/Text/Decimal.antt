-- ===== src/Gtfs/Text/Decimal.antt =====
-- Printed numbers: their digits, their length, and that `strip` leaves them alone.
use mathlib.Core.List.{reverse, reverse-cons, reverse-reverse}
use metropulse.Prelude.{
  ℕ, zero, suc, ◌+◌, ◌/◌, ◌%◌, ◌≤◌, ◌<◌, ◌≡◌, refl, ap, ◌∙◌, inl, inr, false, [], ◌∷◌, ◌++◌, arith,
  ltb, Bool-cases, length, length-append, All, All-append,
}
use metropulse.Gtfs.Text.{Text, Unicode, print_digits, two_digits, strip, lstrip}

pub print_digits-fuel : (f g n : ℕ) → n < f → n < g → print_digits f n ≡ print_digits g n
unfolding print_digits
print_digits-fuel zero g n h k = absurd (omega arith)
print_digits-fuel (suc f) zero n h k = absurd (omega arith)
print_digits-fuel (suc f) (suc g) n h k = elim (Bool-cases (ltb n 10)) [
  | inl e ↦ rw e
  | inr e ↦ rw e (
      ap (λ (t : Text). t ++ (48 + n % 10) ∷ [])
        (print_digits-fuel f g (n / 10) (ground arith) (ground arith)))
]

pub print_digits-step :
    (n : ℕ)
    → 9 < n
    → print_digits (suc n) n ≡ print_digits (suc (n / 10)) (n / 10) ++ (48 + n % 10) ∷ []
print_digits-step n h =
    unfold print_digits in
    rw ltb_big (
      ap (λ (t : Text). t ++ (48 + n % 10) ∷ [])
        (print_digits-fuel n (suc (n / 10)) (n / 10) (omega arith) (omega arith)))
  where
    ltb_big : ltb n 10 ≡ false
    ltb_big = ground arith

print_digits-one : (n : ℕ) → n < 10 → print_digits (suc n) n ≡ (48 + n) ∷ []
unfolding print_digits
print_digits-one n h = ground arith

two_digits-big : (n : ℕ) → 9 < n → two_digits n ≡ print_digits (suc n) n
unfolding two_digits
two_digits-big n h = ground arith

-- two and three digits
print_digits-two :
    (n : ℕ) → 9 < n → n < 100 → print_digits (suc n) n ≡ (48 + n / 10) ∷ (48 + n % 10) ∷ []
print_digits-two n h k = rw (print_digits-step n h, print_digits-one (n / 10) (omega arith))

pub two_digits-lt_hundred : (n : ℕ) → n < 100 → two_digits n ≡ (48 + n / 10) ∷ (48 + n % 10) ∷ []
two_digits-lt_hundred n h = elim (Bool-cases (ltb n 10)) [
  | inl e ↦ unfold two_digits in rw e (ground arith)
  | inr e ↦ two_digits-big n (ground arith) ∙ print_digits-two n (ground arith) h
]

pub two_digits-lt_thousand :
    (n : ℕ)
    → 99 < n
    → n < 1000
    → two_digits n ≡ (48 + n / 100) ∷ (48 + n / 10 % 10) ∷ (48 + n % 10) ∷ []
two_digits-lt_thousand n h k =
    rw
      (
        two_digits-big n (omega arith),
        print_digits-step n (omega arith),
        print_digits-two (n / 10) (omega arith) (omega arith),
      )
      (ground arith)

length-print_digits_step :
    (n : ℕ)
    → 9 < n
    → length (print_digits (suc n) n) ≡ length (print_digits (suc (n / 10)) (n / 10)) + 1
length-print_digits_step n h =
    rw (print_digits-step n h) (length-append (print_digits (suc (n / 10)) (n / 10)) _)

length-print_digits_pos : (n : ℕ) → 1 ≤ length (print_digits (suc n) n)
length-print_digits_pos n = elim (Bool-cases (ltb n 10)) [
  | inl e ↦ rw (print_digits-one n (ground arith)) (omega arith)
  | inr e ↦ omega (arith, length-print_digits_step n (ground arith))
]

-- four digits at least
pub length-two_digits : (n : ℕ) → 999 < n → 4 ≤ length (two_digits n)
length-two_digits n h = rw (two_digits-big n (omega arith)) (
    omega (
      arith,
      length-print_digits_step n (omega arith),
      length-print_digits_step (n / 10) (omega arith),
      length-print_digits_step (n / 10 / 10) (omega arith),
      length-print_digits_pos (n / 10 / 10 / 10),
    ))

-- digits are no spaces
module _ (u : Unicode) where
  abbrev pub Visible : Text → Type 0
  Visible = All (λ c. u.space c ≡ false)

  pub print_digits-Visible : (f n : ℕ) → Visible (print_digits f n)
  unfolding print_digits
  print_digits-Visible zero n = tt
  print_digits-Visible (suc f) n = elim (Bool-cases (ltb n 10)) [
    | inl e ↦ rw e (u.space_digit n (ground arith), tt)
    | inr e ↦ rw e (
        All-append _ (print_digits f (n / 10)) _ (print_digits-Visible f (n / 10))
          (u.space_digit (n % 10) (omega arith), tt))
  ]

  pub two_digits-Visible : (n : ℕ) → Visible (two_digits n)
  unfolding two_digits
  two_digits-Visible n = elim (Bool-cases (ltb n 10)) [
    | inl e ↦ rw e (u.space_digit 0 (omega arith), (u.space_digit n (ground arith), tt))
    | inr e ↦ rw e (print_digits-Visible (suc n) n)
  ]

  reverse-Visible : (t : Text) → Visible t → Visible (reverse t)
  reverse-Visible [] h = tt
  reverse-Visible (c ∷ t) h =
      rw (reverse-cons c t) (All-append _ (reverse t) (c ∷ []) (reverse-Visible t h.1) (h.0, tt))

  lstrip-Visible : (t : Text) → Visible t → lstrip u t ≡ t
  unfolding lstrip
  lstrip-Visible [] h = refl
  lstrip-Visible (c ∷ t) h = rw h.0

  -- A text with no space in it is not stripped.
  pub strip-Visible : (t : Text) → Visible t → strip u t ≡ t
  strip-Visible t h =
      unfold strip in
      rw (lstrip-Visible t h, lstrip-Visible (reverse t) (reverse-Visible t h)) (reverse-reverse t)
