-- ===== src/Gtfs/Text/Strip.antt =====
-- What `str.strip` leaves has no space at either end.
use mathlib.Core.List.{reverse, reverse-append, reverse-reverse}
use metropulse.Prelude.{ℕ, [], ◌∷◌, ◌++◌, ◌≡◌, refl, ap, ◌∙◌, false, Bool-cases, inl, inr}
use metropulse.Gtfs.Text.{Text, Unicode, strip, lstrip}

module _ (u : Unicode) where
  -- no space at the front
  abbrev Trimmed : Text → Type 0
  Trimmed [] = Unit
  Trimmed (c ∷ t) = u.space c ≡ false

  lstrip-Trimmed : (t : Text) → Trimmed (lstrip u t)
  unfolding lstrip
  lstrip-Trimmed [] = tt
  lstrip-Trimmed (c ∷ t) = elim (Bool-cases (u.space c)) [
    | inl e ↦ rw e (lstrip-Trimmed t)
    | inr e ↦ rw e e
  ]

  lstrip-of_Trimmed : (t : Text) → Trimmed t → lstrip u t ≡ t
  unfolding lstrip
  lstrip-of_Trimmed [] h = refl
  lstrip-of_Trimmed (c ∷ t) h = rw h refl

  lstrip-snoc :
      (t : Text) (c : ℕ) → u.space c ≡ false → lstrip u (t ++ c ∷ []) ≡ lstrip u t ++ c ∷ []
  unfolding lstrip
  lstrip-snoc [] c h = rw h refl
  lstrip-snoc (d ∷ t) c h = elim (Bool-cases (u.space d)) [
    | inl e ↦ rw e (lstrip-snoc t c h)
    | inr e ↦ rw e refl
  ]

  rstrip : Text → Text
  rstrip t = reverse (lstrip u (reverse t))

  rstrip-cons : (c : ℕ) (t : Text) → u.space c ≡ false → rstrip (c ∷ t) ≡ c ∷ rstrip t
  unfolding rstrip
  rstrip-cons c t h =
      rw
        (
          reverse-append (c ∷ []) t,
          lstrip-snoc (reverse t) c h,
          reverse-append (lstrip u (reverse t)) (c ∷ []),
        )
        refl

  rstrip-Trimmed : (t : Text) → Trimmed t → Trimmed (rstrip t)
  rstrip-Trimmed [] h = unfold rstrip lstrip in tt
  rstrip-Trimmed (c ∷ t) h = rw (rstrip-cons c t h) h

  rstrip-rstrip : (t : Text) → rstrip (rstrip t) ≡ rstrip t
  unfolding rstrip
  rstrip-rstrip t =
      rw
        (
          reverse-reverse (lstrip u (reverse t)),
          lstrip-of_Trimmed (lstrip u (reverse t)) (lstrip-Trimmed (reverse t)),
        )
        refl

  pub strip-strip : (t : Text) → strip u (strip u t) ≡ strip u t
  unfolding strip rstrip
  strip-strip t =
      ap (λ (x : Text). rstrip x)
        (lstrip-of_Trimmed (rstrip (lstrip u t)) (rstrip-Trimmed (lstrip u t) (lstrip-Trimmed t)))
      ∙ rstrip-rstrip (lstrip u t)
