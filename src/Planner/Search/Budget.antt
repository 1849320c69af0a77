-- ===== src/Planner/Search/Budget.antt =====
-- The relaxations that the states not yet settled can still cause: the measure of the search loop.
use metropulse.Prelude.{
  ℕ, ◌+◌, ◌≤◌, ◌≡◌, inl, inr, true, false, List, [], ◌∷◌, if◌then◌else◌, Comparable, contains,
  key_cases, sym, ap, arith, ◌∙◌,
}

module _ {State : Type 0} ⦃keys : Comparable State⦄ (degree : State → ℕ) where
  unfoldable pub budget : List State → List State → ℕ
  budget [] settled = 0
  budget (u ∷ us) settled = (if contains u settled then 0 else degree u) + budget us settled

  pub budget-cons-le :
      (us settled : List State) (s : State) → budget us (s ∷ settled) ≤ budget us settled
  unfolding budget
  budget-cons-le [] settled s = omega arith
  budget-cons-le (u ∷ us) settled s = ground (arith, budget-cons-le us settled s)

  -- A settled state gives up what it could cause.
  pub budget-settle :
      (us settled : List State) (s : State)
      → contains s us ≡ true
      → contains s settled ≡ false
      → budget us (s ∷ settled) + degree s ≤ budget us settled
  unfolding budget
  budget-settle [] settled s h k = cc
  budget-settle (u ∷ us) settled s h k = elim (key_cases u s) [
    | inl same ↦
        let found : keys.equal s u ≡ true = (keys.equal_iff s u).1 (sym same) in
        let open_u : contains u settled ≡ false = ap (λ (x : State). contains x settled) same ∙ k in
        let size : degree u ≡ degree s = ap degree same in
        rw (found, open_u) (omega (arith, budget-cons-le us settled s))
    | inr other ↦ let rest = budget-settle us settled s (rw other at h) k in ground arith
  ]
