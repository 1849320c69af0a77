-- ===== src/Commuter/Sessions/Runs.antt =====
-- Properties that each evaluation of a journey and each request of a user keeps, over a sequence of
-- them (src/metropulse/application/commuter/journey_session.py).
use mathlib.Core.Option.{some-injective}
use metropulse.Prelude.{
  ℕ, String, Bool, Option, none, some, List, [], ◌∷◌, ◌≡◌, refl, sym, ap, ◌∙◌, inl, inr, Bool-cases,
  ◌==◌, comparable_string, comparable_nat,
}
use metropulse.Prelude.Dict.{Dict}
use metropulse.Commuter.Journeys.{Operation, operate, Journey}
use metropulse.Commuter.Sessions.{
  Vehicle, Tracker, SessionOutcome, Sessions, row_of, evaluate_row, evaluate_all, evaluate_realtime,
  active_ids, Happening, cycle, request, happen, happen_all,
}
use metropulse.Commuter.Sessions.Outcomes.{Effect, evaluate-Effect}

row_of-id :
    (key : ℕ) (rows : List Journey) (journey : Journey)
    → row_of key rows ≡ some journey
    → journey.id ≡ key
unfolding row_of
row_of-id key [] journey e = cc
row_of-id key (row ∷ rows) journey e = elim (Bool-cases (row.id == key)) [
  | inl same ↦
      let found : row ≡ journey = some-injective row journey (sym (rw same) ∙ e) in
      ap (λ (j : Journey). j.id) (sym found) ∙ (comparable_nat.equal_iff row.id key).0 same
  | inr other ↦ row_of-id key rows journey (sym (rw other) ∙ e)
]

module _ (tracker : Tracker) where
  open tracker use {number}
  open number use {Num}

  module _ (P : Sessions Num → Type 0)
      (by_effect : (journey : Journey) (now : ℕ) (st : Sessions Num)
          (end : Option SessionOutcome × Sessions Num)
        → row_of journey.id st.tables.journeys ≡ some journey
        → P st
        → Effect tracker journey now st end
        → P end.1)
      (by_request : (known : String → Bool) (st : Sessions Num) (operation : Operation) (now : ℕ)
        → P st
        → P (record st { tables = operate known st.tables operation now })) where
    evaluate_all-rule :
        (ids : List ℕ) (now : ℕ) (snapshot : Dict String (Vehicle Num)) (st : Sessions Num)
        → P st
        → P (evaluate_all tracker ids now snapshot st).1
    unfolding evaluate_all evaluate_row
    evaluate_all-rule [] now snapshot st h = h
    evaluate_all-rule (key ∷ ids) now snapshot st h =
        evaluate_all-rule ids now snapshot _ (one (row_of key st.tables.journeys) refl)
      where
        one :
            (found : Option Journey)
            → row_of key st.tables.journeys ≡ found
            → P (evaluate_row tracker found now snapshot st).1
        one none e = h
        one (some journey) e =
            by_effect journey now st _
              (ap (λ (k : ℕ). row_of k st.tables.journeys)
                  (row_of-id key st.tables.journeys journey e)
                ∙ e)
              h (evaluate-Effect tracker journey now snapshot st)

    pub happen_all-rule :
        (known : String → Bool) (happenings : List (Happening tracker)) (st : Sessions Num)
        → P st
        → P (happen_all tracker known st happenings)
    unfolding happen_all happen evaluate_realtime
    happen_all-rule known [] st h = h
    happen_all-rule known (cycle now snapshot ∷ rest) st h =
        happen_all-rule known rest _
          (evaluate_all-rule (active_ids tracker st.tables.journeys) now snapshot st h)
    happen_all-rule known (request operation now ∷ rest) st h =
        happen_all-rule known rest _ (by_request known st operation now h)
