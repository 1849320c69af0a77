-- ===== src/Commuter/Sessions/Flagged.antt =====
-- The notifications of a kind about a journey, and the flag that says that one was sent.
use mathlib.Core.List.{append-nil}
use metropulse.Prelude.{
  ℕ, ◌+◌, ◌≤◌, String, Bool, true, false, Option, some, List, [], ◌∷◌, ◌++◌, ◌≡◌, refl, subst, ◌∙◌,
  inl, inr, arith, Bool-cases, if◌then◌else◌, comparable_string, comparable_nat, contains, length,
  filter, filter-append, length-append,
}
use metropulse.Trains.Resolver.{StationRef}
use metropulse.Commuter.Journeys.{abandoned, Journey, Status, end_journey}
use metropulse.Commuter.Sessions.{
  Tracker, SessionOutcome, Kind, Notification, Sessions, row_of, update_row, remember_interchange,
  remember_delay, ended, reminder, delay_notice, told_and_remembered, remind, warn, Happening,
  happen_all,
}
use metropulse.Commuter.Sessions.Outcomes.{is_end, Effect, unchanged, gone, told, reminded, warned}
use metropulse.Commuter.Sessions.Flags.{
  has_flag, finish-has_flag, operate-has_flag, row_of-has_flag, update_row-has_flag,
  update_row-sets,
}
use metropulse.Commuter.Sessions.Runs.{happen_all-rule}

abbrev pub count {ℓ} : {A : Type ℓ} → (A → Bool) → List A → ℕ
count p xs = length (filter p xs)

count-snoc :
    {A : Type 0} (p : A → Bool) (xs : List A) (x : A)
    → count p (xs ++ x ∷ []) ≡ count p xs + (if p x then 1 else 0)
count-snoc p xs x =
    rw (filter-append p xs (x ∷ [])) (length-append (filter p xs) (filter p (x ∷ [])) ∙ one (p x))
  where
    one :
        (b : Bool)
        → length (filter p xs) + length (if b then x ∷ [] else [])
          ≡ length (filter p xs) + (if b then 1 else 0)
    one true = refl
    one false = refl

module _ (tracker : Tracker) where
  open tracker use {number, trains, max_age, delay_notify_seconds}
  open number use {Num}

  -- A kind of notification about a journey, and the flag that says that it has been sent.
  module _ (f : Journey → Bool) (p : Notification Num → Bool) (id : ℕ) where
    abbrev bit : Bool → ℕ
    bit b = if b then 1 else 0

    abbrev IsFlagged : Sessions Num → Type 0
    IsFlagged st = count p st.notifications ≤ bit (has_flag f id st.tables.journeys)

    -- The assignment keeps the flag, and sets it if the notification is of the kind.
    abbrev Remembers : Journey → Notification Num → (Journey → Journey) → Type 0
    Remembers journey n g =
        ((j : Journey) → (g j).id ≡ j.id)
        × (((j : Journey) → f j ≡ true → f (g j) ≡ true)
            × (p n ≡ true
                → (journey.id ≡ id) × ((f journey ≡ false) × ((j : Journey) → f (g j) ≡ true))))

    at_most_kept : (a b : Bool) (n : ℕ) → n ≤ bit a → (a ≡ true → b ≡ true) → n ≤ bit b
    at_most_kept true b n h k = rw (k refl) h
    at_most_kept false b n h k = ground arith

    first_time :
        (a b q : Bool) (c d : ℕ)
        → d ≡ c + (if q then 1 else 0)
        → c ≤ bit a
        → a ≡ false
        → b ≡ true
        → d ≤ bit b
    first_time true b q c d e h k l = cc
    first_time false false q c d e h k l = cc
    first_time false true true c d e h k l = omega (arith, e, h)
    first_time false true false c d e h k l = omega (arith, e, h)

    remembered-IsFlagged :
        (journey : Journey) (n : Notification Num) (g : Journey → Journey) (st : Sessions Num)
        → Remembers journey n g
        → row_of journey.id st.tables.journeys ≡ some journey
        → IsFlagged st
        → IsFlagged (told_and_remembered tracker journey n g st)
    remembered-IsFlagged journey n g st (same_id, (keeps, sets)) row h = elim (Bool-cases (p n)) [
      | inr other ↦
          rw (count-snoc p st.notifications n, other)
            (omega (
              arith,
              at_most_kept _ _ _ h
                  (update_row-has_flag f g same_id id keeps journey.id st.tables.journeys),
            ))
      | inl mine ↦ fresh (sets mine)
    ]
      where
        fresh :
            (journey.id ≡ id) × ((f journey ≡ false) × ((j : Journey) → f (g j) ≡ true))
            → count p (st.notifications ++ n ∷ [])
              ≤ bit (has_flag f id (update_row journey.id g st.tables.journeys))
        fresh (same, (unset, set)) =
            first_time _ _ (p n) _ _ (count-snoc p st.notifications n) h
              (subst (λ (k : ℕ). has_flag f k st.tables.journeys ≡ false) same
                (row_of-has_flag f g same_id journey.id st.tables.journeys journey row ∙ unset))
              (subst (λ (k : ℕ). has_flag f k (update_row journey.id g st.tables.journeys) ≡ true)
                same (update_row-sets f g same_id journey.id set st.tables.journeys journey row))

    module _
        (stays : (status : Status) (now : ℕ) (journey : Journey)
          → f (end_journey status now journey) ≡ f journey)
        (ends : (kind : Kind) (journey : Journey)
          → is_end kind ≡ true
          → p (ended tracker kind journey) ≡ false)
        (reminds : (journey : Journey) (next : StationRef)
          → contains next.stop_id journey.notified_interchanges ≡ false
          → Remembers journey (reminder tracker journey next) (remember_interchange next.stop_id))
        (warns : (journey : Journey) (delay : Num)
          → journey.delay_notified ≡ false
          → Remembers journey (delay_notice tracker journey delay) remember_delay) where
      Effect-IsFlagged :
          (journey : Journey) (now : ℕ) (st : Sessions Num)
          (end : Option SessionOutcome × Sessions Num)
          → row_of journey.id st.tables.journeys ≡ some journey
          → IsFlagged st
          → Effect tracker journey now st end
          → IsFlagged end.1
      Effect-IsFlagged journey now st _ row h unchanged = h
      Effect-IsFlagged journey now st _ row h (gone auto announced) =
          rw
            (
              append-nil st.notifications,
              finish-has_flag f stays id journey.user_id journey.id abandoned auto announced now
                  st.tables,
            )
            h
      Effect-IsFlagged journey now st _ row h (told kind status auto announced e over) =
          rw
            (
              finish-has_flag f stays id journey.user_id journey.id status auto announced now
                  st.tables,
              count-snoc p st.notifications (ended tracker kind journey),
              ends kind journey e,
            )
            (omega (arith, h))
      Effect-IsFlagged journey now st _ row h (reminded next new) =
          unfold remind in remembered-IsFlagged journey _ _ st (reminds journey next new) row h
      Effect-IsFlagged journey now st _ row h (warned delay new) =
          unfold warn in remembered-IsFlagged journey _ _ st (warns journey delay new) row h

      pub happen_all-IsFlagged :
          (known : String → Bool) (happenings : List (Happening tracker)) (st : Sessions Num)
          → IsFlagged st
          → IsFlagged (happen_all tracker known st happenings)
      happen_all-IsFlagged =
          happen_all-rule tracker IsFlagged Effect-IsFlagged (λ known st operation now h.
            at_most_kept _ _ _ h (operate-has_flag f stays id known st.tables operation now))
