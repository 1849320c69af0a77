-- ===== src/Commuter/Sessions/Once.antt =====
-- How often a user is told of a delay or an interchange
-- (src/metropulse/application/commuter/journey_session.py).
use metropulse.Prelude.{
  ℕ, ◌≤◌, String, Bool, true, false, ◌&&◌, Option, none, some, List, [], ◌∷◌, ◌≡◌, refl, subst, ◌∙◌,
  arith, nat_eqb_iff, if◌then◌else◌, ◌==◌, comparable_string, comparable_nat, contains,
  contains-append, or_left, or_right, not_both,
}
use metropulse.Trains.Resolver.{StationRef}
use metropulse.Commuter.Journeys.{Journey, Tables, end_journey}
use metropulse.Commuter.Sessions.{
  Tracker, Kind, journey_completed, missed_stop, interchange_reminder, journey_delay, Notification,
  Sessions, remember_interchange, remember_delay, ended, reminder, delay_notice, Happening,
  happen_all,
}
use metropulse.Commuter.Sessions.Outcomes.{is_end}
use metropulse.Commuter.Sessions.Flagged.{count, happen_all-IsFlagged}

module _ (tracker : Tracker) where
  open tracker use {number, trains, max_age, delay_notify_seconds}
  open number use {Num}

  abbrev is_delay_kind : Kind → Bool
  is_delay_kind journey_delay = true
  is_delay_kind _ = false

  abbrev is_reminder_kind : Kind → Bool
  is_reminder_kind interchange_reminder = true
  is_reminder_kind _ = false

  abbrev is_at : String → Option String → Bool
  is_at stop_id none = false
  is_at stop_id (some other) = other == stop_id

  -- the notifications of a delay of this journey
  abbrev pub is_delay_of : ℕ → Notification Num → Bool
  is_delay_of id n = is_delay_kind n.kind && n.journey_id == id

  -- the reminders of this interchange of this journey
  abbrev pub is_reminder_of : ℕ → String → Notification Num → Bool
  is_reminder_of id stop_id n =
      is_reminder_kind n.kind && (n.journey_id == id && is_at stop_id n.stop_id)

  ended-is_delay :
      (id : ℕ) (kind : Kind) (journey : Journey)
      → is_end kind ≡ true
      → is_delay_of id (ended tracker kind journey) ≡ false
  unfolding ended
  ended-is_delay id journey_completed journey h = refl
  ended-is_delay id missed_stop journey h = refl
  ended-is_delay id interchange_reminder journey h = cc
  ended-is_delay id journey_delay journey h = cc

  ended-is_reminder :
      (id : ℕ) (stop_id : String) (kind : Kind) (journey : Journey)
      → is_end kind ≡ true
      → is_reminder_of id stop_id (ended tracker kind journey) ≡ false
  unfolding ended
  ended-is_reminder id stop_id journey_completed journey h = refl
  ended-is_reminder id stop_id missed_stop journey h = refl
  ended-is_reminder id stop_id interchange_reminder journey h = cc
  ended-is_reminder id stop_id journey_delay journey h = cc

  at_most_one : (b : Bool) (n : ℕ) → n ≤ (if b then 1 else 0) → n ≤ 1
  at_most_one b n k = ground arith

  nothing : (b : Bool) (n : ℕ) → n ≤ 0 → n ≤ (if b then 1 else 0)
  nothing b n k = ground arith

  delay_once :
      (known : String → Bool) (happenings : List (Happening tracker)) (st : Sessions Num) (id : ℕ)
      → count (is_delay_of id) st.notifications ≤ 0
      → count (is_delay_of id) (happen_all tracker known st happenings).notifications ≤ 1
  unfolding end_journey reminder delay_notice remember_interchange remember_delay
  delay_once known happenings st id h = at_most_one _ _ (
      happen_all-IsFlagged tracker (λ j. j.delay_notified) (is_delay_of id) id
        (λ status now j. refl) (ended-is_delay id)
        (λ j next new. (λ k. refl, (λ k e. e, λ e. not_both e refl)))
        (λ j delay new.
          (λ k. refl, (λ k e. refl, λ e. ((nat_eqb_iff j.id id).0 e, (new, λ k. refl)))))
        known happenings st (nothing _ _ h))

  remembers :
      (stop_id other : String) (journey : Journey)
      → contains stop_id journey.notified_interchanges ≡ true
      → contains stop_id (remember_interchange other journey).notified_interchanges ≡ true
  unfolding remember_interchange
  remembers stop_id other journey h =
      contains-append stop_id journey.notified_interchanges (other ∷ []) ∙ or_left _ _ h

  is_remembered :
      (stop_id other : String) (journey : Journey)
      → (other == stop_id) ≡ true
      → contains stop_id (remember_interchange other journey).notified_interchanges ≡ true
  unfolding remember_interchange
  is_remembered stop_id other journey h =
      contains-append stop_id journey.notified_interchanges (other ∷ [])
      ∙ or_right _ (or_left _ _ h)

  both_true : (a b : Bool) → (a && b) ≡ true → (a ≡ true) × (b ≡ true)
  both_true a b h = ground arith

  reminder_once :
      (known : String → Bool) (happenings : List (Happening tracker)) (st : Sessions Num) (id : ℕ)
      (stop_id : String)
      → count (is_reminder_of id stop_id) st.notifications ≤ 0
      → count (is_reminder_of id stop_id) (happen_all tracker known st happenings).notifications ≤ 1
  unfolding end_journey reminder delay_notice remember_delay
  reminder_once known happenings st id stop_id h = at_most_one _ _ (
      happen_all-IsFlagged tracker (λ j. contains stop_id j.notified_interchanges)
        (is_reminder_of id stop_id) id (λ status now j. refl) (ended-is_reminder id stop_id)
        (λ j next new. (
          λ k. unfold remember_interchange in refl,
          (λ k e. remembers stop_id next.stop_id k e, λ e. about j next new (both_true _ _ e)),
        ))
        (λ j delay new. (λ k. refl, (λ k e. e, λ e. not_both e refl))) known happenings st
        (nothing _ _ h))
    where
      about :
          (j : Journey) (next : StationRef)
          → contains next.stop_id j.notified_interchanges ≡ false
          → ((j.id == id) ≡ true) × ((next.stop_id == stop_id) ≡ true)
          → (j.id ≡ id)
            × ((contains stop_id j.notified_interchanges ≡ false)
                × ((k : Journey)
                    → contains stop_id (remember_interchange next.stop_id k).notified_interchanges
                      ≡ true))
      about j next new (key, same) = (
        (nat_eqb_iff j.id id).0 key,
        (
          subst (λ (s : String). contains s j.notified_interchanges ≡ false)
              ((comparable_string.equal_iff next.stop_id stop_id).0 same) new,
          λ k. is_remembered stop_id next.stop_id k same,
        ),
      )

  -- Nobody is told twice: from any tables and no notifications, through any cycles of the worker with
  -- any snapshots and any requests of users in between, in any order, there is at most one
  -- notification of a delay about each journey, and at most one reminder of each interchange of it.
  pub happen_all_once :
      (known : String → Bool) (tables : Tables) (happenings : List (Happening tracker)) (id : ℕ)
      → (count
            (is_delay_of id)
            (happen_all tracker known
              (record { tables = tables; notifications = [] })
              happenings).notifications
          ≤ 1)
        × ((stop_id : String)
            → count
                (is_reminder_of id stop_id)
                (happen_all tracker known
                  (record { tables = tables; notifications = [] })
                  happenings).notifications
              ≤ 1)
  happen_all_once known tables happenings id = (
    delay_once known happenings (record { tables = tables; notifications = [] }) id (omega arith),
    λ stop_id.
        reminder_once known happenings (record { tables = tables; notifications = [] }) id stop_id
          (omega arith),
  )
