-- ===== src/Commuter/Sessions/Flags.antt =====
-- The flags in the payload of a journey, and what leaves them as they are.
use mathlib.Core.Option.{some-injective}
use metropulse.Prelude.{
  ℕ, String, Bool, true, false, Option, none, some, List, [], ◌∷◌, ◌++◌, ◌≡◌, refl, sym, ap, ◌∙◌,
  inl, inr, Bool-cases, if◌then◌else◌, ◌==◌, comparable_string, comparable_nat,
}
use metropulse.Commuter.Journeys.{
  completed, missed, abandoned, value_error, Journey, Status, Published, Tables, Operation,
  start_it, complete_it, miss_it, abandon_it, is_active_for, is_open, end_journey, supersede,
  finish_rows, finish, has_open, complete, mark_missed, abandon, begin_journey, begun, start,
  or_unchanged, operate, first_unknown,
}
use metropulse.Commuter.Sessions.{row_of, update_row}

-- the first row with this key has the flag
unfoldable pub has_flag : (Journey → Bool) → ℕ → List Journey → Bool
has_flag f id [] = false
has_flag f id (journey ∷ journeys) = if journey.id == id then f journey else has_flag f id journeys

-- A flag that nothing but an assignment to the payload changes, and that is not taken back.
module _ (f : Journey → Bool)
    (stays : (status : Status) (now : ℕ) (journey : Journey)
      → f (end_journey status now journey) ≡ f journey)
    (id : ℕ) where
  end_journey-has_flag :
      (status : Status) (now : ℕ) (journey : Journey) (rows : List Journey)
      → has_flag f id (end_journey status now journey ∷ rows) ≡ has_flag f id (journey ∷ rows)
  unfolding has_flag end_journey
  end_journey-has_flag status now journey rows =
      ap (λ (b : Bool). if journey.id == id then b else has_flag f id rows)
        (unfold end_journey in stays status now journey)

  under :
      (journey : Journey) (rows others : List Journey)
      → has_flag f id rows ≡ has_flag f id others
      → has_flag f id (journey ∷ rows) ≡ has_flag f id (journey ∷ others)
  unfolding has_flag
  under journey rows others h = ap (λ (b : Bool). if journey.id == id then f journey else b) h

  supersede-has_flag :
      (user_id : String) (now : ℕ) (rows : List Journey)
      → has_flag f id (supersede user_id now rows) ≡ has_flag f id rows
  unfolding supersede
  supersede-has_flag user_id now [] = refl
  supersede-has_flag user_id now (journey ∷ rows) =
      elim (Bool-cases (is_active_for user_id journey)) [
        | inl e ↦ rw e (end_journey-has_flag abandoned now journey rows)
        | inr e ↦ rw e (under journey _ rows (supersede-has_flag user_id now rows))
      ]

  finish_rows-has_flag :
      (user_id : String) (journey_id : ℕ) (status : Status) (now : ℕ) (rows : List Journey)
      → has_flag f id (finish_rows user_id journey_id status now rows) ≡ has_flag f id rows
  unfolding finish_rows
  finish_rows-has_flag user_id journey_id status now [] = refl
  finish_rows-has_flag user_id journey_id status now (journey ∷ rows) =
      elim (Bool-cases (is_open user_id journey_id journey)) [
        | inl e ↦ rw e (end_journey-has_flag status now journey rows)
        | inr e ↦
            rw e (under journey _ rows (finish_rows-has_flag user_id journey_id status now rows))
      ]

  pub finish-has_flag :
      (user_id : String) (journey_id : ℕ) (status : Status) (auto : Bool)
      (announced : List Published) (now : ℕ) (tables : Tables)
      → has_flag f id (finish user_id journey_id status auto announced now tables).journeys
        ≡ has_flag f id tables.journeys
  unfolding finish
  finish-has_flag user_id journey_id status auto announced now tables =
      elim (Bool-cases (has_open user_id journey_id tables.journeys)) [
        | inl e ↦ rw e (finish_rows-has_flag user_id journey_id status now tables.journeys)
        | inr e ↦ rw e refl
      ]

  append-has_flag :
      (rows more : List Journey) → has_flag f id rows ≡ true → has_flag f id (rows ++ more) ≡ true
  unfolding has_flag
  append-has_flag [] more h = cc
  append-has_flag (journey ∷ rows) more h = elim (Bool-cases (journey.id == id)) [
    | inl e ↦ rw e (sym (rw e) ∙ h)
    | inr e ↦ rw e (append-has_flag rows more (sym (rw e) ∙ h))
  ]

  -- What a user asks for takes no flag back.
  pub operate-has_flag :
      (known : String → Bool) (tables : Tables) (operation : Operation) (now : ℕ)
      → has_flag f id tables.journeys ≡ true
      → has_flag f id (operate known tables operation now).journeys ≡ true
  unfolding operate complete mark_missed abandon
  operate-has_flag known tables (complete_it user_id journey_id auto) now h =
      finish-has_flag user_id journey_id completed auto _ now tables ∙ h
  operate-has_flag known tables (miss_it user_id journey_id) now h =
      finish-has_flag user_id journey_id missed true _ now tables ∙ h
  operate-has_flag known tables (abandon_it user_id journey_id) now h =
      finish-has_flag user_id journey_id abandoned false [] now tables ∙ h
  operate-has_flag known tables (start_it asked) now h =
      unfold start in started (asked.origin_stop_id == asked.destination_stop_id)
    where
      begins :
          (stop : Option String)
          → has_flag f id (or_unchanged tables (begun stop asked now tables)).journeys ≡ true
      begins (some stop_id) = h
      begins none =
          unfold begin_journey in
          append-has_flag (supersede asked.user_id now tables.journeys) _
            (supersede-has_flag asked.user_id now tables.journeys ∙ h)

      started :
          (b : Bool)
          → has_flag f id
              (or_unchanged tables (
                if b
                then inl value_error
                else begun
                    (first_unknown known (
                      asked.origin_stop_id ∷ asked.destination_stop_id
                      ∷ asked.interchange_stop_ids))
                    asked
                    now
                    tables)).journeys
            ≡ true
      started true = h
      started false = begins _

-- The row of a key, and its flag after an assignment to the payload.
module _ (f : Journey → Bool) (g : Journey → Journey)
    (same_id : (journey : Journey) → (g journey).id ≡ journey.id) (id : ℕ) where
  pub row_of-has_flag :
      (rows : List Journey) (journey : Journey)
      → row_of id rows ≡ some journey
      → has_flag f id rows ≡ f journey
  unfolding row_of has_flag
  row_of-has_flag [] journey h = cc
  row_of-has_flag (row ∷ rows) journey h = elim (Bool-cases (row.id == id)) [
    | inl e ↦ rw e (ap f (some-injective _ _ (sym (rw e) ∙ h)))
    | inr e ↦ rw e (row_of-has_flag rows journey (sym (rw e) ∙ h))
  ]

  pub update_row-has_flag :
      ((journey : Journey) → f journey ≡ true → f (g journey) ≡ true)
      → (key : ℕ) (rows : List Journey) → has_flag f id rows ≡ true
      → has_flag f id (update_row key g rows) ≡ true
  unfolding update_row has_flag
  update_row-has_flag keeps key [] h = h
  update_row-has_flag keeps key (row ∷ rows) h = elim (Bool-cases (row.id == key)) [
    | inl e ↦ rw e (
        ap (λ (b : Bool). if b then f (g row) else has_flag f id rows)
          (ap (λ (k : ℕ). k == id) (same_id row))
        ∙ kept (row.id == id) h)
    | inr e ↦ rw e (rest (row.id == id) h (update_row-has_flag keeps key rows))
  ]
    where
      kept :
          (b : Bool)
          → (if b then f row else has_flag f id rows) ≡ true
          → (if b then f (g row) else has_flag f id rows) ≡ true
      kept true k = keeps row k
      kept false k = k

      rest :
          (b : Bool)
          → (if b then f row else has_flag f id rows) ≡ true
          → (has_flag f id rows ≡ true → has_flag f id (update_row key g rows) ≡ true)
          → (if b then f row else has_flag f id (update_row key g rows)) ≡ true
      rest true k again = k
      rest false k again = again k

  pub update_row-sets :
      ((journey : Journey) → f (g journey) ≡ true)
      → (rows : List Journey) (journey : Journey) → row_of id rows ≡ some journey
      → has_flag f id (update_row id g rows) ≡ true
  unfolding row_of update_row has_flag
  update_row-sets sets [] journey h = cc
  update_row-sets sets (row ∷ rows) journey h = elim (Bool-cases (row.id == id)) [
    | inl e ↦ rw e (
        ap (λ (b : Bool). if b then f (g row) else has_flag f id rows)
          (ap (λ (k : ℕ). k == id) (same_id row) ∙ e)
        ∙ sets row)
    | inr e ↦ rw e (
        ap (λ (b : Bool). if b then f row else has_flag f id (update_row id g rows)) e
        ∙ update_row-sets sets rows journey (sym (rw e) ∙ h))
  ]
