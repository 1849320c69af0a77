-- ===== src/Commuter/Journeys/Ended.antt =====
-- Journeys that have ended (src/metropulse/application/commuter/journeys.py).
use metropulse.Prelude.{
  ℕ, String, ◌≡◌, refl, ap, ◌∙◌, inl, inr, Bool, true, false, ◌&&◌, Option, none, some, List, [],
  ◌∷◌, ◌==◌, comparable_string, comparable_nat, Any, Any-append_left, Bool-cases, arith,
}
use metropulse.Commuter.Journeys.{
  Journey, Status, completed, missed, abandoned, Tables, Request, Published, Operation, start_it,
  complete_it, miss_it, abandon_it, is_active, is_active_for, is_open, supersede, first_unknown,
  begin_journey, begun, start, finish_rows, has_open, finish, complete, mark_missed, abandon,
  operate, operate_all, or_unchanged,
}

-- the row is in the table
abbrev pub IsRow : Journey → List Journey → Type 0
IsRow j js = Any (λ i. i ≡ j) js

not_selected :
    (owner : String) (i j : Journey)
    → is_active j.status ≡ false
    → i ≡ j
    → is_active_for owner i ≡ false
not_selected owner i j h same = ap (is_active_for owner) same ∙ rw h (both (j.user_id == owner))
  where
    both : (b : Bool) → (b && false) ≡ false
    both true = refl
    both false = refl

supersede-kept :
    (owner : String) (now : ℕ) (js : List Journey) (j : Journey)
    → is_active j.status ≡ false
    → IsRow j js
    → IsRow j (supersede owner now js)
unfolding supersede
supersede-kept owner now [] j h row = elim row [ ]
supersede-kept owner now (i ∷ js) j h (inl same) =
    rw (not_selected owner i j h same, Any) (inl same)
supersede-kept owner now (i ∷ js) j h (inr row) = elim (Bool-cases (is_active_for owner i)) [
  | inl e ↦ rw (e, Any) (inr row)
  | inr e ↦ rw (e, Any) (inr (supersede-kept owner now js j h row))
]

finish_rows-kept :
    (owner : String) (id : ℕ) (status : Status) (now : ℕ) (js : List Journey) (j : Journey)
    → is_active j.status ≡ false
    → IsRow j js
    → IsRow j (finish_rows owner id status now js)
unfolding finish_rows
finish_rows-kept owner id status now [] j h row = elim row [ ]
finish_rows-kept owner id status now (i ∷ js) j h (inl same) =
    elim (Bool-cases (is_open owner id i)) [
      | inl e ↦ absurd (open_is (not_selected owner i j h same) e)
      | inr e ↦ rw (e, Any) (inl same)
    ]
  where
    open_is : is_active_for owner i ≡ false → is_open owner id i ≡ true → ⊥
    open_is p q = absurd (ground arith)
finish_rows-kept owner id status now (i ∷ js) j h (inr row) =
    elim (Bool-cases (is_open owner id i)) [
      | inl e ↦ rw (e, Any) (inr row)
      | inr e ↦ rw (e, Any) (inr (finish_rows-kept owner id status now js j h row))
    ]

start-kept :
    (known : String → Bool) (request : Request) (now : ℕ) (tables : Tables) (j : Journey)
    → is_active j.status ≡ false
    → IsRow j tables.journeys
    → IsRow j (or_unchanged tables (start known request now tables)).journeys
unfolding start begin_journey
start-kept known request now tables j h row =
    elim (Bool-cases (request.origin_stop_id == request.destination_stop_id)) [
      | inl e ↦ rw e row
      | inr e ↦ rw e (
          begun-kept (
            first_unknown known (
              request.origin_stop_id ∷ request.destination_stop_id ∷ request.interchange_stop_ids)))
    ]
  where
    begun-kept :
        (o : Option String) → IsRow j (or_unchanged tables (begun o request now tables)).journeys
    begun-kept none =
        Any-append_left (λ i. i ≡ j) (supersede request.user_id now tables.journeys) _
          (supersede-kept request.user_id now tables.journeys j h row)
    begun-kept (some stop_id) = row

finish-kept :
    (owner : String) (id : ℕ) (status : Status) (auto : Bool) (announced : List Published) (now : ℕ)
    (tables : Tables) (j : Journey)
    → is_active j.status ≡ false
    → IsRow j tables.journeys
    → IsRow j (finish owner id status auto announced now tables).journeys
unfolding finish
finish-kept owner id status auto announced now tables j h row =
    elim (Bool-cases (has_open owner id tables.journeys)) [
      | inl e ↦ rw e (finish_rows-kept owner id status now tables.journeys j h row)
      | inr e ↦ rw e row
    ]

operate-kept :
    (known : String → Bool) (tables : Tables) (operation : Operation) (now : ℕ) (j : Journey)
    → is_active j.status ≡ false
    → IsRow j tables.journeys
    → IsRow j (operate known tables operation now).journeys
unfolding operate complete mark_missed abandon
operate-kept known tables (start_it request) now = start-kept known request now tables
operate-kept known tables (complete_it user id auto) now =
    finish-kept user id completed auto _ now tables
operate-kept known tables (miss_it user id) now = finish-kept user id missed true _ now tables
operate-kept known tables (abandon_it user id) now =
    finish-kept user id abandoned false [] now tables

-- Whatever is asked of the service, by whomever: a journey that is in the table and not active stays
-- there unchanged.
pub operate_all_kept :
    (known : String → Bool) (tables : Tables) (operations : List (Operation × ℕ)) (j : Journey)
    → is_active j.status ≡ false
    → IsRow j tables.journeys
    → IsRow j (operate_all known tables operations).journeys
unfolding operate_all
operate_all_kept known tables [] j h row = row
operate_all_kept known tables ((operation, now) ∷ rest) j h row =
    operate_all_kept known (operate known tables operation now) rest j h
      (operate-kept known tables operation now j h row)
