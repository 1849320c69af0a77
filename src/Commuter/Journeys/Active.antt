-- ===== src/Commuter/Journeys/Active.antt =====
-- The active journeys of a user (src/metropulse/application/commuter/journeys.py).
use metropulse.Prelude.{
  ℕ, suc, ◌+◌, ◌≤◌, String, ◌≡◌, refl, subst, inl, inr, Bool, true, false, Option, none, some, List,
  [], ◌∷◌, ◌++◌, if◌then◌else◌, ◌==◌, comparable_string, comparable_nat, Bool-cases, key_cases,
  arith,
}
use metropulse.Commuter.Journeys.{
  Journey, Status, completed, missed, abandoned, Tables, Request, Published, Operation, start_it,
  complete_it, miss_it, abandon_it, is_active, is_active_for, is_open, end_journey, supersede,
  first_unknown, new_journey, begin_journey, begun, start, finish_rows, has_open, finish, complete,
  mark_missed, abandon, operate, operate_all, or_unchanged,
}

-- how many active journeys the user has
unfoldable pub active_count : String → List Journey → ℕ
active_count user [] = 0
active_count user (j ∷ js) =
    let rest = active_count user js in if is_active_for user j then suc rest else rest

-- of every user one journey at most is active
abbrev pub IsSingle : List Journey → Type 0
IsSingle js = (user : String) → active_count user js ≤ 1

abbrev one_if : Bool → ℕ
one_if true = 1
one_if false = 0

active_count-append :
    (user : String) (js : List Journey) (j : Journey)
    → active_count user (js ++ j ∷ []) ≡ active_count user js + one_if (is_active_for user j)
unfolding active_count
active_count-append user [] j = ground arith
active_count-append user (i ∷ js) j = ground (arith, active_count-append user js j)

-- a journey that ends is active for nobody
end-inactive :
    (user : String) (status : Status) (now : ℕ) (j : Journey)
    → is_active status ≡ false
    → is_active_for user (end_journey status now j) ≡ false
unfolding end_journey
end-inactive user status now j h = elim (Bool-cases (j.user_id == user)) [
  | inl e ↦ rw (e, h) refl
  | inr e ↦ rw e refl
]

finish_rows-le :
    (user owner : String) (id : ℕ) (status : Status) (now : ℕ) (js : List Journey)
    → is_active status ≡ false
    → active_count user (finish_rows owner id status now js) ≤ active_count user js
unfolding active_count finish_rows
finish_rows-le user owner id status now [] h = omega arith
finish_rows-le user owner id status now (j ∷ js) h = elim (Bool-cases (is_open owner id j)) [
  | inl e ↦ rw (e, end-inactive user status now j h) (ground arith)
  | inr e ↦ rw e (ground (arith, finish_rows-le user owner id status now js h))
]

supersede-le :
    (user owner : String) (now : ℕ) (js : List Journey)
    → active_count user (supersede owner now js) ≤ active_count user js
unfolding active_count supersede
supersede-le user owner now [] = omega arith
supersede-le user owner now (j ∷ js) = elim (Bool-cases (is_active_for owner j)) [
  | inl e ↦ rw (e, end-inactive user abandoned now j refl) (ground arith)
  | inr e ↦ rw e (ground (arith, supersede-le user owner now js))
]

-- superseding leaves one active journey fewer, if there was one
supersede-owner :
    (owner : String) (now : ℕ) (js : List Journey)
    → active_count owner js ≤ 1
    → active_count owner (supersede owner now js) ≡ 0
unfolding active_count supersede
supersede-owner owner now [] h = refl
supersede-owner owner now (j ∷ js) h = elim (Bool-cases (is_active_for owner j)) [
  | inl e ↦ rw (e, end-inactive owner abandoned now j refl) (let h' = rw e at h in omega arith)
  | inr e ↦ rw (e, e) (supersede-owner owner now js (rw e at h))
]

begin-IsSingle :
    (request : Request) (now : ℕ) (tables : Tables)
    → IsSingle tables.journeys
    → IsSingle (begin_journey request now tables).journeys
unfolding begin_journey new_journey
begin-IsSingle request now tables single user =
    let js = tables.journeys in
    let added =
      active_count-append user (supersede request.user_id now js)
        (new_journey tables.next_id now request) in
    elim (key_cases request.user_id user) [
      | inl same ↦
          let none_left =
            subst (λ (u : String). active_count u (supersede request.user_id now js) ≡ 0) same
              (supersede-owner request.user_id now js (single request.user_id)) in
          omega (
            arith,
            added,
            none_left,
            one_at_most (is_active_for user (new_journey tables.next_id now request)),
          )
      | inr other ↦
          let others : one_if (is_active_for user (new_journey tables.next_id now request)) ≡ 0 =
            rw other refl in
          omega (arith, added, others, supersede-le user request.user_id now js, single user)
    ]
  where
    one_at_most : (b : Bool) → one_if b ≤ 1
    one_at_most true = omega arith
    one_at_most false = omega arith

start-IsSingle :
    (known : String → Bool) (request : Request) (now : ℕ) (tables : Tables)
    → IsSingle tables.journeys
    → IsSingle (or_unchanged tables (start known request now tables)).journeys
unfolding start
start-IsSingle known request now tables single =
    elim (Bool-cases (request.origin_stop_id == request.destination_stop_id)) [
      | inl e ↦ rw e single
      | inr e ↦ rw e (
          begun-IsSingle (
            first_unknown known (
              request.origin_stop_id ∷ request.destination_stop_id ∷ request.interchange_stop_ids)))
    ]
  where
    begun-IsSingle :
        (o : Option String) → IsSingle (or_unchanged tables (begun o request now tables)).journeys
    begun-IsSingle none = begin-IsSingle request now tables single
    begun-IsSingle (some stop_id) = single

pub finish-IsSingle :
    (owner : String) (id : ℕ) (status : Status) (auto : Bool) (announced : List Published) (now : ℕ)
    (tables : Tables)
    → is_active status ≡ false
    → IsSingle tables.journeys
    → IsSingle (finish owner id status auto announced now tables).journeys
unfolding finish
finish-IsSingle owner id status auto announced now tables h single user =
    elim (Bool-cases (has_open owner id tables.journeys)) [
      | inl e ↦
          rw e
            (omega (arith, finish_rows-le user owner id status now tables.journeys h, single user))
      | inr e ↦ rw e (single user)
    ]

pub operate-IsSingle :
    (known : String → Bool) (tables : Tables) (operation : Operation) (now : ℕ)
    → IsSingle tables.journeys
    → IsSingle (operate known tables operation now).journeys
unfolding operate complete mark_missed abandon
operate-IsSingle known tables (start_it request) now single =
    start-IsSingle known request now tables single
operate-IsSingle known tables (complete_it user id auto) now single =
    finish-IsSingle user id completed auto _ now tables refl single
operate-IsSingle known tables (miss_it user id) now single =
    finish-IsSingle user id missed true _ now tables refl single
operate-IsSingle known tables (abandon_it user id) now single =
    finish-IsSingle user id abandoned false [] now tables refl single

-- Whatever is asked of the service, by whomever: if no user has two active journeys, no user comes
-- to have two.
pub operate_all-IsSingle :
    (known : String → Bool) (tables : Tables) (operations : List (Operation × ℕ))
    → IsSingle tables.journeys
    → IsSingle (operate_all known tables operations).journeys
unfolding operate_all
operate_all-IsSingle known tables [] single = single
operate_all-IsSingle known tables ((operation, now) ∷ rest) single =
    operate_all-IsSingle known (operate known tables operation now) rest
      (operate-IsSingle known tables operation now single)
