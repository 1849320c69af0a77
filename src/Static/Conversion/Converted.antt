-- ===== src/Static/Conversion/Converted.antt =====
-- A row that the validation found no error in is converted if its optional number is read, and what
-- it becomes has the keys of the row.
use mathlib.Core.Option.{some-injective}
use metropulse.Prelude.{
  ℕ, inl, inr, Bool-cases, ◌==◌, ◌+◌, ◌<◌, nat_eqb, Bool, true, false, ◌||◌, Option, some, [], ◌∷◌,
  ◌≡◌, refl, sym, subst, ap, ◌∙◌, arith, ◌>>=◌, contains, comparable_nat, bind_some,
}
use metropulse.Prelude.Equality.{comparable_list}
use metropulse.Prelude.Int.{ℤ, pos}
use metropulse.Gtfs.Text.{Text, Unicode, strip}
use metropulse.Gtfs.Text.Strip.{strip-strip}
use metropulse.Static.Numbers.{int, signed, magnitude, digits_of, value_of}
use metropulse.Static.Rows.{RawRow, get}
use metropulse.Static.Columns.{columns_of}
use metropulse.Static.Checks.{is_some, is_int, text}
use metropulse.Static.Validation.Quiet.{some-of_is_some}
use metropulse.Static.Validation.Valid.{IsValidRoute, IsValidCalendar, IsValidCalendarDate}
use metropulse.Static.Conversion.{
  agency_row_of, route_row_of, calendar_row_of, calendar_date_row_of, or_else, or_maybe, optional,
}
use metropulse.Static.Conversion.Fields.{
  IsComplete, field-get, int_at-int, date_at-some, runs_on-some, text-get,
}

-- The conversion gives a row that is related to the raw one, once `needs` is read.
abbrev pub ConvertsBy :
    {A : Type 0} {B : Type 0} → (RawRow → Option A) → Option B → (A → Type 0) → RawRow → Type 0
ConvertsBy {A} {B} convert needs Q row =
    (f : B → A) × ((convert row ≡ (needs >>= (λ b. some (f b))))
      × ((b : B) → needs ≡ some b → Q (f b)))

module _ {A : Type 0} {B : Type 0} (convert : RawRow → Option A) (needs : Option B) (Q : A → Type 0)
    (row : RawRow) (by : ConvertsBy convert needs Q row) where
  pub converted-related : (a : A) → convert row ≡ some a → Q a
  converted-related a h =
      let (b, read, made) = bind_some needs (λ b. some (by.0 b)) a (sym by.1.0 ∙ h) in
      subst Q (some-injective _ _ made) (by.1.1 b read)

  pub converted-total : is_some needs ≡ true → (a : A) × (convert row ≡ some a)
  converted-total h = let (b, read) = some-of_is_some needs h in (by.0 b, by.1.0 ∙ rw read refl)

module _ (u : Unicode) where
  pub route-by :
      (default : Option Text) (row : RawRow)
      → IsComplete u (columns_of "routes.txt") row
      → IsValidRoute u row
      → ConvertsBy (route_row_of u default) (some tt) (λ r. r.route_id ≡ text u "route_id" row) row
  unfolding route_row_of
  route-by default row complete valid =
      let (n, read) = int_at-int u (columns_of "routes.txt") row complete "route_type" refl valid in
      (
        λ b. record {
          route_id = get "route_id" row;
          agency_id = or_maybe (text u "agency_id" row) default;
          route_short_name = optional (get "route_short_name" row);
          route_long_name = optional (get "route_long_name" row);
          route_type = n;
          route_color = optional (get "route_color" row);
          route_text_color = optional (get "route_text_color" row);
        },
        (
          rw (field-get u (columns_of "routes.txt") row complete "route_id" refl, read) refl,
          λ b e. sym (text-get u (columns_of "routes.txt") row complete "route_id"),
        ),
      )

  pub agency-by :
      (row : RawRow)
      → IsComplete u (columns_of "agency.txt") row
      → ConvertsBy (agency_row_of u) (some tt) (λ r. Unit) row
  unfolding agency_row_of
  agency-by row complete =
      let value = field-get u (columns_of "agency.txt") row complete in
      (
        λ b. record {
          agency_id =
              or_else (text u "agency_id" row)
                (b'd' ∷ b'e' ∷ b'f' ∷ b'a' ∷ b'u' ∷ b'l' ∷ b't' ∷ []);
          agency_name = get "agency_name" row;
          agency_url = get "agency_url" row;
          agency_timezone = get "agency_timezone" row;
          agency_lang = optional (get "agency_lang" row);
        },
        (
          rw (value "agency_name" refl, value "agency_url" refl, value "agency_timezone" refl) refl,
          λ b e. tt,
        ),
      )

  pub calendar-by :
      (row : RawRow)
      → IsComplete u (columns_of "calendar.txt") row
      → IsValidCalendar u row
      → ConvertsBy (calendar_row_of u) (some tt) (λ r. r.service_id ≡ text u "service_id" row) row
  unfolding calendar_row_of
  calendar-by row complete valid =
      let day = runs_on-some u (columns_of "calendar.txt") row complete in
      let date = date_at-some u (columns_of "calendar.txt") row complete in
      let (mo, e1) = day "monday" refl in
      let (tu, e2) = day "tuesday" refl in
      let (we, e3) = day "wednesday" refl in
      let (th, e4) = day "thursday" refl in
      let (fr, e5) = day "friday" refl in
      let (sa, e6) = day "saturday" refl in
      let (su, e7) = day "sunday" refl in
      let (start, e8) = date "start_date" refl valid.0 in
      let (end, e9) = date "end_date" refl valid.1 in
      (
        λ b. record {
          service_id = get "service_id" row;
          monday = mo;
          tuesday = tu;
          wednesday = we;
          thursday = th;
          friday = fr;
          saturday = sa;
          sunday = su;
          start_date = start;
          end_date = end;
        },
        (
          rw
              (
                field-get u (columns_of "calendar.txt") row complete "service_id" refl,
                e1,
                e2,
                e3,
                e4,
                e5,
                e6,
                e7,
                e8,
                e9,
              )
              refl,
          λ b e. sym (text-get u (columns_of "calendar.txt") row complete "service_id"),
        ),
      )

  no_underscore : (n : ℕ) → n < 10 → nat_eqb (48 + n) b'_' ≡ false
  no_underscore n small = ground arith

  digit-magnitude : (n : ℕ) → n < 10 → magnitude u ((48 + n) ∷ []) ≡ some n
  unfolding magnitude digits_of value_of
  digit-magnitude n small =
      rw (no_underscore n small, u.decimal_ascii n small) (ap (λ (m : ℕ). some m) (omega arith))

  one-signed :
      (n : ℕ)
      → n < 10
      → nat_eqb (48 + n) b'-' ≡ false
      → nat_eqb (48 + n) b'+' ≡ false
      → signed u ((48 + n) ∷ []) ≡ some (pos n)
  unfolding signed
  one-signed n small e f = rw (e, f, digit-magnitude n small) refl

  last : (a b : Bool) → a ≡ false → (a || (b || false)) ≡ true → b ≡ true
  last a b h k = ground arith

  one_or_two-IsInt :
      (value : Text)
      → contains (strip u value) ((b'1' ∷ []) ∷ (b'2' ∷ []) ∷ []) ≡ true
      → is_int u value ≡ true
  unfolding is_int int
  one_or_two-IsInt value h =
      ap (λ (t : Text). is_some (signed u t)) (strip-strip u value)
      ∙ elim (Bool-cases (b'1' ∷ [] == strip u value)) [
        | inl e ↦
            ap (λ (t : Text). is_some (signed u t))
              (sym (((comparable_list {A = ℕ}).equal_iff (b'1' ∷ []) (strip u value)).0 e))
            ∙ ap (λ (o : Option ℤ). is_some o) (one-signed 1 (omega arith) refl refl)
        | inr e ↦
            ap (λ (t : Text). is_some (signed u t))
              (sym (
                ((comparable_list {A = ℕ}).equal_iff (b'2' ∷ []) (strip u value)).0 (last _ _ e h)))
            ∙ ap (λ (o : Option ℤ). is_some o) (one-signed 2 (omega arith) refl refl)
      ]

  pub calendar_date-by :
      (row : RawRow)
      → IsComplete u (columns_of "calendar_dates.txt") row
      → IsValidCalendarDate u row
      → ConvertsBy
          (calendar_date_row_of u)
          (some tt)
          (λ r. r.service_id ≡ text u "service_id" row)
          row
  unfolding calendar_date_row_of
  calendar_date-by row complete valid =
      let (day, e1) =
        date_at-some u (columns_of "calendar_dates.txt") row complete "date" refl valid.0 in
      let (n, e2) =
        int_at-int u (columns_of "calendar_dates.txt") row complete "exception_type" refl
          (one_or_two-IsInt (get "exception_type" row) (unfold text in valid.1)) in
      (
        λ b. record { service_id = get "service_id" row; date = day; exception_type = n },
        (
          rw (field-get u (columns_of "calendar_dates.txt") row complete "service_id" refl, e1, e2)
              refl,
          λ b e. sym (text-get u (columns_of "calendar_dates.txt") row complete "service_id"),
        ),
      )
