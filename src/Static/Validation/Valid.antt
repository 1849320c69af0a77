-- ===== src/Static/Validation/Valid.antt =====
-- What each row satisfies if its check adds no error to the report.
use metropulse.Prelude.{ℕ, true, false, not, List, [], ◌∷◌, ◌≡◌, refl, contains, comparable_nat}
use metropulse.Prelude.Equality.{comparable_list, comparable_pair}
use metropulse.Gtfs.Text.{Text, Unicode}
use metropulse.Gtfs.Date.{parse_gtfs_date}
use metropulse.Static.Columns.{days_of_week}
use metropulse.Static.Rows.{RawRow, has_errors, get, issue, is_nonempty, empty_value, report_if}
use metropulse.Static.Rows.Loops.{no_errors}
use metropulse.Static.Checks.{
  is_some, is_int, text, route_row, calendar_row, calendar_date_row, bad_days,
}
use metropulse.Static.Validation.Quiet.{quiet, quiet_not, guarded}

module _ (u : Unicode) where
  abbrev pub IsValidRoute : RawRow → Type 0
  IsValidRoute row = is_int u (get "route_type" row) ≡ true

  pub route_row-checked :
      (seen : List Text) (i : ℕ) (row : RawRow)
      → has_errors (route_row u seen i row).0 ≡ false
      → (contains (text u "route_id" row) seen ≡ false)
        × (IsValidRoute row × ((route_row u seen i row).1 ≡ text u "route_id" row ∷ seen))
  unfolding route_row
  route_row-checked seen i row h =
      let (nonempty, (rest, added)) =
        guarded (is_nonempty (text u "route_id" row))
          (issue "routes.txt" i (empty_value "route_id")) _ seen (text u "route_id" row)
          (unfold issue in refl) h in
      let (fresh, typed) = no_errors (report_if (contains (text u "route_id" row) seen) _) _ rest in
      (quiet _ _ _ _ fresh, (quiet_not _ _ _ _ typed, added))

  -- the dates of a service, in their order
  abbrev pub IsValidCalendar : RawRow → Type 0
  IsValidCalendar row =
      (is_some (parse_gtfs_date u (get "start_date" row)) ≡ true)
      × (is_some (parse_gtfs_date u (get "end_date" row)) ≡ true)

  pub calendar_row-checked :
      (seen : List Text) (i : ℕ) (row : RawRow)
      → has_errors (calendar_row u seen i row).0 ≡ false
      → IsValidCalendar row × ((calendar_row u seen i row).1 ≡ text u "service_id" row ∷ seen)
  unfolding calendar_row
  calendar_row-checked seen i row h =
      let (nonempty, (rest, added)) =
        guarded (is_nonempty (text u "service_id" row))
          (issue "calendar.txt" i (empty_value "service_id")) _ seen (text u "service_id" row)
          (unfold issue in refl) h in
      let (days, dates) = no_errors (bad_days u i days_of_week row) _ rest in
      let (start, others) =
        no_errors (report_if (not (is_some (parse_gtfs_date u (get "start_date" row)))) _) _
          dates in
      let (end, order) =
        no_errors (report_if (not (is_some (parse_gtfs_date u (get "end_date" row)))) _) _ others in
      ((quiet_not _ _ _ _ start, quiet_not _ _ _ _ end), added)

  abbrev pub IsValidCalendarDate : RawRow → Type 0
  IsValidCalendarDate row =
      (is_some (parse_gtfs_date u (get "date" row)) ≡ true)
      × (contains (text u "exception_type" row) ((b'1' ∷ []) ∷ (b'2' ∷ []) ∷ []) ≡ true)

  pub calendar_date_row-checked :
      (seen : List Text) (i : ℕ) (row : RawRow)
      → has_errors (calendar_date_row u seen i row).0 ≡ false
      → IsValidCalendarDate row
        × ((calendar_date_row u seen i row).1 ≡ text u "service_id" row ∷ seen)
  unfolding calendar_date_row
  calendar_date_row-checked seen i row h =
      let (nonempty, (rest, added)) =
        guarded (is_nonempty (text u "service_id" row))
          (issue "calendar_dates.txt" i (empty_value "service_id")) _ seen (text u "service_id" row)
          (unfold issue in refl) h in
      let (day, kind) =
        no_errors (report_if (not (is_some (parse_gtfs_date u (get "date" row)))) _) _ rest in
      ((quiet_not _ _ _ _ day, quiet_not _ _ _ _ kind), added)
