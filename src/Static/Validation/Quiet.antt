-- ===== src/Static/Validation/Quiet.antt =====
-- What a part of a report says when it holds no error.
use metropulse.Prelude.{
  ◌⊎◌, inl, inr, ℕ, String, Bool, true, false, not, ◌&&◌, Option, none, some, List, [], ◌∷◌, ◌≡◌,
  refl, arith, if◌then◌else◌,
}
use metropulse.Static.Rows.{
  RawRow, RawRows, Report, ValidationIssue, Reason, has_errors, errors, is_error, issue, file_issue,
  report_if, check_rows,
}
use metropulse.Static.Columns.{has_columns}
use metropulse.Static.Checks.{is_some}

pub not-false : (b : Bool) → not b ≡ false → b ≡ true
not-false b h = ground arith

pub and_true : (a b : Bool) → (a && b) ≡ true → (a ≡ true) × (b ≡ true)
and_true a b h = ground arith

pub some-of_is_some : {A : Type 0} (o : Option A) → is_some o ≡ true → (a : A) × (o ≡ some a)
some-of_is_some none h = cc
some-of_is_some (some a) h = (a, refl)

pub quiet :
    (b : Bool) (file : String) (row : ℕ) (reason : Reason)
    → has_errors (report_if b (issue file row reason)) ≡ false
    → b ≡ false
unfolding has_errors errors issue
quiet true file row reason h = cc
quiet false file row reason h = refl

pub quiet_not :
    (b : Bool) (file : String) (row : ℕ) (reason : Reason)
    → has_errors (report_if (not b) (issue file row reason)) ≡ false
    → b ≡ true
quiet_not b file row reason h = not-false b (quiet (not b) file row reason h)

pub quiet_file_if :
    (b : Bool) (file : String) (reason : Reason)
    → has_errors (report_if b (file_issue file reason)) ≡ false
    → b ≡ false
unfolding has_errors errors file_issue
quiet_file_if true file reason h = cc
quiet_file_if false file reason h = refl

pub quiet_file :
    (b : Bool) (file : String) (reason : Reason)
    → has_errors (report_if (not b) (file_issue file reason)) ≡ false
    → b ≡ true
quiet_file b file reason h = not-false b (quiet_file_if (not b) file reason h)

error-has_errors : (x : ValidationIssue) → is_error x ≡ true → has_errors (x ∷ []) ≡ true
unfolding has_errors errors
error-has_errors x e = rw e refl

abbrev keyed : {K : Type 0} → Bool → ValidationIssue → Report → List K → K → Report × List K
keyed b x y seen k = if not b then (x ∷ [], seen) else (y, k ∷ seen)

-- A row without a key is an error and adds none to the set.
pub guarded :
    {K : Type 0} (b : Bool) (x : ValidationIssue) (y : Report) (seen : List K) (k : K)
    → is_error x ≡ true
    → has_errors (keyed b x y seen k).0 ≡ false
    → (b ≡ true) × ((has_errors y ≡ false) × ((keyed b x y seen k).1 ≡ k ∷ seen))
guarded true x y seen k e h = (refl, (h, refl))
guarded false x y seen k e h = cc (error-has_errors x e)

-- A file that is absent is checked as one without rows.
pub checked :
    {K : Type 0} (step : List K → ℕ → RawRow → Report × List K) (columns : List String)
    (seen : List K) (rows : RawRows)
    → (rows ≡ []) ⊎ (has_columns rows columns ≡ true)
    → (if has_columns rows columns then check_rows step seen 2 rows else ([], seen))
      ≡ check_rows step seen 2 rows
checked step columns seen rows (inl e) = rw e (unfold has_columns check_rows in refl)
checked step columns seen rows (inr e) = rw e refl
