-- ===== src/Static/Archive/Uniform.antt =====
-- The columns and values of the rows that `read_gtfs_zip` reads of one file
-- (src/metropulse/application/static_loader.py).
use metropulse.Prelude.{
  String, Bool, false, ◌||◌, List, [], ◌∷◌, map, ◌≡◌, refl, ◌∙◌, arith, ◌==◌, All, contains,
  comparable_string, inl, inr, Option-cases,
}
use metropulse.Prelude.Dict.{Dict, lookup, insert, has_key, All-insert, lookup-All}
use metropulse.Gtfs.Text.{Text, Unicode, strip}
use metropulse.Gtfs.Text.Strip.{strip-strip}
use metropulse.Static.Rows.{RawRow, RawRows, RawDataset, rows_of}
use metropulse.Static.Archive.{
  Member, read_row, read_rows, read_member, read_files, read_gtfs_zip, members, strip_name,
}

has_key-insert :
    (k j : String) (v : Text) (d : RawRow) → has_key j (insert k v d) ≡ (k == j || has_key j d)
has_key-insert k j v [] = ground arith
has_key-insert k j v ((i, w) ∷ d) = ground (
  arith,
  has_key-insert k j v d,
  comparable_string.equal_iff i k,
  comparable_string.equal_iff i j,
  comparable_string.equal_iff k j,
)

module _ (u : Unicode) where
  abbrev pub IsStripped : String × Text → Type 0
  IsStripped cell = strip u cell.1 ≡ cell.1

  -- The columns are those of the header, and no value has space around it.
  abbrev pub IsUnder : List String → RawRow → Type 0
  IsUnder names row =
      ((column : String) → has_key column row ≡ contains column names) × All IsStripped row

  abbrev pub HasHeader : RawRows → Type 0
  HasHeader rows = (names : List String) × All (IsUnder names) rows

  read_row-has_key :
      (names : List String) (cells : List Text) (row : RawRow) (column : String)
      → has_key column (read_row u names cells row) ≡ (contains column names || has_key column row)
  unfolding read_row
  read_row-has_key [] cells row column = refl
  read_row-has_key (name ∷ names) [] row column = ground (
    arith,
    read_row-has_key names [] (insert name (strip u []) row) column,
    has_key-insert name column (strip u []) row,
  )
  read_row-has_key (name ∷ names) (cell ∷ cells) row column = ground (
    arith,
    read_row-has_key names cells (insert name (strip u cell) row) column,
    has_key-insert name column (strip u cell) row,
  )

  read_row-IsStripped :
      (names : List String) (cells : List Text) (row : RawRow)
      → All IsStripped row
      → All IsStripped (read_row u names cells row)
  unfolding read_row
  read_row-IsStripped [] cells row h = h
  read_row-IsStripped (name ∷ names) [] row h =
      read_row-IsStripped names [] (insert name (strip u []) row)
        (All-insert IsStripped name (strip u []) row (strip-strip u []) h)
  read_row-IsStripped (name ∷ names) (cell ∷ cells) row h =
      read_row-IsStripped names cells (insert name (strip u cell) row)
        (All-insert IsStripped name (strip u cell) row (strip-strip u cell) h)

  or_nothing : (x : Bool) → (x || false) ≡ x
  or_nothing x = ground arith

  read_rows-IsUnder :
      (names : List String) (lines : List (List Text))
      → All (IsUnder names) (read_rows u names lines)
  unfolding read_rows
  read_rows-IsUnder names [] = tt
  read_rows-IsUnder names ([] ∷ lines) = read_rows-IsUnder names lines
  read_rows-IsUnder names ((cell ∷ cells) ∷ lines) = (
    (
      λ column.
          read_row-has_key names (cell ∷ cells) [] column ∙ or_nothing (contains column names),
      read_row-IsStripped names (cell ∷ cells) [] tt,
    ),
    read_rows-IsUnder names lines,
  )

  read_files-HasHeader :
      (files : List String) (names : Dict String Member) (dataset : RawDataset)
      → All (λ (file : String × RawRows). HasHeader file.1) dataset
      → All (λ (file : String × RawRows). HasHeader file.1) (read_files u files names dataset)
  unfolding read_files read_member
  read_files-HasHeader [] names dataset h = h
  read_files-HasHeader (filename ∷ files) names dataset h =
      elim (Option-cases (lookup filename names)) [
        | inl e ↦ rw (e, All) (read_files-HasHeader files names dataset h)
        | inr (m, e) ↦
            rw (e, All)
              (read_files-HasHeader files names (insert filename (read_member u m) dataset) (
                All-insert (λ (file : String × RawRows). HasHeader file.1) filename
                  (read_member u m) dataset
                  (
                    map (strip_name u) m.fieldnames,
                    read_rows-IsUnder (map (strip_name u) m.fieldnames) m.lines,
                  )
                  h))
      ]

  found-HasHeader :
      (filename : String) (dataset : RawDataset)
      → All (λ (file : String × RawRows). HasHeader file.1) dataset
      → HasHeader (rows_of filename dataset)
  unfolding rows_of
  found-HasHeader filename dataset h = elim (Option-cases (lookup filename dataset)) [
    | inl e ↦ rw (e, rows_of) ([], tt)
    | inr (rows, e) ↦
        rw (e, rows_of)
          (lookup-All (λ (f : String) (r : RawRows). HasHeader r) filename rows dataset h e)
  ]

  pub rows_of-HasHeader :
      (name : String → String) (archive : List Member) (filename : String)
      → HasHeader (rows_of filename (read_gtfs_zip u name archive))
  rows_of-HasHeader name archive filename =
      found-HasHeader filename (read_gtfs_zip u name archive)
        (unfold read_gtfs_zip in read_files-HasHeader _ (members name archive []) [] tt)
