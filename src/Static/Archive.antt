-- ===== src/Static/Archive.antt =====
-- `read_gtfs_zip` of src/metropulse/application/static_loader.py. A member of the archive is what
-- `csv` reads of it: the names of its header, and the cells of each further line.
pub mod Uniform
use Prim.Native.String
use Prim.Native.Char.{code}
use metropulse.Prelude.{
  ℕ, String, Bool, true, false, ◌&&◌, Option, none, some, List, [], ◌∷◌, if◌then◌else◌,
  comparable_string, map, ◌==◌,
}
use metropulse.Prelude.Dict.{Dict, lookup, insert}
use metropulse.Gtfs.Text.{Text, Unicode, strip}
use metropulse.Static.Rows.{RawRow, RawRows, RawDataset}

pub record Member : Type 0 where
  pub path : String
  pub fieldnames : List String
  pub lines : List (List Text)

abbrev pub gtfs_files : List String
gtfs_files =
    "agency.txt" ∷ "routes.txt" ∷ "trips.txt" ∷ "stops.txt" ∷ "stop_times.txt" ∷ "calendar.txt"
    ∷ "calendar_dates.txt" ∷ "shapes.txt" ∷ []

-- `{Path(n).name: n for n in archive.namelist()}`, with `name` for what `pathlib` says
unfoldable pub members : (String → String) → List Member → Dict String Member → Dict String Member
members name [] d = d
members name (m ∷ archive) d = members name archive (insert (name m.path) m d)

module _ (u : Unicode) where
  lstrip_name : String → String
  lstrip_name String.[] = ""
  lstrip_name (String.◌∷◌ c s) =
      let rest = lstrip_name s in if u.space (code c) then rest else String.◌∷◌ c s

  rstrip_name : String → String
  rstrip_name String.[] = ""
  rstrip_name (String.◌∷◌ c s) =
      let rest = rstrip_name s in if u.space (code c) && rest == "" then "" else String.◌∷◌ c rest

  -- name.strip()
  unfoldable pub strip_name : String → String
  unfolding lstrip_name rstrip_name
  strip_name name = rstrip_name (lstrip_name name)

  -- `DictReader` pairs the names with the cells, `(v or "").strip()` of each; a line that is too
  -- short has no value for the rest, and what a line has too many is dropped.
  unfoldable pub read_row : List String → List Text → RawRow → RawRow
  read_row [] cells row = row
  read_row (name ∷ names) [] row = read_row names [] (insert name (strip u []) row)
  read_row (name ∷ names) (cell ∷ cells) row = read_row names cells (insert name (strip u cell) row)

  -- `DictReader` passes over an empty line.
  unfoldable pub read_rows : List String → List (List Text) → RawRows
  read_rows names [] = []
  read_rows names ([] ∷ lines) = read_rows names lines
  read_rows names ((cell ∷ cells) ∷ lines) =
      read_row names (cell ∷ cells) [] ∷ read_rows names lines

  unfoldable pub read_member : Member → RawRows
  read_member m = read_rows (map strip_name m.fieldnames) m.lines

  unfoldable pub read_files : List String → Dict String Member → RawDataset → RawDataset
  read_files [] names dataset = dataset
  read_files (filename ∷ files) names dataset = elim (lookup filename names) [
    | none ↦ read_files files names dataset
    | some m ↦ read_files files names (insert filename (read_member m) dataset)
  ]

  unfoldable pub read_gtfs_zip : (String → String) → List Member → RawDataset
  read_gtfs_zip name archive = read_files gtfs_files (members name archive []) []
