-- ===== src/Trains/Mapper.antt =====
-- src/metropulse/application/route_resolver.py: the candidates of `IdMapper`, and the first of them
-- that a table has.
pub mod Candidates
use metropulse.Prelude.{
  ℕ, String, Bool, true, false, not, ◌&&◌, Option, none, some, List, [], ◌∷◌, ◌++◌, if◌then◌else◌,
  map, filter, contains, get_last?, ◌>>=◌, Comparable, ◌==◌, comparable_string, leb, length,
}
use metropulse.Prelude.Dict.{Dict, lookup}
use metropulse.Prelude.Int.{ℤ}
use metropulse.Planner.Number.{Number}
use metropulse.Planner.Graph.{Maths, haversine_m, Route}
use metropulse.Trains.Geometry.{Geo, ShapeGeometry, Point, Plane, shape_geometry, project}

pub data MappingField : Type 0 where
  trip_id_field : MappingField
  route_id_field : MappingField

pub record MappingRule : Type 0 where
  pub field : MappingField
  pub pattern : String
  pub replacement : String

pub record IdMapper : Type 0 where
  pub rules : List MappingRule
  pub trip_id_map : Dict String String
  pub route_id_map : Dict String String

abbrev pub same_field : MappingField → MappingField → Bool
same_field trip_id_field trip_id_field = true
same_field route_id_field route_id_field = true
same_field _ _ = false

unfoldable pub static_map : MappingField → IdMapper → Dict String String
static_map trip_id_field mapper = mapper.trip_id_map
static_map route_id_field mapper = mapper.route_id_map

abbrev pub mapped : Option String → List String
mapped none = []
mapped (some candidate) = candidate ∷ []

-- `re.compile(rule.pattern).sub(rule.replacement, raw_id)` is the parameter `sub`.
unfoldable pub rewritten :
    (String → String → String → String) → MappingField → String → List MappingRule → List String
rewritten sub field raw_id [] = []
rewritten sub field raw_id (rule ∷ rules) =
    let rest = rewritten sub field raw_id rules in
    let candidate = sub rule.pattern rule.replacement raw_id in
    if same_field rule.field field && not (candidate == "") then candidate ∷ rest else rest

-- `seen` and `unique` hold the same elements
unfoldable pub unique_from : List String → List String → List String
unique_from seen [] = []
unique_from seen (candidate ∷ out) =
    if contains candidate seen
    then unique_from seen out
    else candidate ∷ unique_from (candidate ∷ seen) out

unfoldable pub candidates :
    (String → String → String → String) → IdMapper → MappingField → String → List String
candidates sub mapper field raw_id = unique_from [] (
    raw_id
    ∷ (mapped (lookup raw_id (static_map field mapper)) ++ rewritten sub field raw_id mapper.rules))

-- the first candidate that the table has
unfoldable pub first_found : {A : Type 0} → (String → Option A) → List String → Option A
first_found find [] = none
first_found find (candidate ∷ rest) = elim (find candidate) [
  | none ↦ first_found find rest
  | some row ↦ some row
]
