-- ===== src/Prelude/Json.antt =====
-- What `json.loads` makes of a text. Numbers are integers or keep the text of their fraction.
use metropulse.Prelude.Tests.{◌==◌, comparable_string, if◌then◌else◌}
use metropulse.Prelude.Int.{ℤ, pos}
use Prim.Native.String.{String}
use mathlib.Core.Bool.{Bool, true, false}
use mathlib.Core.Option.{Option, none, some}

mutual
  pub data Json : Type 0 where
    null : Json
    bool : Bool → Json
    int : ℤ → Json
    float : String → Json
    str : String → Json
    arr : Items → Json
    obj : Fields → Json

  pub data Items : Type 0 where
    nil : Items
    cons : Json → Items → Items

  pub data Fields : Type 0 where
    end : Fields
    field : String → Json → Fields → Fields

-- payload.get(key): the last of several fields with one name counts
abbrev pub get_field : String → Fields → Option Json
get_field k end = none
get_field k (field j v fs) = elim (get_field k fs) [
  | some w ↦ some w
  | none ↦ if j == k then some v else none
]

-- `isinstance(value, int)`, which a bool passes too, and the integer that it counts as
abbrev pub as_int : Json → Option ℤ
as_int (int n) = some n
as_int (bool true) = some (pos 1)
as_int (bool false) = some (pos 0)
as_int _ = none
