-- ===== src/Live/Message.antt =====
-- `_extract_sequence` of src/metropulse/application/live_hub.py.
use metropulse.Prelude.{String, Option, none, some, comparable_string}
use metropulse.Prelude.Int.{ℤ}
use metropulse.Prelude.Json.{Json, obj, get_field, as_int}

-- A text frame, given by what `json.loads` makes of it.
pub data Message : Type 0 where
  unparseable : String → Message
  json : Json → Message

-- The end of `_extract_sequence`: a value, or the AttributeError of `.get` on what is no object.
pub data Extracted : Type 0 where
  returned : Option ℤ → Extracted
  attribute_error : Extracted

abbrev sequence_of : Option Json → Option ℤ
sequence_of none = none
sequence_of (some v) = as_int v

unfoldable pub extract_sequence : Message → Extracted
extract_sequence (unparseable text) = returned none
extract_sequence (json (obj fields)) = returned (sequence_of (get_field "seq" fields))
extract_sequence (json _) = attribute_error
