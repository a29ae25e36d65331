-- ===== src/Senml.antt =====
-- SenML payloads: internal/senml/senml.go. What json.Unmarshal reads of a payload is a parameter, with
-- none for one that it refuses.
use fishhub_server.Prelude.{
  zero, suc, String, ◌==◌, Bool, true, false, Option, none, some, List, [], ◌∷◌, if◌then◌else◌,
}
use fishhub_server.Schema.{Seconds, seconds, below_zero}
use fishhub_server.World.{failed, empty_payload, missing_base_time, empty_entries, Result, ok, err}
use fishhub_server.Measurements.Model.{Field, number_field, bool_field, text_field}

-- senmlRecord. A text that is missing is empty, a number that is missing is 0.
pub record SenmlRecord : Type 0 where
  pub base_name : String
  pub base_time : Seconds
  pub name : String
  pub unit : String
  pub value : Option String
  pub bool_value : Option Bool
  pub string_value : Option String

pub record Measurement : Type 0 where
  pub name : String
  pub unit : String
  pub value : Field

-- senml.Reading
pub record Pack : Type 0 where
  pub base_time : Seconds
  pub measurements : List Measurement

-- The switch of Parse: v before vb before vs.
abbrev pub field_of : Option String → Option Bool → Option String → Option Field
field_of (some v) vb vs = some (number_field v)
field_of none (some vb) vs = some (bool_field vb)
field_of none none (some vs) = some (text_field vs)
field_of none none none = none

abbrev pub add_field : SenmlRecord → Option Field → List Measurement → List Measurement
add_field r none rest = rest
add_field r (some value) rest = record { name = r.name; unit = r.unit; value = value } ∷ rest

-- The loop over the records behind the first one.
unfoldable pub measurements_of : List SenmlRecord → List Measurement
measurements_of [] = []
measurements_of (r ∷ rs) =
    let rest = measurements_of rs in
    if r.name == "" then rest else add_field r (field_of r.value r.bool_value r.string_value) rest

abbrev pub some_entries : Seconds → List Measurement → Result Pack
some_entries base_time [] = err empty_entries
some_entries base_time (m ∷ ms) = ok (record { base_time = base_time; measurements = m ∷ ms })

abbrev pub is_zero_time : Seconds → Bool
is_zero_time (seconds zero) = true
is_zero_time (seconds (suc n)) = false
is_zero_time (below_zero n) = false

-- Parse
unfoldable pub parse : Option (List SenmlRecord) → Result Pack
unfolding measurements_of
parse none = err (failed "invalid JSON")
parse (some []) = err empty_payload
parse (some (base ∷ [])) = err empty_payload
parse (some (base ∷ r ∷ rs)) =
    if is_zero_time base.base_time
    then err missing_base_time
    else some_entries base.base_time (measurements_of (r ∷ rs))
