-- ===== src/Triggers/Configs.antt =====
-- The configuration of an action: what json.Unmarshal reads of it in internal/trigger/service.go and
-- internal/api/trigger_handler.go, and buildPeripheralActionConfig. A key is matched as it is
-- spelled; the last field with a key counts.
use fishhub_server.Prelude.{String, ◌==◌, Option, none, some, List, [], ◌∷◌, if◌then◌else◌}
use fishhub_server.Schema.{
  JsonValue, json_text, json_null, json_other, ActionConfig, config_object, config_null,
  config_other,
}

-- The text of a field of a struct: a null leaves it, a value of another type is an error.
unfoldable pub read_from : String → String → List (String × JsonValue) → Option String
read_from key found [] = some found
read_from key found ((k, json_text t) ∷ rest) = read_from key (if k == key then t else found) rest
read_from key found ((k, json_null) ∷ rest) = read_from key found rest
read_from key found ((k, json_other t) ∷ rest) =
    let later = read_from key found rest in if k == key then none else later

-- json.Unmarshal of a configuration into a struct with that field, none for an error.
unfoldable pub read_text : String → ActionConfig → Option String
unfolding read_from
read_text key (config_object fields) = read_from key "" fields
read_text key config_null = some ""
read_text key (config_other t) = none

-- cfg[key] = value
unfoldable pub set_field :
    String → JsonValue → List (String × JsonValue) → List (String × JsonValue)
set_field key value [] = (key, value) ∷ []
set_field key value ((k, v) ∷ rest) =
    let later = set_field key value rest in if k == key then later else (k, v) ∷ later

-- buildPeripheralActionConfig, none for an error. It is called where peripheral_id was read of an
-- object.
unfoldable pub build_config : ActionConfig → String → Option ActionConfig
unfolding set_field
build_config (config_object fields) kind_pin =
    some (config_object (set_field "peripheral" (json_text kind_pin) fields))
build_config config_null kind_pin = none
build_config (config_other t) kind_pin = none
