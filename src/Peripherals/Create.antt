-- ===== src/Peripherals/Create.antt =====
-- The insertion of a peripheral: CreatePeripheral of internal/peripheral/store.go. The CHECK and the
-- VARCHAR of the columns are those of migrations 017 and 029. The text of the driver's error for a
-- violated index is a parameter.
use Prim.Native.String.{count}
use fishhub_server.Prelude.{
  ℕ, String, ◌==◌, ◌||◌, not, Bool, false, Option, none, some, List, [], ◌∷◌, ◌++◌, ltb,
  if◌then◌else◌, any,
}
use fishhub_server.Schema.{PortRow, PeripheralRow}
use fishhub_server.World.{
  failed, device_not_found, ok, err, World, Action, pure, raise, call, gets, draw, ◌>>=◌, ◌>>◌,
}
use fishhub_server.Device.{is_owned}
use fishhub_server.Peripherals.Model.{Peripheral, peripheral_of}
use fishhub_server.Peripherals.Violations.{unique_violation_index, violated_index, violation_error}

abbrev pub set_peripherals : List PeripheralRow → World → World
set_peripherals rows w = record w { db = record w.db { peripherals = rows } }

-- What a peripheral is created from: the arguments of CreatePeripheral.
pub record NewPeripheral : Type 0 where
  pub device_id : String
  pub name : String
  pub kind : String
  pub category : String
  pub purpose : Option String
  pub port : PortRow

-- The row of the INSERT.
abbrev pub new_peripheral : NewPeripheral → ℕ → String → PeripheralRow
new_peripheral n now id = record {
  id = id;
  device_id = n.device_id;
  name = n.name;
  kind = n.kind;
  pin = n.port.pin;
  port_id = some n.port.id;
  category = n.category;
  control_mode = if n.category == "actuator" then some "automatic" else none;
  purpose = n.purpose;
  schedule = none;
  deleted_at = none;
  created_at = now;
  updated_at = now;
}

-- VARCHAR(64)
abbrev pub is_too_long : Option String → Bool
is_too_long none = false
is_too_long (some purpose) = ltb 64 (count purpose)

abbrev pub is_category : String → Bool
is_category category = category == "sensor" || category == "actuator"

-- The peripheral that CreatePeripheral returns: its port is the one that was given.
abbrev pub created : NewPeripheral → ℕ → String → Peripheral
created n now id =
    peripheral_of (some (record { id = n.port.id; label = n.port.label; pin = n.port.pin })) none
      (new_peripheral n now id)

abbrev pub add_peripheral : NewPeripheral → String → Action Peripheral
add_peripheral n id w = (
  ok (created n w.now id),
  set_peripherals (w.db.peripherals ++ new_peripheral n w.now id ∷ []) w,
)

abbrev pub has_id : String → PeripheralRow → Bool
has_id id p = p.id == id

-- The primary key.
unfoldable pub add_keyed : NewPeripheral → String → Action Peripheral
unfolding any
add_keyed n id w =
    if any (has_id id) w.db.peripherals
    then (err (failed "create peripheral: insert"), w)
    else add_peripheral n id w

unfoldable pub insert_unless : (String → String) → NewPeripheral → Option String → Action Peripheral
insert_unless text n (some index) = raise (violation_error (unique_violation_index (text index)))
insert_unless text n none = do id ← draw "create peripheral: insert"; add_keyed n id

-- The INSERT: the types of the columns, then the CHECK, then the indexes.
unfoldable pub insert_peripheral : (String → String) → NewPeripheral → Action Peripheral
unfolding insert_unless
insert_peripheral text n w =
    if is_too_long n.purpose || not (is_category n.category)
    then (err (failed "create peripheral: insert"), w)
    else insert_unless text n (violated_index n.device_id n.name n.port w.db.peripherals) w

-- postgresStore.CreatePeripheral
unfoldable pub create_peripheral : (String → String) → String → NewPeripheral → Action Peripheral
unfolding any
create_peripheral text user_id n = do
  exists ←
      call "create peripheral: check device"
        (gets (λ w. any (is_owned n.device_id user_id) w.db.devices))
  (if exists then pure tt else raise device_not_found)
  call "create peripheral: insert" (insert_peripheral text n)
