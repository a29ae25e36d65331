-- ===== src/Peripherals.antt =====
-- The peripherals of a device: internal/peripheral/service.go. The texts that
-- json.Marshal makes of the parts of a schedule, what a JSON decoder reads of a command, and the
-- query of the last readings are parameters.
pub mod Model
pub mod Violations
pub mod Pushes
pub mod Create
pub mod Store
pub mod Handlers
pub mod Register
pub mod Ports
pub mod Apart
pub mod Keeping
pub mod Steps
pub mod Removal
pub mod Freed
pub mod Schedules
pub mod Modes
use Prim.Native.String
use fishhub_server.Prelude.{
  ℕ, suc, String, ◌==◌, ◌&&◌, ◌||◌, Bool, true, false, Option, none, some, List, [], ◌∷◌, ◌++◌, map,
  ltb, if◌then◌else◌, select, starts_with, is_none,
}
use fishhub_server.Schema.{
  Schedule, CronEntry, Payload, mqtt_provision, device_config_push, peripheral_push,
}
use fishhub_server.World.{
  Error, invalid_command, Result, ok, err, World, Action, pure, raise, draw, publish, transaction,
  ignore, ◌>>=◌, ◌>>◌,
}
use fishhub_server.Outbox.{Processor, insert}
use fishhub_server.Measurements.Model.{Point, Value}
use Model.{Peripheral}
use Pushes.{address, push_type, push_timeout}
use Create.{NewPeripheral, create_peripheral}
use Store.{
  list_peripherals, get_peripheral, set_peripheral_schedule, set_control_mode, delete_peripheral,
  update_peripheral,
}

-- The payload of the event of Register.
abbrev pub create_payload : NewPeripheral → Payload
create_payload n =
    peripheral_push n.device_id (address n.kind n.port.pin) "create" n.kind n.port.pin n.purpose

-- The body of the transaction of Register.
unfoldable pub create_and_push : (String → String) → String → NewPeripheral → Action Peripheral
create_and_push text user_id n = do
  p ← create_peripheral text user_id n
  insert "register peripheral: enqueue push" push_type (create_payload n) push_timeout
  pure p

-- Service.Register
unfoldable pub register : (String → String) → String → NewPeripheral → Action Peripheral
register text user_id n =
    transaction "register peripheral: begin tx" "register peripheral: commit"
      (create_and_push text user_id n)

-- The test of filterByNamespace on a key.
abbrev pub is_under : String → String × Value → Bool
is_under prefix (key, value) = ltb (String.len prefix) (String.len key) && starts_with key prefix

with_values : Point → List (String × Value) → Option Point
with_values p [] = none
with_values p (v ∷ vs) = some (record p { values = v ∷ vs })

-- filterByNamespace
unfoldable pub filter_by_namespace : Point → String → Option Point
unfolding select with_values
filter_by_namespace p ns = with_values p (select (is_under (String.◌++◌ ns "/")) p.values)

abbrev pub with_reading : Option Point → Peripheral → Peripheral
with_reading none p = p
with_reading (some reading) p = record p { last_reading = some reading }

-- The loop of List over the peripherals.
unfoldable pub add_readings : Point → List Peripheral → List Peripheral
unfolding filter_by_namespace
add_readings last ps =
    map (λ (p : Peripheral). with_reading (filter_by_namespace last (address p.kind p.pin)) p) ps

-- A query that fails is only logged, and one may find nothing.
abbrev pub read_last :
    List Peripheral → Result (Option Point) × World → Result (List Peripheral) × World
read_last ps (err e, w) = (ok ps, w)
read_last ps (ok none, w) = (ok ps, w)
read_last ps (ok (some last), w) = (ok (add_readings last ps), w)

-- Where there is a querier and a peripheral, its last readings are added.
abbrev pub with_readings :
    Option (String → Action (Option Point)) → String → List Peripheral → Action (List Peripheral)
with_readings (some query) device_id (p ∷ ps) w = read_last (p ∷ ps) (query device_id w)
with_readings (some query) device_id [] w = (ok [], w)
with_readings none device_id ps w = (ok ps, w)

-- Service.List
unfoldable pub list :
    Option (String → Action (Option Point)) → String → String → Action (List Peripheral)
list querier device_id user_id = do
  ps ← list_peripherals device_id user_id
  with_readings querier device_id ps

-- uuid.NewString for an entry that has no id
unfoldable pub assign_ids : List CronEntry → Action (List CronEntry)
assign_ids [] = pure []
assign_ids (e ∷ es) = do
  id ← if e.id == "" then draw "uuid" else pure e.id
  rest ← assign_ids es
  pure (record e { id = id } ∷ rest)

abbrev pub command_topic : String → Peripheral → String
command_topic device_id p =
    String.◌++◌ "fishhub/" (String.◌++◌ device_id (String.◌++◌ "/commands/" (address p.kind p.pin)))

-- The message of SetSchedule, for the texts of the entries and of the windows.
abbrev pub schedule_body : (Schedule → String) → Schedule → String → List (String × String)
schedule_body text s id =
    ("id", id)
    ∷ ("command", "schedule")
    ∷ (if s.type == "cron"
        then ("type", "cron") ∷ ("entries", text s) ∷ []
        else ("type", "windows") ∷ ("windows", text s) ∷ [])

unfoldable pub send_schedule :
    (Schedule → String) → String → Schedule → Peripheral → Action (Unit {0})
send_schedule text device_id s p = do
  id ← draw "uuid"
  ignore (publish "mqtt publish" (command_topic device_id p) (schedule_body text s id))

-- Service.SetSchedule
unfoldable pub set_schedule :
    (Schedule → String) → String → String → String → Schedule → Action Peripheral
set_schedule text device_id user_id id s = do
  entries ← assign_ids s.entries
  p ← set_peripheral_schedule device_id user_id id (record s { entries = entries })
  send_schedule text device_id (record s { entries = entries }) p
  pure p

abbrev pub mode_body : String → String → List (String × String)
mode_body mode id = ("id", id) ∷ ("command", "set_mode") ∷ ("mode", mode) ∷ []

-- The body of the transaction of SetControlMode: the command is sent before the commit.
unfoldable pub change_mode : String → String → String → String → Action Peripheral
change_mode device_id user_id id mode = do
  p ← set_control_mode device_id user_id id mode
  uuid ← draw "uuid"
  publish "set control mode: mqtt publish" (command_topic device_id p) (mode_body mode uuid)
  pure p

-- Service.SetControlMode
unfoldable pub control_mode : String → String → String → String → Action Peripheral
control_mode device_id user_id id mode =
    transaction "set control mode: begin tx" "set control mode: commit"
      (change_mode device_id user_id id mode)

-- The field command that the decoder finds, none for a body that it refuses.
abbrev pub is_command : Option String → Bool
is_command none = false
is_command (some command) = command == "set" || command == "schedule"

-- Service.SendCommand: the body goes to the device as it came, as the value of an empty key.
unfoldable pub send_command :
    (String → Option String) → String → String → String → String → Action (Unit {0})
send_command decode device_id user_id id body = do
  p ← get_peripheral device_id user_id id
  (if is_command (decode body) then pure tt else raise invalid_command)
  publish "mqtt publish" (command_topic device_id p) (("", body) ∷ [])

-- Service.Update
unfoldable pub update : (String → String) → String → String → String → String → Action Peripheral
update text device_id user_id id name = update_peripheral text device_id user_id id name

-- The payload of the event of Delete.
abbrev pub delete_payload : String → Peripheral → Payload
delete_payload device_id p = peripheral_push device_id (address p.kind p.pin) "delete" "" 0 none

-- The body of the transaction of Delete.
unfoldable pub delete_and_push : String → String → String → Action (Unit {0})
delete_and_push device_id user_id id = do
  p ← delete_peripheral device_id user_id id
  insert "delete peripheral: enqueue push" push_type (delete_payload device_id p) push_timeout

-- Service.Delete
unfoldable pub delete : String → String → String → Action (Unit {0})
delete device_id user_id id =
    transaction "delete peripheral: begin tx" "delete peripheral: commit"
      (delete_and_push device_id user_id id)
