-- ===== src/Peripherals/Store.antt =====
-- The statements on the table of peripherals: internal/peripheral/store.go, but for CreatePeripheral.
-- The text of the driver's error for a violated index is a parameter.
use fishhub_server.Prelude.{
  ℕ, String, ◌==◌, ◌&&◌, not, Bool, Option, none, some, List, [], ◌∷◌, if◌then◌else◌, any,
  find_first, select, update_first,
}
use fishhub_server.Schema.{Device, PortRow, Schedule, object_json, PeripheralRow}
use fishhub_server.World.{
  Error, peripheral_not_found, not_an_actuator, Result, ok, err, World, Action, call,
}
use fishhub_server.Device.{is_owned}
use fishhub_server.Peripherals.Model.{Peripheral, peripheral_of, read_schedule, scan, joined_port}
use fishhub_server.Peripherals.Violations.{
  is_active_of, unique_violation_index, name_index, has_name, rename_error,
}
use fishhub_server.Peripherals.Create.{set_peripherals}

-- p.id = $4 AND p.device_id = $3 AND d.user_id = $2, both active, with d.id = p.device_id
abbrev pub is_reachable : List Device → String → String → String → PeripheralRow → Bool
is_reachable devices device_id user_id id p =
    p.id == id && is_active_of device_id p && any (is_owned device_id user_id) devices

-- The rows of ListPeripherals, up to the first one that cannot be scanned.
unfoldable pub scan_all : List PortRow → List PeripheralRow → Result (List Peripheral)
scan_all ports [] = ok []
scan_all ports (r ∷ rs) =
    elim (scan "list peripherals: unmarshal schedule" (joined_port ports r.port_id) r) [
      | err e ↦ err e
      | ok p ↦ elim (scan_all ports rs) [ err e ↦ err e | ok ps ↦ ok (p ∷ ps) ]
    ]

-- postgresStore.ListPeripherals: ORDER BY created_at, which is the table's order
unfoldable pub list_peripherals : String → String → Action (List Peripheral)
unfolding select any
list_peripherals device_id user_id = call "list peripherals: query" (λ w. (
  scan_all w.db.ports (
      select (λ p. is_active_of device_id p && any (is_owned device_id user_id) w.db.devices)
        w.db.peripherals),
  w,
))

-- The reachable peripheral with an id, if there is one.
unfoldable pub find_reachable : String → String → String → World → Option PeripheralRow
unfolding find_first
find_reachable device_id user_id id w =
    find_first (is_reachable w.db.devices device_id user_id id) w.db.peripherals

-- The UPDATE of the reachable row, whose id is the table's key.
unfoldable pub update_reachable :
    String → String → String → (PeripheralRow → PeripheralRow) → World → World
unfolding update_first
update_reachable device_id user_id id f w =
    set_peripherals
      (update_first (is_reachable w.db.devices device_id user_id id) f w.db.peripherals) w

unfoldable pub got : Option PeripheralRow → Action Peripheral
got none w = (err peripheral_not_found, w)
got (some r) w = (scan "get peripheral: unmarshal schedule" (joined_port w.db.ports r.port_id) r, w)

-- postgresStore.GetPeripheral
unfoldable pub get_peripheral : String → String → String → Action Peripheral
unfolding got
get_peripheral device_id user_id id =
    call "get peripheral" (λ w. got (find_reachable device_id user_id id w) w)

-- What a statement UPDATE … RETURNING does with the row it finds.
unfoldable pub updating :
    String
    → String
    → String
    → (PeripheralRow → PeripheralRow)
    → (PeripheralRow → Result Peripheral)
    → Option PeripheralRow
    → Action Peripheral
updating device_id user_id id f result none w = (err peripheral_not_found, w)
updating device_id user_id id f result (some r) w =
    (result (f r), update_reachable device_id user_id id f w)

abbrev pub scheduled : Schedule → ℕ → PeripheralRow → PeripheralRow
scheduled s now r = record r { schedule = some (object_json s); updated_at = now }

-- postgresStore.SetPeripheralSchedule
unfoldable pub set_peripheral_schedule : String → String → String → Schedule → Action Peripheral
unfolding updating
set_peripheral_schedule device_id user_id id s = call "set peripheral schedule: update" (λ w.
    updating device_id user_id id (scheduled s w.now)
      (scan "set peripheral schedule: unmarshal" none) (find_reachable device_id user_id id w) w)

abbrev pub with_mode : String → ℕ → PeripheralRow → PeripheralRow
with_mode mode now r = record r { control_mode = some mode; updated_at = now }

-- The look-up where the UPDATE of SetControlMode has found no row.
no_actuator : Option PeripheralRow → Error
no_actuator none = peripheral_not_found
no_actuator (some r) = not_an_actuator

unfoldable pub look_up_category : String → String → String → Action Peripheral
unfolding no_actuator
look_up_category device_id user_id id =
    call "set control mode: lookup"
      (λ w. (err (no_actuator (find_reachable device_id user_id id w)), w))

-- The UPDATE finds the reachable row if its category is actuator.
unfoldable pub updating_actuator :
    String → String → String → String → Option PeripheralRow → Action Peripheral
unfolding updating look_up_category
updating_actuator device_id user_id id mode none w = look_up_category device_id user_id id w
updating_actuator device_id user_id id mode (some r) w =
    if r.category == "actuator"
    then updating device_id user_id id (with_mode mode w.now)
        (scan "set control mode: unmarshal schedule" none) (some r) w
    else look_up_category device_id user_id id w

-- postgresStore.SetControlMode
unfoldable pub set_control_mode : String → String → String → String → Action Peripheral
unfolding updating_actuator
set_control_mode device_id user_id id mode =
    call "set control mode: update"
      (λ w. updating_actuator device_id user_id id mode (find_reachable device_id user_id id w) w)

abbrev pub deleted : ℕ → PeripheralRow → PeripheralRow
deleted now r = record r { deleted_at = some now }

-- A schedule that cannot be read is left out.
abbrev pub readable : Result (Option Schedule) → Option Schedule
readable (ok s) = s
readable (err e) = none

abbrev pub scan_deleted : PeripheralRow → Result Peripheral
scan_deleted r = ok (peripheral_of none (readable (read_schedule "" r.schedule)) r)

-- postgresStore.DeletePeripheral
unfoldable pub delete_peripheral : String → String → String → Action Peripheral
unfolding updating
delete_peripheral device_id user_id id = call "delete peripheral" (λ w.
    updating device_id user_id id (deleted w.now) scan_deleted
      (find_reachable device_id user_id id w) w)

abbrev pub renamed : String → ℕ → PeripheralRow → PeripheralRow
renamed name now r = record r { name = name; updated_at = now }

-- Another active row of the device has the name.
unfoldable pub name_taken : String → String → String → List PeripheralRow → Bool
unfolding any
name_taken device_id id name rows = any (λ p. has_name device_id name p && not (p.id == id)) rows

unfoldable pub rename_found :
    (String → String) → String → String → String → String → Option PeripheralRow → Action Peripheral
unfolding updating
rename_found text device_id user_id id name none w = (err peripheral_not_found, w)
rename_found text device_id user_id id name (some r) w =
    if name_taken device_id id name w.db.peripherals
    then (err (rename_error (unique_violation_index (text name_index))), w)
    else updating device_id user_id id (renamed name w.now)
        (scan "update peripheral: unmarshal schedule" (joined_port w.db.ports r.port_id)) (some r) w

-- postgresStore.UpdatePeripheral
unfoldable pub update_peripheral :
    (String → String) → String → String → String → String → Action Peripheral
unfolding rename_found
update_peripheral text device_id user_id id name =
    call "update peripheral"
      (λ w. rename_found text device_id user_id id name (find_reachable device_id user_id id w) w)
