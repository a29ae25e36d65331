-- ===== src/Peripherals/Violations.antt =====
-- The unique indexes of the table of peripherals (migrations 015, 016 and 028), and what
-- internal/peripheral/store.go reads of the error of a statement that violates one.
use Prim.Native.String.{len, slice}
use text.Mathlib.Text.{find?}
use fishhub_server.Prelude.{
  ◌+◌, String, ◌==◌, ◌&&◌, ◌||◌, Bool, false, Option, none, some, List, eqb, if◌then◌else◌, is_none,
  any,
}
use fishhub_server.Schema.{PortRow, PeripheralRow}
use fishhub_server.World.{Error, failed, peripheral_exists, port_in_use}
use fishhub_server.Text.{contains}

abbrev pub is_active_of : String → PeripheralRow → Bool
is_active_of device_id p = p.device_id == device_id && is_none p.deleted_at

-- uniqueViolationIndex, on the text of an error
unfoldable pub unique_violation_index : String → String
unfolding contains
unique_violation_index message =
    if contains message "23505"
    then elim (find? message "unique constraint \"") [
      | none ↦ "unknown"
      | some i ↦
          let rest = slice message (i + len "unique constraint \"") (len message) in
          elim (find? rest "\"") [ none ↦ "unknown" | some end ↦ slice rest 0 end ]
    ]
    else ""

abbrev pub name_index : String
name_index = "peripherals_device_name_active_idx"

abbrev pub pin_index : String
pin_index = "peripherals_device_pin_active_idx"

abbrev pub port_index : String
port_index = "peripherals_port_id_active_idx"

-- An active row with the same key in one of the indexes.
abbrev pub has_name : String → String → PeripheralRow → Bool
has_name device_id name p = is_active_of device_id p && p.name == name

abbrev pub has_pin : String → PortRow → PeripheralRow → Bool
has_pin device_id port p = is_active_of device_id p && eqb p.pin port.pin

abbrev pub has_port : PortRow → PeripheralRow → Bool
has_port port p = is_none p.deleted_at && elim p.port_id [ none ↦ false | some id ↦ id == port.id ]

-- The index that a new row violates, in the order in which the indexes were created.
unfoldable pub violated_index : String → String → PortRow → List PeripheralRow → Option String
unfolding any
violated_index device_id name port rows =
    if any (has_name device_id name) rows
    then some name_index
    else if any (has_pin device_id port) rows
    then some pin_index
    else if any (has_port port) rows
    then some port_index
    else none

-- What CreatePeripheral makes of the index that uniqueViolationIndex names.
unfoldable pub violation_error : String → Error
violation_error index =
    if index == name_index
    then peripheral_exists
    else if index == pin_index || index == port_index
    then port_in_use
    else failed "create peripheral: insert"

-- What UpdatePeripheral makes of a violated index.
unfoldable pub rename_error : String → Error
rename_error index = if index == name_index then peripheral_exists else failed "update peripheral"
