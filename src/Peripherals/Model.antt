-- ===== src/Peripherals/Model.antt =====
-- The peripherals that the store returns: internal/peripheral/model.go, and how store.go reads one of
-- a row, with parseSchedule.
use fishhub_server.Prelude.{
  ℕ, String, ◌==◌, Option, none, some, List, [], if◌then◌else◌, find_first,
}
use fishhub_server.Schema.{
  PortRow, Schedule, StoredSchedule, object_json, array_json, other_json, PeripheralRow,
}
use fishhub_server.World.{failed, Result, ok, err}
use fishhub_server.Measurements.Model.{Point}

-- peripheral.Port
pub record Port : Type 0 where
  pub id : String
  pub label : String
  pub pin : ℕ

-- peripheral.Peripheral
pub record Peripheral : Type 0 where
  pub id : String
  pub device_id : String
  pub name : String
  pub kind : String
  pub pin : ℕ
  pub port : Option Port
  pub category : String
  pub control_mode : Option String
  pub purpose : Option String
  pub schedule : Option Schedule
  pub last_reading : Option Point
  pub created_at : ℕ
  pub updated_at : ℕ

-- The columns of a row that every statement returns.
abbrev pub peripheral_of : Option Port → Option Schedule → PeripheralRow → Peripheral
peripheral_of port schedule r = record {
  id = r.id;
  device_id = r.device_id;
  name = r.name;
  kind = r.kind;
  pin = r.pin;
  port = port;
  category = r.category;
  control_mode = r.control_mode;
  purpose = r.purpose;
  schedule = schedule;
  last_reading = none;
  created_at = r.created_at;
  updated_at = r.updated_at;
}

-- parseSchedule
unfoldable pub parse_schedule : StoredSchedule → Option Schedule
parse_schedule (object_json s) = some (if s.type == "" then record s { type = "windows" } else s)
parse_schedule (array_json windows) =
    some (record { type = "windows"; windows = windows; entries = [] })
parse_schedule other_json = none

-- if scheduleJSON != nil { parseSchedule }, with an error where it cannot be read
unfoldable pub read_schedule : String → Option StoredSchedule → Result (Option Schedule)
unfolding parse_schedule
read_schedule what none = ok none
read_schedule what (some stored) = elim (parse_schedule stored) [
  | some s ↦ ok (some s)
  | none ↦ err (failed what)
]

abbrev pub with_schedule :
    Option Port → PeripheralRow → Result (Option Schedule) → Result Peripheral
with_schedule port r (ok schedule) = ok (peripheral_of port schedule r)
with_schedule port r (err e) = err e

-- The peripheral that is scanned of a row.
abbrev pub scan : String → Option Port → PeripheralRow → Result Peripheral
scan what port r = with_schedule port r (read_schedule what r.schedule)

abbrev pub port_of_row : Option PortRow → Option Port
port_of_row none = none
port_of_row (some p) = some (record { id = p.id; label = p.label; pin = p.pin })

-- LEFT JOIN device_model_ports dmp ON dmp.id = p.port_id
abbrev pub joined_port : List PortRow → Option String → Option Port
joined_port ports none = none
joined_port ports (some id) = port_of_row (find_first (λ (p : PortRow). p.id == id) ports)
