-- ===== src/Peripherals/Handlers.antt =====
-- The handlers of peripherals in internal/api/handler.go. What a body decodes to is a parameter, with
-- none for a body that the decoder refuses.
use fishhub_server.Prelude.{
  String, ◌==◌, ◌||◌, not, Bool, Option, none, some, List, [], if◌then◌else◌,
}
use fishhub_server.Schema.{PortRow, Schedule}
use fishhub_server.World.{
  device_not_found, model_not_found, port_not_found, peripheral_exists, port_in_use,
  peripheral_not_found, not_an_actuator, invalid_command, Result, ok, err, World, Action, Response,
  respond,
}
use fishhub_server.DeviceModels.{DeviceModel, get_by_device_id, get_port}
use fishhub_server.Measurements.Model.{Point}
use fishhub_server.Peripherals.Model.{Peripheral}
use fishhub_server.Peripherals.Create.{NewPeripheral, is_category}
use fishhub_server.Peripherals.{
  register, list, set_schedule, control_mode, send_command, update, delete,
}

-- createPeripheralRequest
pub record CreateRequest : Type 0 where
  pub name : String
  pub kind : String
  pub port_id : String
  pub category : String
  pub purpose : Option String

-- The default of the category.
abbrev pub category_of : CreateRequest → String
category_of q = if q.category == "" then "sensor" else q.category

-- What the handler asks the service to create.
abbrev pub requested : String → CreateRequest → PortRow → NewPeripheral
requested device_id q port = record {
  device_id = device_id;
  name = q.name;
  kind = q.kind;
  category = category_of q;
  purpose = q.purpose;
  port = port;
}

abbrev pub created_response : Result Peripheral → Response
created_response (ok _) = respond 201 ""
created_response (err device_not_found) = respond 404 "device_not_found"
created_response (err peripheral_exists) = respond 409 "peripheral_name_conflict"
created_response (err port_in_use) = respond 409 "port_conflict"
created_response (err _) = respond 500 "internal_error"

abbrev pub answered : Result Peripheral × World → Response × World
answered (r, w) = (created_response r, w)

module _ (text : String → String) (device_id user_id : String) (q : CreateRequest) where
  unfoldable pub create_on_port : Result PortRow × World → Response × World
  create_on_port (ok port, w) =
      if port.kind == q.kind
      then answered (register text user_id (requested device_id q port) w)
      else (respond 400 "port_kind_mismatch", w)
  create_on_port (err port_not_found, w) = (respond 400 "port_not_found", w)
  create_on_port (err _, w) = (respond 500 "internal_error", w)

  unfoldable pub create_on_model : Result DeviceModel × World → Response × World
  create_on_model (ok m, w) = create_on_port (get_port q.port_id m.id w)
  create_on_model (err model_not_found, w) = (respond 404 "device_not_found", w)
  create_on_model (err _, w) = (respond 500 "internal_error", w)

abbrev pub is_incomplete : CreateRequest → Bool
is_incomplete q = q.name == "" || q.kind == "" || q.port_id == ""

-- CreatePeripheralHandler.ServeHTTP
unfoldable pub create_peripheral_handler :
    (String → String) → String → String → Option CreateRequest → World → Response × World
create_peripheral_handler text device_id user_id none w = (respond 400 "invalid_request", w)
create_peripheral_handler text device_id user_id (some q) w =
    if is_incomplete q || not (is_category (category_of q))
    then (respond 400 "invalid_request", w)
    else create_on_model text device_id user_id q (get_by_device_id device_id user_id w)

abbrev pub list_response : Result (List Peripheral) → Response × List Peripheral
list_response (ok ps) = (respond 200 "", ps)
list_response (err _) = (respond 500 "internal_error", [])

-- ListPeripheralsHandler.ServeHTTP: the answer, and the peripherals that its body shows.
unfoldable pub list_peripherals_handler :
    Option (String → Action (Option Point))
    → String
    → String
    → World
    → (Response × List Peripheral) × World
list_peripherals_handler querier device_id user_id w =
    let (r, w') = list querier device_id user_id w in (list_response r, w')

abbrev pub peripheral_response : Result Peripheral → Response
peripheral_response (ok _) = respond 200 ""
peripheral_response (err peripheral_not_found) = respond 404 "peripheral_not_found"
peripheral_response (err _) = respond 500 "internal_error"

abbrev pub with_type : Schedule → Schedule
with_type s = if s.type == "" then record s { type = "windows" } else s

-- SetPeripheralScheduleHandler.ServeHTTP
unfoldable pub set_schedule_handler :
    (Schedule → String) → String → String → String → Option Schedule → World → Response × World
set_schedule_handler text device_id user_id id none w = (respond 400 "invalid_request", w)
set_schedule_handler text device_id user_id id (some s) w =
    let (r, w') = set_schedule text device_id user_id id (with_type s) w in
    (peripheral_response r, w')

abbrev pub delete_response : Result (Unit {0}) → Response
delete_response (ok _) = respond 204 ""
delete_response (err peripheral_not_found) = respond 404 "peripheral_not_found"
delete_response (err _) = respond 500 "internal_error"

-- DeletePeripheralHandler.ServeHTTP
unfoldable pub delete_peripheral_handler : String → String → String → World → Response × World
delete_peripheral_handler device_id user_id id w =
    let (r, w') = delete device_id user_id id w in (delete_response r, w')

abbrev pub patch_response : Result Peripheral → Response
patch_response (ok _) = respond 200 ""
patch_response (err peripheral_not_found) = respond 404 "peripheral_not_found"
patch_response (err peripheral_exists) = respond 409 "peripheral_name_conflict"
patch_response (err _) = respond 500 "internal_error"

-- PatchPeripheralHandler.ServeHTTP, for the name that was read of the body.
unfoldable pub patch_peripheral_handler :
    (String → String) → String → String → String → Option String → World → Response × World
patch_peripheral_handler text device_id user_id id none w = (respond 400 "invalid_request", w)
patch_peripheral_handler text device_id user_id id (some name) w =
    if name == ""
    then (respond 400 "invalid_request", w)
    else let (r, w') = update text device_id user_id id name w in (patch_response r, w')

abbrev pub mode_response : Result Peripheral → Response
mode_response (ok _) = respond 200 ""
mode_response (err peripheral_not_found) = respond 404 "peripheral_not_found"
mode_response (err not_an_actuator) = respond 422 "not_an_actuator"
mode_response (err _) = respond 500 "internal_error"

abbrev pub is_mode : String → Bool
is_mode mode = mode == "automatic" || mode == "manual"

-- SetControlModeHandler.ServeHTTP, for the mode that was read of the body.
unfoldable pub set_control_mode_handler :
    String → String → String → Option String → World → Response × World
set_control_mode_handler device_id user_id id none w = (respond 400 "invalid_request", w)
set_control_mode_handler device_id user_id id (some mode) w =
    if is_mode mode
    then (let (r, w') = control_mode device_id user_id id mode w in (mode_response r, w'))
    else (respond 400 "invalid_request", w)

abbrev pub command_response : Result (Unit {0}) → Response
command_response (ok _) = respond 204 ""
command_response (err peripheral_not_found) = respond 404 "peripheral_not_found"
command_response (err invalid_command) = respond 400 "invalid_request"
command_response (err _) = respond 500 "internal_error"

-- CommandHandler.ServeHTTP, for the body that was read, none if reading failed.
unfoldable pub command_handler :
    (String → Option String) → String → String → String → Option String → World → Response × World
command_handler decode device_id user_id id none w = (respond 400 "invalid_request", w)
command_handler decode device_id user_id id (some body) w =
    let (r, w') = send_command decode device_id user_id id body w in (command_response r, w')
