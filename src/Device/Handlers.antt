-- ===== src/Device/Handlers.antt =====
-- The rest of internal/device/service.go, with ListByUserID of internal/device/store.go, and the
-- handlers of devices in internal/api/handler.go. What a JSON decoder reads of a body is a parameter,
-- with none for a body that it refuses.
use Prim.Native.String
use fishhub_server.Prelude.{
  String, ◌==◌, ◌&&◌, ◌||◌, Bool, Option, none, some, List, [], ◌∷◌, if◌then◌else◌, is_none, select,
}
use mathlib.Core.List.{reverse}
use fishhub_server.Schema.{Device}
use fishhub_server.World.{
  device_not_found, invalid_command, Result, ok, err, World, Action, Response, respond, pure, raise,
  call, gets, publish, ◌>>=◌, ◌>>◌,
}
use fishhub_server.Device.{find_by_id_and_user_id, delete, patch_device}

-- user_id = $1 AND deleted_at IS NULL
abbrev pub is_live_of_user : String → Device → Bool
is_live_of_user user_id d = d.user_id == user_id && is_none d.deleted_at

-- postgresStore.ListByUserID: ORDER BY created_at DESC, where the oldest row is the first of the
-- table.
unfoldable pub list_by_user_id : String → Action (List Device)
unfolding call select
list_by_user_id user_id =
    call "list devices" (gets (λ w. reverse (select (is_live_of_user user_id) w.db.devices)))

abbrev pub devices_response : Result (List Device) → Response × List Device
devices_response (ok devices) = (respond 200 "", devices)
devices_response (err _) = (respond 500 "internal_error", [])

-- DevicesHandler.List: the answer, and the devices that its body shows.
unfoldable pub list_devices_handler : String → World → (Response × List Device) × World
unfolding list_by_user_id
list_devices_handler user_id w = let (r, w') = list_by_user_id user_id w in (devices_response r, w')

abbrev pub deleted_response : Result (Unit {0}) → Response
deleted_response (ok _) = respond 204 ""
deleted_response (err device_not_found) = respond 404 "device_not_found"
deleted_response (err _) = respond 500 "internal_error"

-- DeleteDeviceHandler.ServeHTTP
unfoldable pub delete_device_handler :
    (String → Action (Unit {0})) → String → String → World → Response × World
delete_device_handler provisioner_delete device_id user_id w =
    let (r, w') = delete provisioner_delete device_id user_id w in (deleted_response r, w')

abbrev pub patched_response : Result Device → Response
patched_response (ok _) = respond 200 ""
patched_response (err device_not_found) = respond 404 "device_not_found"
patched_response (err _) = respond 500 "internal_error"

-- PatchDeviceHandler.ServeHTTP, for the name that was read of the body
unfoldable pub patch_device_handler : String → String → Option String → World → Response × World
patch_device_handler device_id user_id none w = (respond 400 "invalid_request", w)
patch_device_handler device_id user_id (some name) w =
    if name == ""
    then (respond 400 "invalid_request", w)
    else let (r, w') = patch_device device_id user_id name w in (patched_response r, w')

abbrev pub known_command : Option String → Action (Unit {0})
known_command none = raise invalid_command
known_command (some command) =
    if command == "set" || command == "schedule" then pure tt else raise invalid_command

-- Service.SendCommand, where decode gives the field command of a body.
unfoldable pub send_device_command :
    (String → Option String) → String → String → String → String → Action (Unit {0})
unfolding publish
send_device_command decode device_id user_id peripheral_name body = do
  d ← find_by_id_and_user_id device_id user_id
  known_command (decode body)
  publish "mqtt publish"
      (String.◌++◌ "fishhub/" (String.◌++◌ device_id (String.◌++◌ "/commands/" peripheral_name)))
      (("body", body) ∷ [])
