-- ===== src/Device.antt =====
-- Devices: internal/device/store.go, internal/device/service.go, and the bridge of main.go that the
-- firmware service asks for the owner of a device.
pub mod Activation
pub mod Handlers
pub mod Gone
use fishhub_server.Prelude.{
  ℕ, String, ◌==◌, ◌&&◌, ◌||◌, Bool, true, false, Option, none, some, List, [], ◌∷◌, if◌then◌else◌,
  is_none, find_first, any, update_where, not,
}
use fishhub_server.Schema.{
  Device, OutboxRow, Status, pending, processing, completed, dead, payload_device_id,
}
use fishhub_server.World.{
  Error, device_not_found, firmware_device_not_found, Result, ok, err, World, Action, Response,
  respond, pure, raise, lift, call, gets, modify_db, ignore, ◌>>=◌, ◌>>◌,
}

-- id = $1 AND user_id = $2 AND deleted_at IS NULL
abbrev pub is_owned : String → String → Device → Bool
is_owned device_id user_id d = d.id == device_id && d.user_id == user_id && is_none d.deleted_at

-- id = $1 AND deleted_at IS NULL
abbrev pub is_live : String → Device → Bool
is_live device_id d = d.id == device_id && is_none d.deleted_at

abbrev pub or_error {ℓ} : {A : Type ℓ} → Error → Option A → Result A
or_error e none = err e
or_error e (some a) = ok a

-- postgresStore.FindByIDAndUserID
unfoldable pub find_by_id_and_user_id : String → String → Action Device
unfolding call find_first
find_by_id_and_user_id device_id user_id =
    call "find device"
      (λ w. (or_error device_not_found (find_first (is_owned device_id user_id) w.db.devices), w))

-- postgresStore.FindByID
unfoldable pub find_by_id : String → Action Device
unfolding call find_first
find_by_id device_id =
    call "find device by id"
      (λ w. (or_error device_not_found (find_first (is_live device_id) w.db.devices), w))

as_firmware_error : Result Device × World → Result (Unit {0}) × World
as_firmware_error (ok _, w) = (ok tt, w)
as_firmware_error (err device_not_found, w) = (err firmware_device_not_found, w)
as_firmware_error (err e, w) = (err e, w)

-- deviceOwnerBridge.CheckOwnership
unfoldable pub check_ownership : String → String → Action (Unit {0})
unfolding find_by_id_and_user_id as_firmware_error
check_ownership device_id user_id w = as_firmware_error (find_by_id_and_user_id device_id user_id w)

abbrev pub or_empty : Option String → String
or_empty none = ""
or_empty (some s) = s

abbrev pub delete_found : String → String → Option Device → Action String
delete_found device_id user_id none w = (err device_not_found, w)
delete_found device_id user_id (some d) w = (
  ok (or_empty d.mqtt_username),
  record w {
    db = record w.db {
      devices =
          update_where (is_owned device_id user_id) (λ x. record x { deleted_at = some w.now })
            w.db.devices;
    };
  },
)

-- postgresStore.DeleteDevice: the device is marked, and its MQTT user name returned.
unfoldable pub delete_device : String → String → Action String
unfolding call find_first update_where
delete_device device_id user_id =
    call "delete device"
      (λ w. delete_found device_id user_id (find_first (is_owned device_id user_id) w.db.devices) w)

-- Service.Delete. The user of the broker is deleted if there is one; a failure is only logged.
unfoldable pub delete : (String → Action (Unit {0})) → String → String → Action (Unit {0})
unfolding delete_device
delete provisioner_delete device_id user_id = do
  username ← delete_device device_id user_id
  (if username == "" then pure tt else ignore (provisioner_delete username))

abbrev pub patch_found : String → String → String → Option Device → Action Device
patch_found device_id user_id name none w = (err device_not_found, w)
patch_found device_id user_id name (some d) w = (
  ok (record d { name = name }),
  record w {
    db = record w.db {
      devices =
          update_where (is_owned device_id user_id) (λ x. record x { name = name }) w.db.devices;
    };
  },
)

-- postgresStore.PatchDevice
unfoldable pub patch_device : String → String → String → Action Device
unfolding call find_first update_where
patch_device device_id user_id name = call "patch device" (λ w.
    patch_found device_id user_id name (find_first (is_owned device_id user_id) w.db.devices) w)

-- device.ActivationStatus
pub record ActivationStatus : Type 0 where
  pub ready : Bool
  pub mqtt_username : String
  pub mqtt_password : String

-- status IN ('pending', 'processing')
abbrev pub is_open : Status → Bool
is_open pending = true
is_open processing = true
is_open completed = false
is_open dead = false

abbrev pub is_open_for : String → OutboxRow → Bool
is_open_for device_id r = payload_device_id r.payload == device_id && is_open r.status

abbrev not_ready : ActivationStatus
not_ready = record { ready = false; mqtt_username = ""; mqtt_password = "" }

status_of : Option String → Option String → Bool → ActivationStatus
status_of (some username) (some password) false = record {
  ready = true;
  mqtt_username = username;
  mqtt_password = password;
}
status_of _ _ _ = not_ready

-- postgresStore.GetActivationStatus
unfoldable pub get_activation_status : String → Action ActivationStatus
unfolding call find_first any status_of
get_activation_status device_id = call "get activation status" (λ w.
    elim (find_first (is_live device_id) w.db.devices) [
      | none ↦ (err device_not_found, w)
      | some d ↦ (
        ok (status_of d.mqtt_username d.mqtt_password (any (is_open_for device_id) w.db.outbox)),
        w,
      )
    ])

status_response : Result ActivationStatus → Response
status_response (ok _) = respond 200 ""
status_response (err device_not_found) = respond 404 "device_not_found"
status_response (err _) = respond 500 "internal_error"

-- ActivationStatusHandler.ServeHTTP (internal/api/handler.go), for the device whose token the
-- middleware has put in the context, if any.
unfoldable pub activation_status_handler : Option String → String → World → Response
unfolding get_activation_status status_response
activation_status_handler none device_id w = respond 401 "unauthorized"
activation_status_handler (some token_device) device_id w =
    if device_id == token_device
    then status_response (get_activation_status device_id w).0
    else respond 403 "forbidden"
