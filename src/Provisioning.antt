-- ===== src/Provisioning.antt =====
-- Provisioning: internal/provisioning/store.go (the codes), internal/provisioning/service.go,
-- internal/provisioning/activation.go, internal/provisioning/outbox_processor.go, and the two
-- handlers of internal/api/handler.go that call them. The broker's API, the signer of device tokens
-- and the device model of the slug fishhub-v1 are parameters. The 32 random bytes of a password, in
-- hexadecimal, are one drawn value; so are the 6 random bytes of a code.
pub mod Claim
pub mod Activate
pub mod Ready
pub mod Codes
use Prim.Native.Char.{code}
use Prim.Native.String
use fishhub_server.Prelude.{
  zero, suc, ◌%◌, ℕ, String, ◌==◌, ◌&&◌, Bool, true, false, Option, none, some, List, [], ◌∷◌, ◌++◌,
  if◌then◌else◌, is_none, find_first, any, update_where, select,
}
use fishhub_server.Schema.{
  Db, Device, ProvisioningCode, Payload, mqtt_provision, device_config_push, peripheral_push,
  trigger_push, Event,
}
use fishhub_server.World.{
  Error, failed, code_not_found, code_already_used, Result, ok, err, World, Action, Response,
  respond, pure, raise, lift, gets, call, draw, modify_db, transaction, ◌>>=◌, ◌>>◌,
}
use fishhub_server.Text.{contains}
use fishhub_server.Outbox.{Processor, insert, error_text}
use fishhub_server.Device.{or_error}
use fishhub_server.Account.{timezone_or_utc}

pub record Config : Type 0 where
  -- the row of device_models that the migrations seed
  pub default_model : Option String
  -- Signer.Sign
  pub sign : String → String → String

abbrev pub is_code : String → ProvisioningCode → Bool
is_code code r = r.code == code

abbrev pub is_unused : String → ProvisioningCode → Bool
is_unused code r = r.code == code && is_none r.used_at

abbrev pub is_free_of : String → ProvisioningCode → Bool
is_free_of user_id r = r.user_id == user_id && is_none r.used_at

abbrev pub new_code : String → String → ProvisioningCode
new_code code user_id = record { code = code; user_id = user_id; device_id = none; used_at = none }

-- INSERT INTO provisioning_codes, whose column code is unique.
unfoldable pub insert_code : String → String → Action String
insert_code code user_id w =
    if any (is_code code) w.db.provisioning_codes
    then (err (failed "insert provisioning code"), w)
    else (
      ok code,
      record w {
        db = record w.db {
          provisioning_codes = w.db.provisioning_codes ++ new_code code user_id ∷ [];
        };
      },
    )

abbrev pub charset : String
charset = "ABCDEFGHIJKLMNOPQRSTUVWXYZ0123456789"

-- The character at an index, as a text.
abbrev pub char_at : String → ℕ → String
char_at String.[] n = ""
char_at (String.◌∷◌ c s) zero = String.◌∷◌ c ""
char_at (String.◌∷◌ c s) (suc n) = char_at s n

-- The characters of a code, for the bytes that were read, each of them a character of the text.
abbrev pub code_of : String → String
code_of String.[] = ""
code_of (String.◌∷◌ c s) = String.◌++◌ (char_at charset (code c % 36)) (code_of s)

-- generateCode
unfoldable pub generate_code : Action String
unfolding draw
generate_code = do bytes ← draw "generate code"; pure (code_of bytes)

unfoldable pub code_or_new : String → Option ProvisioningCode → Action String
code_or_new user_id (some r) = pure r.code
code_or_new user_id none = do
  new ← generate_code
  call "insert provisioning code" (insert_code new user_id)

-- The unused codes of a user.
abbrev pub free_codes : String → World → List ProvisioningCode
free_codes user_id w = select (is_free_of user_id) w.db.provisioning_codes

-- postgresStore.GetOrCreateCode, which is Service.Provision. The statement has LIMIT 1 and no ORDER
-- BY: which one of the rows that match it returns is the database's choice, the first argument.
unfoldable pub get_or_create_code :
    (List ProvisioningCode → Option ProvisioningCode) → String → Action String
get_or_create_code limit_1 user_id = transaction "begin tx" "commit tx" (do
  found ← call "lookup code" (gets (λ w. limit_1 (free_codes user_id w)))
  code_or_new user_id found)

unused_or_error : Option ProvisioningCode → Result (Unit {0})
unused_or_error none = err code_not_found
unused_or_error (some r) = if is_none r.used_at then ok tt else err code_already_used

abbrev pub user_of : Option ProvisioningCode → Result String
user_of none = err code_already_used
user_of (some r) = ok r.user_id

abbrev pub new_device : String → String → String → Device
new_device id user_id model_id = record {
  id = id;
  user_id = user_id;
  name = "";
  firmware_version = none;
  mqtt_username = none;
  mqtt_password = none;
  model_id = model_id;
  deleted_at = none;
}

abbrev pub with_device : Device → Db → Db
with_device d db = record db { devices = db.devices ++ d ∷ [] }

-- The insertion into devices. A model that is missing violates NOT NULL.
abbrev pub insert_device : Option String → String → Action String
insert_device none user_id = raise (failed "insert device")
insert_device (some model_id) user_id = do
  id ← draw "insert device"
  modify_db (with_device (new_device id user_id model_id))
  pure id

abbrev pub use_code : ℕ → String → ProvisioningCode → ProvisioningCode
use_code now device_id r = record r { used_at = some now; device_id = some device_id }

abbrev pub with_used : ℕ → String → String → Db → Db
with_used now code device_id db = record db {
  provisioning_codes = update_where (is_code code) (use_code now device_id) db.provisioning_codes;
}

-- The statements of ClaimCode, in the order of the code: the look-up before the transaction, the
-- lock, and the update.
unfoldable pub lookup_code : String → Action (Unit {0})
unfolding call find_first unused_or_error
lookup_code code =
    call "lookup code"
      (λ w. (unused_or_error (find_first (is_code code) w.db.provisioning_codes), w))

unfoldable pub lock_code : String → Action String
unfolding call find_first
lock_code code =
    call "lock code" (λ w. (user_of (find_first (is_unused code) w.db.provisioning_codes), w))

unfoldable pub mark_code : String → String → Action (Unit {0})
unfolding call
mark_code code device_id = call "claim code" (λ w. modify_db (with_used w.now code device_id) w)

-- The body of the transaction of ClaimCode: the device's id and the user's.
unfoldable pub claim_locked : Config → String → Action (String × String)
claim_locked c code = do
  user_id ← lock_code code
  device_id ← call "insert device" (insert_device c.default_model user_id)
  mark_code code device_id
  pure (device_id, user_id)

-- postgresStore.ClaimCode
unfoldable pub claim_code : Config → String → Action (String × String)
claim_code c code = do lookup_code code; transaction "begin tx" "commit tx" (claim_locked c code)

abbrev pub with_credentials : String → String → String → Device → Device
with_credentials username password model_id d = record d {
  mqtt_username = some username;
  mqtt_password = some password;
  model_id = model_id;
}

abbrev pub with_activated : String → String → String → String → Db → Db
with_activated device_id username password model_id db = record db {
  devices =
      update_where (λ (d : Device). d.id == device_id) (with_credentials username password model_id)
        db.devices;
}

-- postgresStore.Activate
unfoldable pub activate_row : String → String → String → String → Action (Unit {0})
unfolding call
activate_row device_id username password model_id =
    call "activate device" (modify_db (with_activated device_id username password model_id))

abbrev pub provision_type : String
provision_type = "mqtt.provision_device"

abbrev pub config_push_type : String
config_push_type = "device.config_push"

abbrev pub claim_timeout : ℕ
claim_timeout = 30

-- The body of the transaction of ActivationService.Activate. The device's id is its user name.
unfoldable pub set_up : String → String → String → String → Action (Unit {0})
set_up device_id password model_id timezone = do
  activate_row device_id device_id password model_id
  insert "enqueue mqtt provision" provision_type (mqtt_provision device_id device_id password)
      claim_timeout
  insert "enqueue config push" config_push_type (device_config_push device_id timezone)
      claim_timeout

-- DefaultModelID of internal/devicemodel/store.go
unfoldable pub default_model_id : Config → Action String
unfolding call
default_model_id c =
    call "resolve default model" (lift (or_error (failed "resolve default model") c.default_model))

-- What Activate does once the code is claimed: the token and the device's id.
unfoldable pub complete_activation : Config → String → String → Action (String × String)
complete_activation c device_id user_id = do
  timezone ← timezone_or_utc user_id
  password ← draw "generate mqtt password"
  model_id ← default_model_id c
  transaction "begin tx" "commit tx" (set_up device_id password model_id timezone)
  token ← call "sign device jwt" (pure (c.sign device_id user_id))
  pure (token, device_id)

-- ActivationService.Activate
unfoldable pub activate : Config → String → Action (String × String)
activate c code = do claimed ← claim_code c code; complete_activation c claimed.0 claimed.1

provision_response : Result String → Response
provision_response (ok _) = respond 201 ""
provision_response (err _) = respond 500 "internal_error"

-- ProvisionHandler.ServeHTTP
unfoldable pub provision_handler :
    (List ProvisioningCode → Option ProvisioningCode) → String → World → Response × World
unfolding get_or_create_code provision_response
provision_handler limit_1 user_id w =
    let (r, w') = get_or_create_code limit_1 user_id w in (provision_response r, w')

activate_response : Result (String × String) → Response
activate_response (ok _) = respond 202 ""
activate_response (err code_not_found) = respond 404 "provisioning_code_not_found"
activate_response (err code_already_used) = respond 409 "provisioning_code_conflict"
activate_response (err _) = respond 500 "internal_error"

-- ActivateHandler.ServeHTTP, for the code that was read of the body, none if it is no JSON.
unfoldable pub activate_handler : Config → Option String → World → Response × World
unfolding activate_response
activate_handler c none w = (respond 400 "invalid_request", w)
activate_handler c (some code) w =
    if code == ""
    then (respond 400 "invalid_request", w)
    else let (r, w') = activate c code w in (activate_response r, w')

-- The fields device_id, username and password that json.Unmarshal finds in a payload.
abbrev pub provision_fields : Payload → String × String
provision_fields (mqtt_provision device_id username password) = (username, password)
provision_fields (device_config_push device_id timezone) = ("", "")
provision_fields (peripheral_push device_id name op kind pin purpose) = ("", "")
provision_fields (trigger_push op id device_id enabled condition actions cooldown) = ("", "")

-- isAlreadyExists, on the error of ProvisionDevice
unfoldable pub unless_exists : Result (Unit {0}) × World → Result (Unit {0}) × World
unless_exists (ok _, w) = (ok tt, w)
unless_exists (err e, w) = if contains (error_text e) "409" then (ok tt, w) else (err e, w)

-- MQTTProvisionProcessor.Process, for the ProvisionDevice of the broker's client
unfoldable pub provision_device : (String → String → Action (Unit {0})) → Processor
unfolding unless_exists
provision_device provision event w =
    let (username, password) = provision_fields event.payload in
    unless_exists (provision username password w)
