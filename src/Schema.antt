-- ===== src/Schema.antt =====
-- The rows of the database tables that the modelled stores read and write, and the payloads of the
-- outbox events: the structs of internal/outbox/outbox.go, internal/firmware/model.go,
-- internal/auth/{model,store}.go, internal/device/model.go, and the payload structs of
-- internal/provisioning/outbox_processor.go, internal/account/outbox_processor.go and
-- internal/peripheral/service.go; internal/devicemodel/model.go, internal/peripheral/model.go and internal/trigger/model.go.
-- An identifier is its text. A timestamp is a number of seconds. A nullable column is an Option.
use fishhub_server.Prelude.{ℕ, String, Bool, Option, List, []}

-- The columns of devices, of which device.Device is a view.
pub record Device : Type 0 where
  pub id : String
  pub user_id : String
  pub name : String
  pub firmware_version : Option String
  pub mqtt_username : Option String
  pub mqtt_password : Option String
  pub model_id : String
  pub deleted_at : Option ℕ

-- A value of a JSON object: a string, null, or the text of anything else.
pub data JsonValue : Type 0 where
  json_text : String → JsonValue
  json_null : JsonValue
  json_other : String → JsonValue

-- The JSON of the column config of actions.
pub data ActionConfig : Type 0 where
  config_object : List (String × JsonValue) → ActionConfig
  config_null : ActionConfig
  config_other : String → ActionConfig

-- trigger.Action
pub record TriggerAction : Type 0 where
  pub id : String
  pub type : String
  pub config : ActionConfig

pub data Payload : Type 0 where
  -- MQTTProvisionPayload: device_id, username, password
  mqtt_provision : String → String → String → Payload
  -- deviceConfigPushPayload: device_id, timezone
  device_config_push : String → String → Payload
  -- peripheralPushPayload: device_id, name, op, kind, pin, purpose
  peripheral_push : String → String → String → String → ℕ → Option String → Payload
  -- triggerPushPayload: op, id, device_id, enabled, condition, actions, cooldown_s
  trigger_push :
      String → String → String → Bool → String → List (String × ActionConfig) → ℕ → Payload

-- payload->>'device_id'
abbrev pub payload_device_id : Payload → String
payload_device_id (mqtt_provision d u p) = d
payload_device_id (device_config_push d tz) = d
payload_device_id (peripheral_push d name op kind pin purpose) = d
payload_device_id (trigger_push op id d enabled condition actions cooldown) = d

-- The status column of outbox_events.
pub data Status : Type 0 where
  pending processing completed dead : Status

pub record OutboxRow : Type 0 where
  pub id : String
  pub event_type : String
  pub payload : Payload
  pub status : Status
  pub claimed_at : Option ℕ
  pub claim_timeout_seconds : ℕ
  pub attempts : ℕ
  pub last_error : Option String

-- outbox.Event: what a claim returns of a row.
pub record Event : Type 0 where
  pub id : String
  pub event_type : String
  pub payload : Payload
  pub attempts : ℕ

-- The status column of device_firmware_updates.
pub data UpdateState : Type 0 where
  update_pending update_succeeded update_failed : UpdateState

pub record UpdateRecord : Type 0 where
  pub id : String
  pub device_id : String
  pub desired_version : String
  pub nonce : String
  pub status : UpdateState
  pub last_error : String
  pub requested_at : ℕ
  pub updated_at : ℕ

pub record User : Type 0 where
  pub id : String
  pub email : String
  pub provider : String
  pub provider_sub : String
  pub created_at : ℕ

pub record RefreshToken : Type 0 where
  pub id : String
  pub user_id : String
  pub token_hash : String
  pub expires_at : ℕ
  pub revoked_at : Option ℕ
  pub created_at : ℕ

pub record ProvisioningCode : Type 0 where
  pub code : String
  pub user_id : String
  pub device_id : Option String
  pub used_at : Option ℕ

pub record Account : Type 0 where
  pub id : String
  pub user_id : String
  pub email : String
  pub name : String
  pub timezone : String
  pub created_at : ℕ
  pub updated_at : ℕ

-- A number of seconds that may be below zero: -1 and less.
pub data Seconds : Type 0 where
  seconds : ℕ → Seconds
  below_zero : ℕ → Seconds

-- A row of triggers. A condition is the text of its JSON.
pub record TriggerRow : Type 0 where
  pub id : String
  pub device_id : String
  pub name : String
  pub enabled : Bool
  pub condition : String
  pub cooldown : ℕ
  pub created_at : ℕ
  pub deleted_at : Option ℕ

-- A row of actions, joined with the row of action_triggers that ties it to a trigger.
pub record ActionRow : Type 0 where
  pub id : String
  pub trigger_id : String
  pub action_type : String
  pub config : ActionConfig

-- trigger_events.Reading. A value is the text of its JSON number.
pub record Reading : Type 0 where
  pub peripheral : String
  pub value : String

pub record TriggerEvent : Type 0 where
  pub id : String
  pub trigger_event_id : String
  pub trigger_id : String
  pub fired_at : ℕ
  pub received_at : ℕ
  pub readings : List Reading

-- A row of device_models.
pub record DeviceModelRow : Type 0 where
  pub id : String
  pub slug : String
  pub name : String

-- A row of device_model_ports, which devicemodel.Port is.
pub record PortRow : Type 0 where
  pub id : String
  pub model_id : String
  pub kind : String
  pub label : String
  pub pin : ℕ

-- A value is the text of its JSON number.
pub record ScheduleWindow : Type 0 where
  pub from : String
  pub to : String
  pub value : String
  pub days : List ℕ

pub record CronEntry : Type 0 where
  pub id : String
  pub cron : String
  pub value : String

pub record Schedule : Type 0 where
  pub type : String
  pub windows : List ScheduleWindow
  pub entries : List CronEntry

-- The JSON of the column schedule: an object that json.Unmarshal reads as a Schedule, an array of
-- windows, or neither.
pub data StoredSchedule : Type 0 where
  object_json : Schedule → StoredSchedule
  array_json : List ScheduleWindow → StoredSchedule
  other_json : StoredSchedule

pub record PeripheralRow : Type 0 where
  pub id : String
  pub device_id : String
  pub name : String
  pub kind : String
  pub pin : ℕ
  pub port_id : Option String
  pub category : String
  pub control_mode : Option String
  pub purpose : Option String
  pub schedule : Option StoredSchedule
  pub deleted_at : Option ℕ
  pub created_at : ℕ
  pub updated_at : ℕ

-- The context of an alert, as the processor of alerts writes it.
pub record AlertContext : Type 0 where
  pub peripheral : String
  pub value : String
  pub fired_at : ℕ

pub record Alert : Type 0 where
  pub id : String
  pub user_id : String
  pub device_id : String
  pub trigger_id : String
  pub event_id : String
  pub severity : String
  pub message : String
  pub context : AlertContext
  pub created_at : ℕ

-- outbox: oldest row first. firmware_updates: newest row first.
pub record Db : Type 0 where
  pub devices : List Device
  pub outbox : List OutboxRow
  pub firmware_updates : List UpdateRecord
  pub users : List User
  pub refresh_tokens : List RefreshToken
  pub provisioning_codes : List ProvisioningCode
  pub accounts : List Account
  pub triggers : List TriggerRow
  pub actions : List ActionRow
  pub trigger_events : List TriggerEvent
  pub device_models : List DeviceModelRow
  pub ports : List PortRow
  pub peripherals : List PeripheralRow
  pub alerts : List Alert

abbrev pub empty_db : Db
empty_db = record {
  devices = [];
  outbox = [];
  firmware_updates = [];
  users = [];
  refresh_tokens = [];
  provisioning_codes = [];
  accounts = [];
  triggers = [];
  actions = [];
  trigger_events = [];
  device_models = [];
  ports = [];
  peripherals = [];
  alerts = [];
}
