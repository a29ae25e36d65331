-- ===== src/Triggers/Pushes.antt =====
-- The processor that tells a device of its triggers: internal/trigger/outbox_processor.go. The text
-- that json.Marshal makes of a list of actions is a parameter.
use Prim.Native.String
use fishhub_server.Prelude.{ℕ, String, ◌==◌, Bool, true, false, List, [], ◌∷◌, if◌then◌else◌}
use fishhub_server.Schema.{
  ActionConfig, Payload, mqtt_provision, device_config_push, peripheral_push, trigger_push,
}
use fishhub_server.World.{Action, publish, ignore, ◌>>◌}
use fishhub_server.Outbox.{Processor}
use fishhub_server.Peripherals.Pushes.{decimal}

-- triggerPushPayload, as json.Unmarshal finds it in a payload.
pub record TriggerPush : Type 0 where
  pub op : String
  pub id : String
  pub device_id : String
  pub enabled : Bool
  pub condition : String
  pub actions : List (String × ActionConfig)
  pub cooldown : ℕ

-- A payload without the fields of a trigger.
abbrev pub other_push : String → String → TriggerPush
other_push op device_id = record {
  op = op;
  id = "";
  device_id = device_id;
  enabled = false;
  condition = "";
  actions = [];
  cooldown = 0;
}

abbrev pub trigger_push_of : Payload → TriggerPush
trigger_push_of (trigger_push op id device_id enabled condition actions cooldown) = record {
  op = op;
  id = id;
  device_id = device_id;
  enabled = enabled;
  condition = condition;
  actions = actions;
  cooldown = cooldown;
}
trigger_push_of (mqtt_provision device_id username password) = other_push "" device_id
trigger_push_of (device_config_push device_id timezone) = other_push "" device_id
trigger_push_of (peripheral_push device_id name op kind pin purpose) = other_push op device_id

abbrev pub trigger_topic : TriggerPush → String
trigger_topic p = String.◌++◌ "fishhub/" (String.◌++◌ p.device_id (String.◌++◌ "/triggers/" p.id))

abbrev pub bool_text : Bool → String
bool_text true = "true"
bool_text false = "false"

abbrev pub upsert_body :
    (List (String × ActionConfig) → String) → TriggerPush → List (String × String)
upsert_body text p =
    ("op", "upsert")
    ∷ ("id", p.id)
    ∷ ("enabled", bool_text p.enabled)
    ∷ ("condition", p.condition)
    ∷ ("actions", text p.actions)
    ∷ ("cooldown_s", decimal p.cooldown)
    ∷ []

-- A deletion is told, and the retained message then cleared, if that succeeds.
unfoldable pub push_delete : TriggerPush → Action (Unit {0})
push_delete p = do
  publish "mqtt publish delete" (trigger_topic p) (("op", "delete") ∷ ("id", p.id) ∷ [])
  ignore (publish "mqtt clear retained" (trigger_topic p) [])

-- TriggerPushProcessor.Process
unfoldable pub push_trigger : (List (String × ActionConfig) → String) → Processor
push_trigger text event =
    let p = trigger_push_of event.payload in
    if p.op == "delete"
    then push_delete p
    else publish "mqtt publish upsert" (trigger_topic p) (upsert_body text p)
