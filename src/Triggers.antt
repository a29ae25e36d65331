-- ===== src/Triggers.antt =====
-- Triggers: internal/trigger/service.go and outbox_processor.go. The texts that json.Marshal makes of
-- the parts of a message are parameters.
pub mod Configs
pub mod Store
pub mod Pushes
pub mod Handlers
pub mod Resolution
pub mod Creation
pub mod Foreign
pub mod Gone
pub mod Lost
use Prim.Native.String
use fishhub_server.Prelude.{
  ℕ, String, ◌==◌, ◌&&◌, Bool, true, false, Option, none, some, List, [], ◌∷◌, map, if◌then◌else◌,
  any, find_first,
}
use fishhub_server.Schema.{
  Db, PeripheralRow, TriggerAction, ActionConfig, Payload, mqtt_provision, device_config_push,
  peripheral_push, trigger_push,
}
use fishhub_server.World.{
  Error, failed, device_not_found, invalid_peripheral, Result, ok, err, World, Action, pure, raise,
  lift, call, gets, publish, transaction, ignore, ◌>>=◌, ◌>>◌,
}
use fishhub_server.Device.{is_owned}
use fishhub_server.Outbox.{Processor, insert}
use fishhub_server.Peripherals.Pushes.{address}
use fishhub_server.Peripherals.Store.{is_reachable}
use Configs.{read_text, build_config}
use Store.{
  Trigger, TriggerCreate, TriggerUpdate, create_trigger, get_trigger, list_triggers, update_trigger,
  delete_trigger,
}

-- trigger.TriggerPatch. A condition that is empty is no change.
pub record TriggerPatch : Type 0 where
  pub name : Option String
  pub condition : String
  pub actions : Option (List TriggerAction)
  pub cooldown : Option ℕ
  pub enabled : Option Bool

-- pr.category = 'actuator', and the peripheral is one of the user's device
abbrev pub is_actuator : PeripheralRow → Bool
is_actuator p = p.category == "actuator"

unfoldable pub find_actuator : String → String → String → Db → Option PeripheralRow
unfolding find_first any
find_actuator device_id user_id id db =
    find_first (λ p. is_actuator p && is_reachable db.devices device_id user_id id p) db.peripherals

abbrev pub no_peripheral : Result Bool × World → Result String × World
no_peripheral (ok true, w) = (err invalid_peripheral, w)
no_peripheral (ok false, w) = (err device_not_found, w)
no_peripheral (err _, w) = (err device_not_found, w)

-- The second query, whose error is dropped, so that the device then counts as missing.
unfoldable pub why_not : String → String → Action String
unfolding any
why_not device_id user_id w =
    no_peripheral
      (call "device exists" (gets (λ x. any (is_owned device_id user_id) x.db.devices)) w)

unfoldable pub kind_pin_of : String → String → Option PeripheralRow → Action String
kind_pin_of device_id user_id none w = why_not device_id user_id w
kind_pin_of device_id user_id (some p) w = (ok (address p.kind p.pin), w)

-- validatePeripheralAction, for the peripheral_id that was read of the configuration
unfoldable pub resolve_peripheral : String → String → Option String → Action String
resolve_peripheral device_id user_id none w = (err invalid_peripheral, w)
resolve_peripheral device_id user_id (some id) w =
    if id == ""
    then (err invalid_peripheral, w)
    else call "validate peripheral action"
        (λ x. kind_pin_of device_id user_id (find_actuator device_id user_id id x.db) x) w

abbrev pub with_config : TriggerAction → Option ActionConfig → Action TriggerAction
with_config a none = raise (failed "build action config")
with_config a (some config) = pure (record a { config = config })

-- One action of the request: validatePeripheralAction and buildPeripheralActionConfig, for an action
-- on a peripheral.
unfoldable pub resolve_action : String → String → TriggerAction → Action TriggerAction
resolve_action device_id user_id a w =
    if a.type == "peripheral_action"
    then (do
      kind_pin ← resolve_peripheral device_id user_id (read_text "peripheral_id" a.config)
      with_config a (build_config a.config kind_pin))
        w
    else (ok a, w)

-- The loop over the actions, in Create and in applyPatch.
unfoldable pub resolve_actions : String → String → List TriggerAction → Action (List TriggerAction)
resolve_actions device_id user_id [] = pure []
resolve_actions device_id user_id (a ∷ rest) = do
  resolved ← resolve_action device_id user_id a
  others ← resolve_actions device_id user_id rest
  pure (resolved ∷ others)

-- actionsToPayload
abbrev pub actions_to_payload : List TriggerAction → List (String × ActionConfig)
actions_to_payload = map (λ (a : TriggerAction). (a.type, a.config))

abbrev pub upsert_payload : Trigger → Payload
upsert_payload t =
    trigger_push "upsert" t.id t.device_id t.enabled t.condition (actions_to_payload t.actions)
      t.cooldown

abbrev pub push_type : String
push_type = "trigger.push"

abbrev pub push_timeout : ℕ
push_timeout = 30

-- The body of the transaction of Create.
unfoldable pub create_and_push : String → String → TriggerCreate → Action Trigger
create_and_push device_id user_id p = do
  actions ← resolve_actions device_id user_id p.actions
  t ← create_trigger device_id (record p { actions = actions })
  insert "create trigger: enqueue push" push_type (upsert_payload t) push_timeout
  pure t

-- Service.Create
unfoldable pub create : String → String → TriggerCreate → Action Trigger
create device_id user_id p =
    transaction "create trigger: begin tx" "create trigger: commit"
      (create_and_push device_id user_id p)

-- Service.List and Service.Get
unfoldable pub list : String → String → Action (List Trigger)
list device_id user_id = list_triggers device_id user_id

unfoldable pub get : String → String → String → Action Trigger
get device_id user_id id = get_trigger device_id user_id id

abbrev pub or_else : {A : Type 0} → Option A → A → A
or_else none a = a
or_else (some b) a = b

abbrev pub patched_actions :
    String → String → List TriggerAction → Option (List TriggerAction) → Action (List TriggerAction)
patched_actions device_id user_id current none = pure current
patched_actions device_id user_id current (some actions) = resolve_actions device_id user_id actions

-- applyPatch
unfoldable pub apply_patch : String → String → Trigger → TriggerPatch → Action TriggerUpdate
apply_patch device_id user_id current patch = do
  actions ← patched_actions device_id user_id current.actions patch.actions
  pure (record {
    name = or_else patch.name current.name;
    condition = if patch.condition == "" then current.condition else patch.condition;
    actions = actions;
    cooldown = or_else patch.cooldown current.cooldown;
    enabled = or_else patch.enabled current.enabled;
  })

-- The body of the transaction of Update.
unfoldable pub patch_and_push : String → String → String → TriggerPatch → Trigger → Action Trigger
patch_and_push device_id user_id id patch current = do
  merged ← apply_patch device_id user_id current patch
  t ← update_trigger device_id user_id id merged
  insert "update trigger: enqueue push" push_type (upsert_payload t) push_timeout
  pure t

-- Service.Update
unfoldable pub update : String → String → String → TriggerPatch → Action Trigger
update device_id user_id id patch = do
  current ← get_trigger device_id user_id id
  transaction "update trigger: begin tx" "update trigger: commit"
      (patch_and_push device_id user_id id patch current)

abbrev pub delete_payload : Trigger → Payload
delete_payload t = trigger_push "delete" t.id t.device_id false "" [] 0

-- The body of the transaction of Delete.
unfoldable pub delete_and_push : String → String → String → Action (Unit {0})
delete_and_push device_id user_id id = do
  t ← delete_trigger device_id user_id id
  insert "delete trigger: enqueue push" push_type (delete_payload t) push_timeout

-- Service.Delete
unfoldable pub delete : String → String → String → Action (Unit {0})
delete device_id user_id id =
    transaction "delete trigger: begin tx" "delete trigger: commit"
      (delete_and_push device_id user_id id)
