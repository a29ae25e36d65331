-- ===== src/Triggers/Handlers.antt =====
-- The handlers of internal/api/trigger_handler.go. What the decoder reads of a body is a parameter,
-- with none for a body that it refuses.
use fishhub_server.Prelude.{
  ℕ, String, ◌==◌, ◌&&◌, ◌||◌, not, Bool, true, false, Option, none, some, List, [], ◌∷◌,
  if◌then◌else◌,
}
use fishhub_server.Schema.{Seconds, seconds, below_zero, TriggerAction}
use fishhub_server.World.{
  device_not_found, trigger_not_found, invalid_peripheral, Result, ok, err, World, Response,
  respond,
}
use fishhub_server.Triggers.Configs.{read_text}
use fishhub_server.Triggers.Store.{Trigger}
use fishhub_server.Triggers.{TriggerPatch, create, list, get, update, delete}

-- createTriggerRequest
pub record CreateTriggerRequest : Type 0 where
  pub name : String
  pub condition : String
  pub actions : List TriggerAction
  pub cooldown : Seconds

abbrev pub has_command : Option String → Option String → Bool
has_command (some id) (some command) = not (id == "") && (command == "set" || command == "set_mode")
has_command (some id) none = false
has_command none command = false

abbrev pub has_severity : Option String → Option String → Bool
has_severity (some severity) (some template) =
    (severity == "info" || severity == "warning" || severity == "critical") && not (template == "")
has_severity (some severity) none = false
has_severity none template = false

-- One case of validateActions.
unfoldable pub is_valid_action : TriggerAction → Bool
is_valid_action a =
    if a.type == "peripheral_action"
    then has_command (read_text "peripheral_id" a.config) (read_text "command" a.config)
    else if a.type == "alert"
    then has_severity (read_text "severity" a.config) (read_text "message_template" a.config)
    else false

unfoldable pub all_valid : List TriggerAction → Bool
all_valid [] = true
all_valid (a ∷ rest) = is_valid_action a && all_valid rest

-- validateActions
unfoldable pub validate_actions : List TriggerAction → Bool
validate_actions [] = false
validate_actions (a ∷ rest) = all_valid (a ∷ rest)

abbrev pub trigger_created : Result Trigger → Response
trigger_created (ok _) = respond 201 ""
trigger_created (err device_not_found) = respond 404 "device_not_found"
trigger_created (err invalid_peripheral) = respond 400 "invalid_request"
trigger_created (err _) = respond 500 "internal_error"

abbrev pub create_with : String → String → CreateTriggerRequest → Seconds → World → Response × World
create_with device_id user_id q (below_zero n) w = (respond 400 "invalid_request", w)
create_with device_id user_id q (seconds n) w =
    let (r, w') =
      create device_id user_id
        (record { name = q.name; condition = q.condition; actions = q.actions; cooldown = n }) w in
    (trigger_created r, w')

-- CreateTriggerHandler.ServeHTTP
unfoldable pub create_trigger_handler :
    String → String → Option CreateTriggerRequest → World → Response × World
create_trigger_handler device_id user_id none w = (respond 400 "invalid_request", w)
create_trigger_handler device_id user_id (some q) w =
    if q.name == "" || q.condition == "" || not (validate_actions q.actions)
    then (respond 400 "invalid_request", w)
    else create_with device_id user_id q q.cooldown w

abbrev pub triggers_response : Result (List Trigger) → Response × List Trigger
triggers_response (ok ts) = (respond 200 "", ts)
triggers_response (err _) = (respond 500 "internal_error", [])

-- ListTriggersHandler.ServeHTTP: the answer, and the triggers that its body shows.
unfoldable pub list_triggers_handler : String → String → World → (Response × List Trigger) × World
list_triggers_handler device_id user_id w =
    let (r, w') = list device_id user_id w in (triggers_response r, w')

abbrev pub trigger_response : Result Trigger → Response
trigger_response (ok _) = respond 200 ""
trigger_response (err trigger_not_found) = respond 404 "trigger_not_found"
trigger_response (err _) = respond 500 "internal_error"

-- GetTriggerHandler.ServeHTTP
unfoldable pub get_trigger_handler : String → String → String → World → Response × World
get_trigger_handler device_id user_id id w =
    let (r, w') = get device_id user_id id w in (trigger_response r, w')

-- patchTriggerRequest, with no actions where the list is empty or missing.
pub record PatchTriggerRequest : Type 0 where
  pub name : Option String
  pub condition : String
  pub actions : List TriggerAction
  pub cooldown : Option Seconds
  pub enabled : Option Bool

abbrev pub is_below_zero : Option Seconds → Bool
is_below_zero (some (below_zero n)) = true
is_below_zero (some (seconds n)) = false
is_below_zero none = false

abbrev pub seconds_of : Option Seconds → Option ℕ
seconds_of (some (seconds n)) = some n
seconds_of (some (below_zero n)) = none
seconds_of none = none

abbrev pub is_blank : Option String → Bool
is_blank (some name) = name == ""
is_blank none = false

abbrev pub given_actions : List TriggerAction → Option (List TriggerAction)
given_actions [] = none
given_actions (a ∷ rest) = some (a ∷ rest)

abbrev pub are_given_valid : List TriggerAction → Bool
are_given_valid [] = true
are_given_valid (a ∷ rest) = all_valid (a ∷ rest)

abbrev pub patch_of : PatchTriggerRequest → TriggerPatch
patch_of q = record {
  name = q.name;
  condition = if q.condition == "null" then "" else q.condition;
  actions = given_actions q.actions;
  cooldown = seconds_of q.cooldown;
  enabled = q.enabled;
}

abbrev pub trigger_patched : Result Trigger → Response
trigger_patched (ok _) = respond 200 ""
trigger_patched (err trigger_not_found) = respond 404 "trigger_not_found"
trigger_patched (err invalid_peripheral) = respond 400 "invalid_request"
trigger_patched (err _) = respond 500 "internal_error"

-- PatchTriggerHandler.ServeHTTP
unfoldable pub patch_trigger_handler :
    String → String → String → Option PatchTriggerRequest → World → Response × World
patch_trigger_handler device_id user_id id none w = (respond 400 "invalid_request", w)
patch_trigger_handler device_id user_id id (some q) w =
    if is_blank q.name || is_below_zero q.cooldown || not (are_given_valid q.actions)
    then (respond 400 "invalid_request", w)
    else let (r, w') = update device_id user_id id (patch_of q) w in (trigger_patched r, w')

abbrev pub trigger_deleted : Result (Unit {0}) → Response
trigger_deleted (ok _) = respond 204 ""
trigger_deleted (err trigger_not_found) = respond 404 "trigger_not_found"
trigger_deleted (err _) = respond 500 "internal_error"

-- DeleteTriggerHandler.ServeHTTP
unfoldable pub delete_trigger_handler : String → String → String → World → Response × World
delete_trigger_handler device_id user_id id w =
    let (r, w') = delete device_id user_id id w in (trigger_deleted r, w')
