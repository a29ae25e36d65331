-- ===== src/Triggers/Store.antt =====
-- The statements on the tables of triggers and actions: internal/trigger/store.go, but for
-- GetActions, which is in TriggerEvents. A row of actions is kept with the row of action_triggers
-- that ties it to a trigger.
use fishhub_server.Prelude.{
  ℕ, String, ◌==◌, ◌&&◌, not, Bool, true, Option, none, some, List, [], ◌∷◌, ◌++◌, map,
  if◌then◌else◌, is_none, any, find_first, select, update_first,
}
use fishhub_server.Schema.{Db, Device, TriggerRow, ActionRow, TriggerAction}
use fishhub_server.World.{
  failed, trigger_not_found, Result, ok, err, World, Action, pure, call, gets, draw, modify_db,
  ◌>>=◌, ◌>>◌,
}
use fishhub_server.Device.{is_owned, or_error}

-- trigger.Trigger. The owner is filled by GetByID alone.
pub record Trigger : Type 0 where
  pub id : String
  pub device_id : String
  pub user_id : String
  pub name : String
  pub enabled : Bool
  pub condition : String
  pub actions : List TriggerAction
  pub cooldown : ℕ
  pub created_at : ℕ

-- trigger.TriggerCreate
pub record TriggerCreate : Type 0 where
  pub name : String
  pub condition : String
  pub actions : List TriggerAction
  pub cooldown : ℕ

-- trigger.TriggerUpdate
pub record TriggerUpdate : Type 0 where
  pub name : String
  pub condition : String
  pub actions : List TriggerAction
  pub cooldown : ℕ
  pub enabled : Bool

abbrev pub trigger_of : String → List TriggerAction → TriggerRow → Trigger
trigger_of user_id actions r = record {
  id = r.id;
  device_id = r.device_id;
  user_id = user_id;
  name = r.name;
  enabled = r.enabled;
  condition = r.condition;
  actions = actions;
  cooldown = r.cooldown;
  created_at = r.created_at;
}

abbrev pub new_trigger : String → TriggerCreate → ℕ → String → TriggerRow
new_trigger device_id p now id = record {
  id = id;
  device_id = device_id;
  name = p.name;
  enabled = true;
  condition = p.condition;
  cooldown = p.cooldown;
  created_at = now;
  deleted_at = none;
}

abbrev pub add_trigger : String → TriggerCreate → String → Action TriggerRow
add_trigger device_id p id w = (
  ok (new_trigger device_id p w.now id),
  record w {
    db = record w.db { triggers = w.db.triggers ++ new_trigger device_id p w.now id ∷ [] };
  },
)

-- The INSERT of a trigger, with the foreign key of its device: the row may be of any user, and
-- deleted.
unfoldable pub insert_trigger : String → TriggerCreate → Action TriggerRow
unfolding any
insert_trigger device_id p w =
    if any (λ (d : Device). d.id == device_id) w.db.devices
    then (do id ← draw "create trigger: insert trigger"; add_trigger device_id p id) w
    else (err (failed "create trigger: insert trigger"), w)

abbrev pub new_action : String → TriggerAction → String → ActionRow
new_action trigger_id a id = record {
  id = id;
  trigger_id = trigger_id;
  action_type = a.type;
  config = a.config;
}

-- The two INSERTs of an action. The first draws its id; the row is seen with the second.
unfoldable pub insert_action : String → TriggerAction → Action TriggerAction
insert_action trigger_id a = do
  id ← call "insert action" (draw "insert action")
  call "insert action_triggers"
      (modify_db (λ db. record db { actions = db.actions ++ new_action trigger_id a id ∷ [] }))
  pure (record a { id = id })

-- The loop over the actions.
unfoldable pub insert_actions : String → List TriggerAction → Action (List TriggerAction)
insert_actions trigger_id [] = pure []
insert_actions trigger_id (a ∷ rest) = do
  stored ← insert_action trigger_id a
  others ← insert_actions trigger_id rest
  pure (stored ∷ others)

-- postgresStore.Create
unfoldable pub create_trigger : String → TriggerCreate → Action Trigger
create_trigger device_id p = do
  r ← call "create trigger: insert trigger" (insert_trigger device_id p)
  actions ← insert_actions r.id p.actions
  pure (trigger_of "" actions r)

abbrev pub is_live_of : List Device → String → String → TriggerRow → Bool
is_live_of devices device_id user_id r =
    r.device_id == device_id && is_none r.deleted_at && any (is_owned device_id user_id) devices

-- tr.id = $1 AND tr.device_id = $2 AND d.user_id = $3, both not deleted
abbrev pub is_reachable_trigger : List Device → String → String → String → TriggerRow → Bool
is_reachable_trigger devices device_id user_id id r =
    r.id == id && is_live_of devices device_id user_id r

unfoldable pub find_trigger : String → String → String → World → Option TriggerRow
unfolding find_first
find_trigger device_id user_id id w =
    find_first (is_reachable_trigger w.db.devices device_id user_id id) w.db.triggers

abbrev pub action_of_row : ActionRow → TriggerAction
action_of_row a = record { id = a.id; type = a.action_type; config = a.config }

-- The actions of a trigger in hydrateActions: ORDER BY created_at, which is the table's order.
unfoldable pub actions_of : String → Db → List TriggerAction
unfolding select
actions_of trigger_id db =
    map action_of_row (select (λ (a : ActionRow). a.trigger_id == trigger_id) db.actions)

-- hydrateActions
unfoldable pub hydrate_actions : String → List TriggerRow → Action (List Trigger)
hydrate_actions what rows =
    call what (gets (λ w. map (λ (r : TriggerRow). trigger_of "" (actions_of r.id w.db) r) rows))

abbrev pub hydrate_found : List TriggerRow → Action (List Trigger)
hydrate_found [] w = (ok [], w)
hydrate_found (r ∷ rs) w = hydrate_actions "list triggers: hydrate actions" (r ∷ rs) w

-- postgresStore.List: ORDER BY created_at, which is the table's order
unfoldable pub list_triggers : String → String → Action (List Trigger)
unfolding select any
list_triggers device_id user_id = do
  rows ←
      call "list triggers: query"
        (gets (λ w. select (is_live_of w.db.devices device_id user_id) w.db.triggers))
  hydrate_found rows

-- postgresStore.Get: the row, and then its actions.
unfoldable pub get_trigger : String → String → String → Action Trigger
get_trigger device_id user_id id = do
  r ←
      call "get trigger"
        (λ w. (or_error trigger_not_found (find_trigger device_id user_id id w), w))
  call "get trigger: hydrate actions" (gets (λ w. trigger_of "" (actions_of r.id w.db) r))

abbrev pub patched : TriggerUpdate → TriggerRow → TriggerRow
patched u r = record r {
  name = u.name;
  condition = u.condition;
  cooldown = u.cooldown;
  enabled = u.enabled;
}

-- UPDATE … RETURNING of the reachable row, whose id is the table's key.
unfoldable pub write_trigger :
    String → String → String → (TriggerRow → TriggerRow) → Option TriggerRow → Action TriggerRow
unfolding update_first
write_trigger device_id user_id id f none w = (err trigger_not_found, w)
write_trigger device_id user_id id f (some r) w = (
  ok (f r),
  record w {
    db = record w.db {
      triggers =
          update_first (is_reachable_trigger w.db.devices device_id user_id id) f w.db.triggers;
    };
  },
)

-- DELETE FROM actions … USING action_triggers
unfoldable pub delete_actions : String → Action (Unit {0})
unfolding select
delete_actions trigger_id = call "update trigger: delete old actions" (
    modify_db (λ db. record db {
      actions = select (λ (a : ActionRow). not (a.trigger_id == trigger_id)) db.actions;
    }))

-- postgresStore.Update
unfoldable pub update_trigger : String → String → String → TriggerUpdate → Action Trigger
update_trigger device_id user_id id u = do
  r ←
      call "update trigger" (λ w.
        write_trigger device_id user_id id (patched u) (find_trigger device_id user_id id w) w)
  delete_actions r.id
  actions ← insert_actions r.id u.actions
  pure (trigger_of "" actions r)

abbrev pub deleted_trigger : ℕ → TriggerRow → TriggerRow
deleted_trigger now r = record r { deleted_at = some now }

-- postgresStore.Delete
unfoldable pub delete_trigger : String → String → String → Action Trigger
delete_trigger device_id user_id id = do
  r ← call "delete trigger" (λ w.
      write_trigger device_id user_id id (deleted_trigger w.now)
        (find_trigger device_id user_id id w) w)
  pure (trigger_of "" [] r)

abbrev pub live_device : List Device → String → Option Device
live_device devices device_id =
    find_first (λ (d : Device). d.id == device_id && is_none d.deleted_at) devices

abbrev pub owned_trigger : TriggerRow → Option Device → Result Trigger
owned_trigger r none = err trigger_not_found
owned_trigger r (some d) = ok (trigger_of d.user_id [] r)

abbrev pub by_id : List Device → Option TriggerRow → Result Trigger
by_id devices none = err trigger_not_found
by_id devices (some r) = owned_trigger r (live_device devices r.device_id)

-- postgresStore.GetByID
unfoldable pub get_trigger_by_id : String → Action Trigger
unfolding find_first
get_trigger_by_id id = call "get trigger by id" (λ w. (
  by_id w.db.devices
      (find_first (λ (r : TriggerRow). r.id == id && is_none r.deleted_at) w.db.triggers),
  w,
))

abbrev pub action_or_error : Option ActionRow → Result TriggerAction
action_or_error none = err trigger_not_found
action_or_error (some a) = ok (action_of_row a)

-- postgresStore.GetActionConfig
unfoldable pub get_action_config : String → Action TriggerAction
unfolding find_first
get_action_config id =
    call "get action config"
      (λ w. (action_or_error (find_first (λ (a : ActionRow). a.id == id) w.db.actions), w))
