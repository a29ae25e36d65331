-- ===== src/TriggerEvents.antt =====
-- Events that triggers report over MQTT: internal/trigger_events/mqtt_handler.go and
-- internal/trigger_events/store.go, with GetActions of internal/trigger/store.go and the bridge of
-- main.go in front of it. What encoding/json reads of a payload, time.Parse, and the ids of
-- uuid.New are parameters.
pub mod Jobs
pub mod Again
pub mod History
use fishhub_server.Prelude.{
  ℕ, String, ◌==◌, ◌&&◌, ◌||◌, Bool, true, false, Option, none, some, List, [], ◌∷◌, ◌++◌,
  if◌then◌else◌, is_none, any, find_first, select,
}
use fishhub_server.Schema.{Db, TriggerRow, ActionRow, Reading, TriggerEvent}
use fishhub_server.World.{
  Result, ok, err, World, Job, Action, call, draw, gets, ignore, ◌>>=◌, ◌>>◌,
}
use fishhub_server.Text.{device_id_from_topic}

-- mqttPayload, with an empty text for a field that is missing
pub record EventMessage : Type 0 where
  pub trigger_event_id : String
  pub trigger_id : String
  pub fired_at : String
  pub readings : List Reading

pub record Config : Type 0 where
  pub unmarshal : String → Option EventMessage
  pub parse_time : String → Option ℕ
  pub new_uuid : World → String

-- deviceSideActionTypes
abbrev pub is_device_side : String → Bool
is_device_side action_type = action_type == "peripheral_action"

-- id = $1 AND device_id = $2 AND deleted_at IS NULL
abbrev pub is_trigger_of : String → String → TriggerRow → Bool
is_trigger_of trigger_id device_id t =
    t.id == trigger_id && t.device_id == device_id && is_none t.deleted_at

abbrev pub owns_trigger : String → String → World → Bool
owns_trigger trigger_id device_id w = any (is_trigger_of trigger_id device_id) w.db.triggers

-- postgresStore.TriggerBelongsToDevice
unfoldable pub trigger_belongs_to_device : String → String → Action Bool
unfolding call
trigger_belongs_to_device trigger_id device_id =
    call "trigger belongs to device" (gets (owns_trigger trigger_id device_id))

abbrev pub is_event : String → TriggerEvent → Bool
is_event trigger_event_id r = r.trigger_event_id == trigger_event_id

-- What Ingest scans into the event that it was given: the readings stay the given ones.
abbrev pub scan_into : TriggerEvent → TriggerEvent → TriggerEvent
scan_into e row = record row { readings = e.readings }

abbrev pub add_trigger_event : TriggerEvent → World → World
add_trigger_event e w = record w {
  db = record w.db { trigger_events = w.db.trigger_events ++ e ∷ [] };
}

-- The statement of Ingest: INSERT … ON CONFLICT (trigger_event_id) DO UPDATE that changes nothing.
abbrev pub ingest_row : TriggerEvent → Option TriggerEvent → Action TriggerEvent
ingest_row e (some row) w = (ok (scan_into e row), w)
ingest_row e none w =
    (do
      id ← draw "ingest trigger event"
      (λ v.
          let row = record e { id = id; received_at = v.now } in (ok row, add_trigger_event row v)))
      w

abbrev pub ingest_statement : TriggerEvent → Action TriggerEvent
ingest_statement e w = ingest_row e (find_first (is_event e.trigger_event_id) w.db.trigger_events) w

-- postgresStore.Ingest
unfoldable pub ingest : TriggerEvent → Action TriggerEvent
unfolding call
ingest e = call "ingest trigger event" (ingest_statement e)

abbrev pub is_action_of : String → ActionRow → Bool
is_action_of trigger_id a = a.trigger_id == trigger_id

-- GetActions, of the actions in the order in which they were created
unfoldable pub get_actions : String → Action (List ActionRow)
unfolding call
get_actions trigger_id =
    call "get actions" (gets (λ w. select (is_action_of trigger_id) w.db.actions))

abbrev pub job_of : TriggerEvent → ActionRow → String → Job
job_of e a id = record {
  id = id;
  job_type = a.action_type;
  action_id = a.id;
  event_id = e.id;
  trigger_id = e.trigger_id;
  fired_at = e.fired_at;
  readings = e.readings;
}

abbrev pub add_job : Job → Action (Unit {0})
add_job job w = (ok tt, record w { jobs = w.jobs ++ job ∷ [] })

-- Queue.Enqueue
unfoldable pub enqueue : Job → Action (Unit {0})
unfolding call
enqueue job = call "enqueue job" (add_job job)

-- The loop of enqueueActions. An error of the queue is only logged.
unfoldable pub enqueue_each : Config → TriggerEvent → List ActionRow → World → World
enqueue_each c e [] w = w
enqueue_each c e (a ∷ actions) w =
    enqueue_each c e actions
      (if is_device_side a.action_type then w else (enqueue (job_of e a (c.new_uuid w)) w).1)

unfoldable pub enqueue_found : Config → TriggerEvent → Result (List ActionRow) × World → World
enqueue_found c e (ok actions, w) = enqueue_each c e actions w
enqueue_found c e (err _, w) = w

-- MQTTHandler.enqueueActions
unfoldable pub enqueue_actions : Config → TriggerEvent → World → World
enqueue_actions c e w = enqueue_found c e (get_actions e.trigger_id w)

unfoldable pub enqueue_ingested : Config → Result TriggerEvent × World → World
enqueue_ingested c (ok e, w) = enqueue_actions c e w
enqueue_ingested c (err _, w) = w

abbrev pub event_of : EventMessage → ℕ → TriggerEvent
event_of m fired_at = record {
  id = "";
  trigger_event_id = m.trigger_event_id;
  trigger_id = m.trigger_id;
  fired_at = fired_at;
  received_at = 0;
  readings = m.readings;
}

-- time.Parse and what follows it in Handle
unfoldable pub ingest_at : Config → EventMessage → Option ℕ → World → World
ingest_at c m none w = w
ingest_at c m (some fired_at) w = enqueue_ingested c (ingest (event_of m fired_at) w)

-- The answer of the ownership check, and what follows it in Handle
unfoldable pub ingest_owned : Config → EventMessage → Result Bool × World → World
ingest_owned c m (ok true, w) = ingest_at c m (c.parse_time m.fired_at) w
ingest_owned c m (ok false, w) = w
ingest_owned c m (err _, w) = w

abbrev pub lacks_field : EventMessage → Bool
lacks_field m = m.trigger_event_id == "" || m.trigger_id == "" || m.fired_at == ""

unfoldable pub handle_message : Config → String → Option EventMessage → World → World
handle_message c device_id none w = w
handle_message c device_id (some m) w =
    if lacks_field m
    then w
    else ingest_owned c m (trigger_belongs_to_device m.trigger_id device_id w)

unfoldable pub handle_from : Config → Option String → String → World → World
handle_from c none payload w = w
handle_from c (some device_id) payload w = handle_message c device_id (c.unmarshal payload) w

-- MQTTHandler.Handle
unfoldable pub handle : Config → String → String → World → World
handle c topic payload w = handle_from c (device_id_from_topic "trigger_events" topic) payload w
