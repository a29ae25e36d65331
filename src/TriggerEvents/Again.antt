-- ===== src/TriggerEvents/Again.antt =====
-- What a report does whose trigger_event_id is stored already (internal/trigger_events/mqtt_handler.go
-- and the ON CONFLICT clause of Ingest in internal/trigger_events/store.go).
use fishhub_server.Prelude.{
  ℕ, String, ◌≡◌, refl, sym, ap, ◌∙◌, Bool-cases, inl, inr, true, false, not, some, List, [], ◌∷◌,
  ◌++◌, find_first, select, map,
}
use mathlib.Core.List.{append_assoc, append-nil, map-append}
use fishhub_server.Schema.{ActionRow, TriggerEvent}
use fishhub_server.World.{World, Job}
use fishhub_server.Text.{device_id_from_topic}
use fishhub_server.TriggerEvents.{
  Config, EventMessage, is_device_side, is_event, is_action_of, owns_trigger,
  trigger_belongs_to_device, ingest, get_actions, job_of, enqueue, enqueue_each, enqueue_found,
  enqueue_actions, enqueue_ingested, event_of, scan_into, ingest_at, ingest_owned, lacks_field,
  handle_message, handle_from, handle,
}

abbrev pub action_ids : World → List String
action_ids w = map (λ (j : Job). j.action_id) w.jobs

-- The ids of the actions that the server runs for a trigger.
abbrev pub server_actions : String → World → List String
server_actions trigger_id w =
    map (λ (a : ActionRow). a.id)
      (select (λ a. not (is_device_side a.action_type))
        (select (is_action_of trigger_id) w.db.actions))

enqueue_each-ids :
    (c : Config) (e : TriggerEvent) (actions : List ActionRow) (w : World)
    → action_ids (enqueue_each c e actions (record w { faults = [] }))
      ≡ action_ids w
        ++ map (λ (a : ActionRow). a.id) (select (λ a. not (is_device_side a.action_type)) actions)
unfolding enqueue select enqueue_each
enqueue_each-ids c e [] w = sym (append-nil (action_ids w))
enqueue_each-ids c e (a ∷ actions) w = elim (Bool-cases (is_device_side a.action_type)) [
  | inl device ↦ rw (enqueue_each, device) (enqueue_each-ids c e actions w)
  | inr server ↦
      rw (enqueue_each, server)
        (enqueue_each-ids c e actions (record w { jobs = w.jobs ++ job ∷ [] })
          ∙ ap
              (λ ids.
                ids
                ++ map (λ (a : ActionRow). a.id)
                    (select (λ a. not (is_device_side a.action_type)) actions))
              (map-append (λ (j : Job). j.action_id) w.jobs (job ∷ []))
          ∙ append_assoc (action_ids w) (a.id ∷ []) _)
]
  where
    job : Job
    job = job_of e a (c.new_uuid (record w { faults = [] }))

enqueue_each-db :
    (c : Config) (e : TriggerEvent) (actions : List ActionRow) (w : World)
    → (enqueue_each c e actions (record w { faults = [] })).db ≡ w.db
unfolding enqueue enqueue_each
enqueue_each-db c e [] w = refl
enqueue_each-db c e (a ∷ actions) w = elim (Bool-cases (is_device_side a.action_type)) [
  | inl device ↦ rw (enqueue_each, device) (enqueue_each-db c e actions w)
  | inr server ↦
      rw (enqueue_each, server)
        (enqueue_each-db c e actions
          (record w { jobs = w.jobs ++ job_of e a (c.new_uuid (record w { faults = [] })) ∷ [] }))
]

-- For every configuration, topic, payload and state: where the report is complete, of a device, of a
-- live trigger of that device and with a time that can be read, and an event is stored under its
-- trigger_event_id already, a report that meets no fault stores nothing and enqueues one job for
-- each action that the server runs for the trigger of the stored event. A report that is delivered
-- again enqueues its actions again, and one that has the id of another trigger's event enqueues the
-- actions of that trigger, whoever owns it.
pub handle_stored :
    (c : Config) (topic payload device_id : String) (m : EventMessage) (fired_at : ℕ)
    (row : TriggerEvent) (w : World)
    → device_id_from_topic "trigger_events" topic ≡ some device_id
    → c.unmarshal payload ≡ some m
    → lacks_field m ≡ false
    → owns_trigger m.trigger_id device_id w ≡ true
    → c.parse_time m.fired_at ≡ some fired_at
    → find_first (is_event m.trigger_event_id) w.db.trigger_events ≡ some row
    → let after = handle c topic payload (record w { faults = [] }) in
      (action_ids after ≡ action_ids w ++ server_actions row.trigger_id w) × (after.db ≡ w.db)
unfolding handle handle_from handle_message trigger_belongs_to_device ingest_owned ingest_at ingest
    get_actions enqueue_ingested enqueue_actions enqueue_found
handle_stored c topic payload device_id m fired_at row w from_device is_message complete owns time
      stored =
    let event : TriggerEvent = scan_into (event_of m fired_at) row in
    let actions : List ActionRow = select (is_action_of row.trigger_id) w.db.actions in
    let runs : handle c topic payload (record w { faults = [] })
        ≡ enqueue_each c event actions (record w { faults = [] }) =
      simp (from_device, is_message, complete, owns, time, stored) in
    (rw runs (enqueue_each-ids c event actions w), rw runs (enqueue_each-db c event actions w))
