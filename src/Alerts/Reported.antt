-- ===== src/Alerts/Reported.antt =====
-- From the report of a device to an alert: the handler of internal/trigger_events/mqtt_handler.go, the
-- queue, and the processor of internal/actions/alert/processor.go.
use fishhub_server.Prelude.{
  ℕ, String, ◌≡◌, ap, ◌∙◌, true, false, Option, none, some, List, [], ◌∷◌, ◌++◌, find_first, select,
}
use fishhub_server.Schema.{Device, AlertContext, ActionRow, TriggerRow, TriggerEvent}
use fishhub_server.World.{World, Job, call, draw}
use fishhub_server.Text.{device_id_from_topic}
use fishhub_server.Triggers.Configs.{read_text}
use fishhub_server.Triggers.Store.{live_device}
use fishhub_server.TriggerEvents.{
  Config, EventMessage, is_device_side, is_event, is_action_of, owns_trigger,
  trigger_belongs_to_device, ingest, get_actions, job_of, enqueue, enqueue_each, enqueue_found,
  enqueue_actions, enqueue_ingested, event_of, ingest_at, ingest_owned, lacks_field, handle_message,
  handle_from, handle, add_trigger_event,
}
use fishhub_server.Alerts.{is_valid_severity, alert_context, process_alert}
use fishhub_server.Alerts.Raised.{action_row, live_trigger, process_alert_raises}

-- The event as it is stored.
abbrev pub stored_event : EventMessage → ℕ → String → ℕ → TriggerEvent
stored_event m fired_at id now = record (event_of m fired_at) { id = id; received_at = now }

-- The state in which the job is enqueued.
abbrev pub with_event : TriggerEvent → List String → World → World
with_event e ids w = add_trigger_event e (record w { faults = []; supply = ids })

module _ (c : Config) (topic payload device_id : String) (m : EventMessage) (fired_at : ℕ)
    (w : World) (event_id : String) (action : ActionRow)
    (from_device : device_id_from_topic "trigger_events" topic ≡ some device_id)
    (is_message : c.unmarshal payload ≡ some m) (complete : lacks_field m ≡ false)
    (owns : owns_trigger m.trigger_id device_id w ≡ true)
    (time : c.parse_time m.fired_at ≡ some fired_at)
    (is_new : find_first (is_event m.trigger_event_id) w.db.trigger_events ≡ none)
    (only : select (is_action_of m.trigger_id) w.db.actions ≡ action ∷ [])
    (server : is_device_side action.action_type ≡ false) where
  handle-new :
      (ids : List String)
      → let e = stored_event m fired_at event_id w.now in
        handle c topic payload (record w { faults = []; supply = event_id ∷ ids })
        ≡ record (with_event e ids w) {
          jobs = w.jobs ++ job_of e action (c.new_uuid (with_event e ids w)) ∷ [];
        }
  unfolding handle handle_from handle_message trigger_belongs_to_device ingest_owned ingest_at
      ingest get_actions enqueue_ingested enqueue_actions enqueue_found enqueue_each enqueue call
      draw
  handle-new ids = simp (from_device, is_message, complete, owns, time, is_new, only, server)

  -- If no call fails, a report that is complete, of a live trigger of its device and not stored yet,
  -- where the trigger has one action, an alert on an active device with one of the three severities
  -- and a template that can be rendered, enqueues one job; and a worker that then processes that job
  -- adds one alert, to the owner of the device, with the first reading of the report.
  pub handle-process_alert :
      (render : String → AlertContext → Option String) (id : String) (ids : List String)
      (r : TriggerRow) (d : Device) (severity template message : String)
      → action_row action.id w.db ≡ some action
      → live_trigger m.trigger_id w.db ≡ some r
      → live_device w.db.devices r.device_id ≡ some d
      → read_text "severity" action.config ≡ some severity
      → read_text "message_template" action.config ≡ some template
      → is_valid_severity severity ≡ true
      → render template (alert_context m.readings fired_at) ≡ some message
      → let e = stored_event m fired_at event_id w.now in
        let job = job_of e action (c.new_uuid (with_event e (id ∷ ids) w)) in
        let after =
          handle c topic payload (record w { faults = []; supply = event_id ∷ id ∷ ids }) in
        (after.jobs ≡ w.jobs ++ job ∷ [])
        × ((process_alert render job after).1.db.alerts
            ≡ w.db.alerts
              ++ record {
                id = id;
                user_id = d.user_id;
                device_id = r.device_id;
                trigger_id = m.trigger_id;
                event_id = event_id;
                severity = severity;
                message = message;
                context = alert_context m.readings fired_at;
                created_at = w.now;
              }
                ∷ [])
  handle-process_alert render id ids r d severity template message is_action is_trigger is_device
        named written valid shows =
      let e : TriggerEvent = stored_event m fired_at event_id w.now in
      let job : Job = job_of e action (c.new_uuid (with_event e (id ∷ ids) w)) in
      let after : World = record (with_event e (id ∷ ids) w) { jobs = w.jobs ++ job ∷ [] } in
      (
        ap (λ (v : World). v.jobs) (handle-new (id ∷ ids)),
        ap (λ v. (process_alert render job v).1.db.alerts) (handle-new (id ∷ ids))
            ∙ ap (λ o. o.1.db.alerts)
                (process_alert_raises render job after id ids action r d severity template message
                  is_action is_trigger is_device named written valid shows),
      )
