-- ===== src/Tests/AlertRuns.antt =====
-- A job of the queue that raises an alert.
use fishhub_server.Prelude.{String, ◌≡◌, refl, Option, some, [], ◌∷◌, ◌++◌, find_first, any, select}
use fishhub_server.Schema.{AlertContext}
use fishhub_server.World.{Job}
use fishhub_server.Text.{device_id_from_topic, cut_at}
use fishhub_server.TriggerEvents.{Config, EventMessage, job_of, handle}
use fishhub_server.Alerts.Reported.{stored_event, handle-process_alert}
use fishhub_server.World.Post.{Post}
use fishhub_server.Triggers.Configs.{read_text}
use fishhub_server.Alerts.{process_alert, unit_for, cut_dash}
use fishhub_server.Alerts.Raised.{Raised, process_alert-Raised}
use fishhub_server.Tests.TriggerRuns.{trigger, alert, with_alert}
use fishhub_server.Tests.Worlds.{pump}

abbrev job : Job
job = record {
  id = "j1";
  job_type = "alert";
  action_id = "ac1";
  event_id = "e1";
  trigger_id = "tr1";
  fired_at = 7;
  readings = record { peripheral = "ds18b20-4/temperature"; value = "31" } ∷ [];
}

-- A template without fields.
abbrev plain_text : String → AlertContext → Option String
plain_text template _ = some template

celsius : unit_for "ds18b20-4/temperature" ≡ some "Cel"
unfolding unit_for cut_at cut_dash
celsius = refl

process_alert-Raised_example :
    Post
      (λ _ w'. Raised plain_text job with_alert.db w'.db)
      (λ _ w'. w'.db ≡ with_alert.db)
      (process_alert plain_text job with_alert)
process_alert-Raised_example = process_alert-Raised plain_text job with_alert

abbrev report : EventMessage
report = record {
  trigger_event_id = "ev1";
  trigger_id = "tr1";
  fired_at = "900";
  readings = job.readings;
}

abbrev config : Config
config = record { unmarshal = λ _. some report; parse_time = λ _. some 900; new_uuid = λ _. "j1" }

abbrev topic : String
topic = "fishhub/d1/trigger_events"

reads_topic : device_id_from_topic "trigger_events" topic ≡ some "d1"
unfolding device_id_from_topic
reads_topic = refl

handle-process_alert_example :
    let e = stored_event report 900 "s1" 1000 in
    let queued = job_of e alert "j1" in
    let after =
      handle config topic "{}" (record with_alert { faults = []; supply = "s1" ∷ "s2" ∷ [] }) in
    (after.jobs ≡ with_alert.jobs ++ queued ∷ [])
    × ((process_alert plain_text queued after).1.db.alerts
        ≡ with_alert.db.alerts
          ++ record {
            id = "s2";
            user_id = "u1";
            device_id = "d1";
            trigger_id = "tr1";
            event_id = "s1";
            severity = "warning";
            message = "too warm";
            context = record { peripheral = "ds18b20-4/temperature"; value = "31"; fired_at = 900 };
            created_at = 1000;
          }
            ∷ [])
unfolding any find_first select read_text
handle-process_alert_example =
    handle-process_alert config topic "{}" "d1" report 900 with_alert "s1" alert reads_topic refl
      refl refl refl refl refl refl plain_text "s2" [] trigger pump "warning" "too warm" "too warm"
      refl refl refl refl refl refl refl
