-- ===== src/Tests/TriggerEventRuns.antt =====
-- Runs of the handler of trigger events.
use fishhub_server.Prelude.{String, ◌≡◌, ◌++◌, refl, true, none, some, [], ◌∷◌, find_first, any}
use fishhub_server.Schema.{TriggerRow, ActionRow, TriggerEvent, config_null}
use fishhub_server.World.{World}
use fishhub_server.Text.{device_id_from_topic}
use fishhub_server.TriggerEvents.{Config, EventMessage, handle}
use fishhub_server.TriggerEvents.Jobs.{Grows, MayRun, handle-Grows}
use fishhub_server.TriggerEvents.Again.{action_ids, server_actions, handle_stored}
use fishhub_server.Tests.Worlds.{start, start_db}

abbrev report : EventMessage
report = record { trigger_event_id = "ev1"; trigger_id = "tr1"; fired_at = "900"; readings = [] }

abbrev config : Config
config = record { unmarshal = λ _. some report; parse_time = λ _. some 900; new_uuid = λ _. "j" }

abbrev ours : TriggerRow
ours = record {
  id = "tr1";
  device_id = "d1";
  name = "too warm";
  enabled = true;
  condition = "{}";
  cooldown = 60;
  created_at = 5;
  deleted_at = none;
}

-- An alert of another user's trigger, and an event of that trigger under the id that is reported.
abbrev theirs : ActionRow
theirs = record { id = "ac2"; trigger_id = "tr2"; action_type = "alert"; config = config_null }

abbrev old_event : TriggerEvent
old_event = record {
  id = "e1";
  trigger_event_id = "ev1";
  trigger_id = "tr2";
  fired_at = 800;
  received_at = 801;
  readings = [];
}

abbrev before : World
before = record start {
  db = record start_db {
    triggers = ours ∷ [];
    actions = theirs ∷ [];
    trigger_events = old_event ∷ [];
  };
}

abbrev topic : String
topic = "fishhub/d1/trigger_events"

handle-Grows_example :
    Grows (MayRun config topic "{}" before) before (handle config topic "{}" before)
handle-Grows_example = handle-Grows config topic "{}" before

reads_topic : device_id_from_topic "trigger_events" topic ≡ some "d1"
unfolding device_id_from_topic
reads_topic = refl

handle_stored_example :
    let after = handle config topic "{}" (record before { faults = [] }) in
    (action_ids after ≡ action_ids before ++ server_actions "tr2" before) × (after.db ≡ before.db)
unfolding any find_first
handle_stored_example =
    handle_stored config topic "{}" "d1" report 900 old_event before reads_topic refl refl refl refl
      refl
