-- ===== src/Tests/TriggerRuns.antt =====
-- Requests to the service of triggers.
use fishhub_server.Prelude.{◌≡◌, refl, true, none, some, [], ◌∷◌, ◌++◌, any}
use fishhub_server.Schema.{TriggerRow, ActionRow, TriggerAction, config_object, json_text, seconds}
use fishhub_server.World.{World, respond, err, trigger_not_found}
use fishhub_server.World.Post.{Post}
use fishhub_server.Outbox.{new_row}
use fishhub_server.Triggers.Configs.{read_text}
use fishhub_server.Triggers.Store.{trigger_of, new_trigger, get_action_config}
use fishhub_server.Triggers.{TriggerPatch, upsert_payload, push_type, push_timeout, update}
use fishhub_server.Triggers.Handlers.{CreateTriggerRequest, is_valid_action, create_trigger_handler}
use fishhub_server.Triggers.Creation.{Told, asked, create_trigger_handler-Told}
use fishhub_server.Triggers.Foreign.{create_trigger_handler_foreign}
use fishhub_server.Triggers.Lost.{update_loses_action}
use fishhub_server.Tests.Worlds.{start, our_relay, with_peripherals}

abbrev switch_on : TriggerAction
switch_on = record {
  id = "";
  type = "peripheral_action";
  config = config_object (("peripheral_id", json_text "r1") ∷ ("command", json_text "set") ∷ []);
}

abbrev pub warn : TriggerAction
warn = record {
  id = "";
  type = "alert";
  config =
      config_object
        (("severity", json_text "warning") ∷ ("message_template", json_text "too warm") ∷ []);
}

abbrev request : CreateTriggerRequest
request = record {
  name = "too warm";
  condition = "{}";
  actions = switch_on ∷ warn ∷ [];
  cooldown = seconds 60;
}

create_trigger_handler-Told_example :
    Told "d1" "u1" request
      (with_peripherals (our_relay ∷ []))
      (create_trigger_handler "d1" "u1" (some request) (with_peripherals (our_relay ∷ [])))
create_trigger_handler-Told_example =
    create_trigger_handler-Told "d1" "u1" request (with_peripherals (our_relay ∷ []))

create_trigger_handler_foreign_example :
    let q : CreateTriggerRequest = record {
      name = "mine";
      condition = "{}";
      actions = warn ∷ [];
      cooldown = seconds 60;
    } in
    let row = new_trigger "d1" (asked q 60) start.now "s1" in
    let (r, w') =
      create_trigger_handler "d1" "u2"
        (some q)
        (record start { faults = []; supply = "s1" ∷ "s2" ∷ "s3" ∷ [] }) in
    (r ≡ respond 201 "")
    × (w'.db.triggers ≡ start.db.triggers ++ row ∷ [])
    × (w'.db.outbox
        ≡ start.db.outbox
          ++ new_row "s3" push_type
              (upsert_payload (trigger_of "" (record warn { id = "s2" } ∷ []) row))
              push_timeout
            ∷ [])
unfolding any is_valid_action read_text
create_trigger_handler_foreign_example =
    create_trigger_handler_foreign "d1" "u2" "mine" "{}" warn 60 start "s1" "s2" "s3" [] refl refl
      refl refl refl refl

abbrev pub trigger : TriggerRow
trigger = record {
  id = "tr1";
  device_id = "d1";
  name = "too warm";
  enabled = true;
  condition = "{}";
  cooldown = 60;
  created_at = 5;
  deleted_at = none;
}

abbrev pub alert : ActionRow
alert = record { id = "ac1"; trigger_id = "tr1"; action_type = "alert"; config = warn.config }

abbrev pub with_alert : World
with_alert = record start { db = record start.db { triggers = trigger ∷ []; actions = alert ∷ [] } }

abbrev rename : TriggerPatch
rename = record {
  name = some "hot";
  condition = "";
  actions = none;
  cooldown = none;
  enabled = none;
}

update_loses_action_example :
    Post
      (λ _ w'. (get_action_config "ac1" (record w' { faults = [] })).0 ≡ err trigger_not_found)
      (λ _ w'. w'.db ≡ with_alert.db)
      (update "d1" "u1" "tr1" rename with_alert)
unfolding any
update_loses_action_example =
    update_loses_action "ac1" "d1" "u1" "tr1" rename with_alert refl refl
      (refl, (refl, (refl, (refl, (refl, tt)))))
