-- ===== src/Triggers/Foreign.antt =====
-- A trigger without an action on a peripheral (Create of
-- internal/trigger/service.go and store.go).
use fishhub_server.Prelude.{ℕ, String, ◌==◌, ◌≡◌, refl, true, false, some, List, [], ◌∷◌, ◌++◌, any}
use fishhub_server.Schema.{seconds, Device, TriggerAction}
use fishhub_server.World.{World, respond, transaction, call, draw, draw_from}
use fishhub_server.Device.{is_owned}
use fishhub_server.Outbox.{insert, new_row}
use fishhub_server.Triggers.Store.{
  trigger_of, new_trigger, insert_trigger, insert_action, insert_actions, create_trigger,
}
use fishhub_server.Triggers.{
  resolve_action, resolve_actions, upsert_payload, push_type, push_timeout, create_and_push, create,
}
use fishhub_server.Triggers.Handlers.{
  CreateTriggerRequest, is_valid_action, all_valid, validate_actions, create_trigger_handler,
}
use fishhub_server.Triggers.Creation.{asked}

-- For every device that is there and is none of the user's, every name and condition that are not
-- empty, number of seconds and valid action that is not one on a peripheral: where three ids are
-- drawn and nothing fails, the request of the user is answered with 201, a trigger of that device
-- was added, and the event that sends it to the device.
pub create_trigger_handler_foreign :
    (device_id user_id name condition : String) (a : TriggerAction) (n : ℕ) (w : World)
    (id action_id event_id : String) (supply : List String)
    → any (is_owned device_id user_id) w.db.devices ≡ false
    → any (λ (d : Device). d.id == device_id) w.db.devices ≡ true
    → (name == "") ≡ false
    → (condition == "") ≡ false
    → (a.type == "peripheral_action") ≡ false
    → is_valid_action a ≡ true
    → let q : CreateTriggerRequest = record {
      name = name;
      condition = condition;
      actions = a ∷ [];
      cooldown = seconds n;
    } in
      let row = new_trigger device_id (asked q n) w.now id in
      let (r, w') =
        create_trigger_handler device_id user_id
          (some q)
          (record w { faults = []; supply = id ∷ action_id ∷ event_id ∷ supply }) in
      (r ≡ respond 201 "")
      × (w'.db.triggers ≡ w.db.triggers ++ row ∷ [])
      × (w'.db.outbox
          ≡ w.db.outbox
            ++ new_row event_id push_type
                (upsert_payload (trigger_of "" (record a { id = action_id } ∷ []) row))
                push_timeout
              ∷ [])
unfolding create_trigger_handler validate_actions all_valid create create_and_push resolve_actions
    resolve_action create_trigger insert_trigger insert_actions insert_action insert transaction
    call draw draw_from
create_trigger_handler_foreign device_id user_id name condition a n w id action_id event_id supply
      foreign known named conditioned type valid =
    rw (named, conditioned, valid, type, known) (refl, refl, refl)
