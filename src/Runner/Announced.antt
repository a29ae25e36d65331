-- ===== src/Runner/Announced.antt =====
-- A registered peripheral and the next round of the runner (Register of
-- internal/peripheral/service.go, with the runner of main.go).
use fishhub_server.Prelude.{
  String, ◌≡◌, refl, ap, ◌∙◌, List, [], ◌∷◌, ◌++◌, map, update_where, eq_refl,
}
use fishhub_server.Schema.{Db, OutboxRow, ActionConfig, Event, completed}
use fishhub_server.World.{World, Action, Message, call, publish}
use fishhub_server.World.Post.{Post, Post-map}
use fishhub_server.Outbox.{
  new_row, event_of, registry, run, tick, claim_batch, claim_rows, claimable, claimable_as,
  process_all, run_claimed, dispatch, process, record_outcome, mark_completed,
}
use fishhub_server.Peripherals.Pushes.{
  push_type, push_timeout, push_topic, push_fields, push_peripheral,
}
use fishhub_server.Peripherals.Create.{NewPeripheral}
use fishhub_server.Peripherals.{create_payload, register}
use fishhub_server.Peripherals.Register.{register-Registered}
use fishhub_server.Runner.{run_server}

-- What the device is told of a new peripheral, on the retained topic of its address.
abbrev pub announcement : NewPeripheral → Message
announcement n =
    let (device_id, name, body) = push_fields (create_payload n) in
    record { topic = push_topic device_id name; body = body }

module _ (provision : String → String → Action (Unit {0}))
    (text : List (String × ActionConfig) → String) (schedule : List Event → List Event)
    (one : (e : Event) → schedule (e ∷ []) ≡ e ∷ []) where
  announces :
      (n : NewPeripheral) (id : String) (w : World)
      → w.db.outbox ≡ new_row id push_type (create_payload n) push_timeout ∷ []
      → let after = run_server provision text schedule 1 (record w { faults = [] }) in
        (after.published ≡ w.published ++ announcement n ∷ [])
        × (map (λ (r : OutboxRow). r.status) after.db.outbox ≡ completed ∷ [])
  unfolding run_server run tick claim_batch claim_rows claimable claimable_as run_claimed
      process_all dispatch process record_outcome mark_completed registry push_peripheral publish
      call update_where
  announces n id w waiting =
      rw
        (waiting, one (event_of (new_row id push_type (create_payload n) push_timeout)), eq_refl id)
        (refl, refl)

  -- For every client of the broker, text of actions, order of the events of a tick that leaves a
  -- single one alone, text of the driver's errors, user, registration and state with an empty
  -- outbox: if register returns, the next round of the server's runner, where nothing fails,
  -- publishes the announcement of the peripheral on its device's topic, once and nothing else, and
  -- its event is completed. If register returns an error, the database is the old one.
  pub register_announced :
      (driver : String → String) (user_id : String) (n : NewPeripheral) (w : World)
      → w.db.outbox ≡ []
      → Post
          (λ _ w'.
            let after = run_server provision text schedule 1 (record w' { faults = [] }) in
            (after.published ≡ w'.published ++ announcement n ∷ [])
            × (map (λ (r : OutboxRow). r.status) after.db.outbox ≡ completed ∷ []))
          (λ _ w'. w'.db ≡ w.db)
          (register driver user_id n w)
  register_announced driver user_id n w empty =
      Post-map (register-Registered driver user_id n w)
        (λ _ w' (p, middle, event_id, (_, (_, _, _, _, made)), added). announces n event_id w' (
          ap (λ (db : Db). db.outbox) added
          ∙ ap
              (λ (db : Db).
                db.outbox ++ new_row event_id push_type (create_payload n) push_timeout ∷ [])
              made
          ∙ ap
              (λ (rows : List OutboxRow).
                rows ++ new_row event_id push_type (create_payload n) push_timeout ∷ [])
              empty))
