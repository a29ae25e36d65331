-- ===== src/Runner/Refused.antt =====
-- A device whose credentials the broker never takes: the runner gives its event up, and the device is
-- told to be ready (internal/outbox/runner.go, internal/provisioning/outbox_processor.go and
-- GetActivationStatus of internal/device/store.go).
use fishhub_server.Prelude.{
  ℕ, suc, ◌+◌, String, ◌≡◌, refl, ap, ◌∙◌, some, List, [], ◌∷◌, find_first, any, false, true,
  eq_refl, Bool-cases, inl, inr, ◌==◌,
}
use fishhub_server.Schema.{
  ActionConfig, Device, Event, OutboxRow, mqtt_provision, dead, payload_device_id,
}
use fishhub_server.World.{Action, World, failed, ok, err}
use fishhub_server.Text.{contains}
use fishhub_server.Outbox.{registry}
use fishhub_server.Outbox.Retry.{lone, waiting, run_dead}
use fishhub_server.Device.{is_live, get_activation_status}
use fishhub_server.Provisioning.{provision_type, unless_exists, provision_device}
use fishhub_server.Runner.{processors, run_server}

module _ (provision : String → String → Action (Unit {0}))
    (text : List (String × ActionConfig) → String) (schedule : List Event → List Event)
    (message : String)
    (refuses : (u p : String) (w : World) → provision u p w ≡ (err (failed message), w))
    (other : contains message "409" ≡ false)
    (in_order : (e : Event) → schedule (e ∷ []) ≡ e ∷ []) where
  provision_device-refuses :
      (e : Event) (w : World) → provision_device provision e w ≡ (err (failed message), w)
  unfolding provision_device unless_exists
  provision_device-refuses e w = rw (refuses, other) refl

  registered :
      (r : OutboxRow)
      → r.event_type ≡ provision_type
      → registry (processors provision text) r.event_type ≡ some (provision_device provision)
  unfolding registry
  registered r type = rw type refl

  module _ (device_id username password : String) (d : Device) (r : OutboxRow) (w : World)
      (found : find_first (is_live device_id) w.db.devices ≡ some d)
      (is_user : d.mqtt_username ≡ some username) (is_pass : d.mqtt_password ≡ some password)
      (is_payload : r.payload ≡ mqtt_provision device_id username password) where
    waits :
        (get_activation_status device_id (lone (waiting r) w)).0
        ≡ ok (record { ready = false; mqtt_username = ""; mqtt_password = "" })
    unfolding get_activation_status any
    waits = simp (found, is_user, is_pass, is_payload, eq_refl device_id)

    given_up :
        (r' : OutboxRow) (w' : World)
        → w'.db ≡ w.db
        → r'.status ≡ dead
        → (get_activation_status device_id (lone r' w')).0
          ≡ ok (record { ready = true; mqtt_username = username; mqtt_password = password })
    unfolding get_activation_status any
    given_up r' w' same is_dead =
        let there : find_first (is_live device_id) w'.db.devices ≡ some d =
          ap (λ db. find_first (is_live device_id) db.devices) same ∙ found in
        elim (Bool-cases (payload_device_id r'.payload == device_id)) [
          | inl its ↦ simp (there, is_user, is_pass, is_dead, its)
          | inr not_its ↦ simp (there, is_user, is_pass, is_dead, not_its)
        ]

    -- Where the broker's client refuses every attempt with an error that does not contain 409, no
    -- other call fails, and the event that is to create a device's credentials is alone in the
    -- outbox with its five attempts not used up: while the event is pending, the device is told that
    -- it is not ready. Once the server's runner has gone as many rounds as attempts were left, the
    -- event is dead, and the device is told that it is ready, with the credentials that the broker
    -- has refused each time.
    pub get_activation_status_refused :
        (n : ℕ)
        → r.event_type ≡ provision_type
        → r.attempts + suc n ≡ 5
        → ((get_activation_status device_id (lone (waiting r) w)).0
            ≡ ok (record { ready = false; mqtt_username = ""; mqtt_password = "" }))
          × (r' : OutboxRow) × (w' : World) × (run_server provision text schedule
                (suc n)
                (lone (waiting r) w)
              ≡ lone r' w')
          × (r'.status ≡ dead)
          × ((get_activation_status device_id
                (run_server provision text schedule (suc n) (lone (waiting r) w))).0
              ≡ ok (record { ready = true; mqtt_username = username; mqtt_password = password }))
    unfolding run_server
    get_activation_status_refused n type left =
        let (r', w', e, is_dead, counted, same, same_db, sent) =
          run_dead (registry (processors provision text)) (provision_device provision) 5 schedule
            message provision_device-refuses in_order 10 n r w (registered r type) left in
        (
          waits,
          r',
          w',
          e,
          is_dead,
          ap (λ v. (get_activation_status device_id v).0) e ∙ given_up r' w' same_db is_dead,
        )
