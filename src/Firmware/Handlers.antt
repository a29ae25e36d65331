-- ===== src/Firmware/Handlers.antt =====
-- The handlers in front of the firmware service: internal/firmware/handler.go, and
-- StatusMQTTHandler.Handle of internal/firmware/mqtt_handler.go. What encoding/json reads of a
-- payload is a parameter, with none for a payload that it refuses.
use fishhub_server.Prelude.{
  String, ◌==◌, ◌≡◌, ◌≢◌, ◌⊎◌, inl, inr, refl, Option, none, some, if◌then◌else◌, arith,
}
use fishhub_server.World.{
  Error, no_release, update_already_pending, no_pending_update, firmware_device_not_found, Result,
  ok, err, World, Response, respond,
}
use fishhub_server.World.Post.{Post, returns, errs}
use fishhub_server.Text.{device_id_from_topic}
use fishhub_server.Firmware.{
  Config, FirmwareStatus, get_status, confirm_update, retry_update, ingest_status,
}
use fishhub_server.Firmware.Update.{Confirmed, Retried, confirm_update-Post, retry_update-Post}

status_response : Result FirmwareStatus → Response
status_response (ok _) = respond 200 ""
status_response (err firmware_device_not_found) = respond 404 "not_found"
status_response (err _) = respond 500 "internal_error"

-- FirmwareStatusHandler.ServeHTTP
unfoldable pub status_handler : Config → String → String → World → Response × World
unfolding status_response
status_handler c device_id user_id w =
    let (r, w') = get_status c device_id user_id w in (status_response r, w')

confirm_response : Result (Unit {0}) → Response
confirm_response (ok _) = respond 204 ""
confirm_response (err firmware_device_not_found) = respond 404 "not_found"
confirm_response (err no_release) = respond 503 "no_release"
confirm_response (err update_already_pending) = respond 409 "update_pending"
confirm_response (err _) = respond 500 "internal_error"

-- FirmwareConfirmHandler.ServeHTTP
unfoldable pub confirm_handler : Config → String → String → World → Response × World
unfolding confirm_response
confirm_handler c device_id user_id w =
    let (r, w') = confirm_update c device_id user_id w in (confirm_response r, w')

retry_response : Result (Unit {0}) → Response
retry_response (ok _) = respond 204 ""
retry_response (err firmware_device_not_found) = respond 404 "not_found"
retry_response (err no_release) = respond 503 "no_release"
retry_response (err no_pending_update) = respond 409 "no_pending_update"
retry_response (err _) = respond 500 "internal_error"

-- FirmwareRetryHandler.ServeHTTP
unfoldable pub retry_handler : Config → String → String → World → Response × World
unfolding retry_response
retry_handler c device_id user_id w =
    let (r, w') = retry_update c device_id user_id w in (retry_response r, w')

pub record StatusMessage : Type 0 where
  pub firmware_version : String
  pub last_update_result : String

ingest_message : String → Option StatusMessage → World → World
ingest_message device_id none w = w
ingest_message device_id (some m) w =
    if m.firmware_version == ""
    then w
    else (ingest_status device_id m.firmware_version m.last_update_result w).1

handle_for : (String → Option StatusMessage) → Option String → String → World → World
unfolding ingest_message
handle_for unmarshal none payload w = w
handle_for unmarshal (some device_id) payload w = ingest_message device_id (unmarshal payload) w

-- StatusMQTTHandler.Handle
unfoldable pub handle : (String → Option StatusMessage) → String → String → World → World
unfolding handle_for
handle unmarshal topic payload w =
    if payload == ""
    then w
    else handle_for unmarshal (device_id_from_topic "status" topic) payload w

confirm_response_err : (e : Error) → (confirm_response (err e)).status ≢ 204
unfolding confirm_response
confirm_response_err firmware_device_not_found = omega arith
confirm_response_err no_release = omega arith
confirm_response_err update_already_pending = omega arith
confirm_response_err _ = omega arith

retry_response_err : (e : Error) → (retry_response (err e)).status ≢ 204
unfolding retry_response
retry_response_err firmware_device_not_found = omega arith
retry_response_err no_release = omega arith
retry_response_err no_pending_update = omega arith
retry_response_err _ = omega arith

-- The answer to a confirmation tells what happened: 204 that one pending row was added for the
-- device and the latest release, where there was none; any other that the database is as it was.
pub confirm_handler-Confirmed :
    (c : Config) (d u : String) (w : World)
    → let (r, w') = confirm_handler c d u w in
      ((r.status ≡ 204) × Confirmed c d w w') ⊎ ((r.status ≢ 204) × (w'.db ≡ w.db))
unfolding confirm_handler
confirm_handler-Confirmed c d u w = go (confirm_update c d u w) (confirm_update-Post c d w u)
  where
    go :
        (o : Result (Unit {0}) × World)
        → Post (λ _ w'. Confirmed c d w w') (λ _ w'. w'.db ≡ w.db) o
        → (((confirm_response o.0).status ≡ 204) × Confirmed c d w o.1)
          ⊎ (((confirm_response o.0).status ≢ 204) × (o.1.db ≡ w.db))
    go o (returns a w' e done) = rw e (inl (refl, done))
    go o (errs x w' e same) = rw e (inr (confirm_response_err x, same))

-- The answer to a retry tells what happened: 204 that the newest row of the device, which had failed
-- or timed out, is pending again; any other that the database is as it was.
pub retry_handler-Retried :
    (c : Config) (d u : String) (w : World)
    → let (r, w') = retry_handler c d u w in
      ((r.status ≡ 204) × Retried c d w w') ⊎ ((r.status ≢ 204) × (w'.db ≡ w.db))
unfolding retry_handler
retry_handler-Retried c d u w = go (retry_update c d u w) (retry_update-Post c d w u)
  where
    go :
        (o : Result (Unit {0}) × World)
        → Post (λ _ w'. Retried c d w w') (λ _ w'. w'.db ≡ w.db) o
        → (((retry_response o.0).status ≡ 204) × Retried c d w o.1)
          ⊎ (((retry_response o.0).status ≢ 204) × (o.1.db ≡ w.db))
    go o (returns a w' e done) = rw e (inl (refl, done))
    go o (errs x w' e same) = rw e (inr (retry_response_err x, same))
