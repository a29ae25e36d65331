-- ===== src/Firmware.antt =====
-- Firmware updates: internal/firmware/service.go, and the status handler of
-- internal/firmware/mqtt_handler.go with the HTTP handlers of internal/firmware/handler.go in the
-- child module Handlers. The release that the poller has cached, the signer of download URLs and
-- the two durations of the configuration are parameters.
pub mod Poller
pub mod Store
pub mod Handlers
pub mod Pending
pub mod Update
pub mod Reports
pub mod Race
use Prim.Native.String
use fishhub_server.Prelude.{
  ℕ, ◌-◌, String, ◌==◌, ◌≡◌, starts_with, Bool, true, false, Option, none, some, List, [], ◌∷◌, ltb,
  if◌then◌else◌,
}
use fishhub_server.Schema.{
  UpdateState, update_pending, update_succeeded, update_failed, UpdateRecord,
}
use fishhub_server.World.{
  Error, no_release, update_already_pending, no_pending_update, record_not_found, Result, ok, err,
  World, Action, pure, raise, call, draw, publish, ignore, ◌>>=◌, ◌>>◌,
}
use fishhub_server.Device.{check_ownership, or_error}
use Store.{
  set_firmware_version, get_firmware_version, insert_pending, mark_succeeded, mark_failed,
  latest_record, has_pending, reset_pending,
}

pub record Release : Type 0 where
  pub version : String
  pub sha256 : String
  pub object_key : String

pub data UpdateStatus : Type 0 where
  idle in_progress succeeded failed_update timeout : UpdateStatus

-- DeviceFirmwareStatus
pub record FirmwareStatus : Type 0 where
  pub reported_version : String
  pub latest_version : String
  pub update_status : UpdateStatus
  pub last_error : String

-- What NewService is given beside the stores.
pub record Config : Type 0 where
  pub latest : Option Release
  pub presign : String → ℕ → String
  pub presign_expiry : ℕ
  pub update_timeout : ℕ

status_of : UpdateState → ℕ → ℕ → ℕ → UpdateStatus
status_of update_succeeded requested_at update_timeout now = succeeded
status_of update_failed requested_at update_timeout now = failed_update
status_of update_pending requested_at update_timeout now =
    if ltb update_timeout (now - requested_at) then timeout else in_progress

-- Service.computeStatus. The clock never runs before a request, so that the truncated difference is
-- the time since it.
unfoldable pub compute_status : Config → ℕ → UpdateRecord → UpdateStatus
unfolding status_of
compute_status c now r = status_of r.status r.requested_at c.update_timeout now

abbrev pub version_of : Option Release → String
version_of none = ""
version_of (some r) = r.version

unfoldable pub status_report :
    Config → ℕ → String → Result UpdateRecord × World → Result FirmwareStatus × World
unfolding compute_status
status_report c now reported (ok r, w) = (
  ok (record {
    reported_version = reported;
    latest_version = version_of c.latest;
    update_status = compute_status c now r;
    last_error = r.last_error;
  }),
  w,
)
status_report c now reported (err record_not_found, w) = (
  ok (record {
    reported_version = reported;
    latest_version = version_of c.latest;
    update_status = idle;
    last_error = "";
  }),
  w,
)
status_report c now reported (err e, w) = (err e, w)

-- Service.GetStatus
unfoldable pub get_status : Config → String → String → Action FirmwareStatus
get_status c device_id user_id = do
  check_ownership device_id user_id
  reported ← get_firmware_version device_id
  λ w. status_report c w.now reported (latest_record device_id w)

-- Service.publishManifest
unfoldable pub publish_manifest : String → Release → String → String → Action (Unit {0})
unfolding publish
publish_manifest device_id release url nonce =
    publish "publish manifest" (String.◌++◌ "fishhub/" (String.◌++◌ device_id "/firmware")) (
      ("version", release.version)
      ∷ ("url", url)
      ∷ ("sha256", release.sha256)
      ∷ ("nonce", nonce)
      ∷ [])

-- The part that ConfirmUpdate and RetryUpdate share: a nonce, a URL, and the manifest that carries
-- both to the device.
unfoldable pub send_release : Config → String → Release → Action String
unfolding draw call publish_manifest
send_release c device_id release = do
  nonce ← draw "generate nonce"
  url ← call "presign url" (pure (c.presign release.object_key c.presign_expiry))
  publish_manifest device_id release url nonce
  pure nonce

-- Service.ConfirmUpdate
unfoldable pub confirm_update : Config → String → String → Action (Unit {0})
confirm_update c device_id user_id = do
  check_ownership device_id user_id
  release ← (λ w. (or_error no_release c.latest, w))
  is_pending ← has_pending device_id release.version
  (if is_pending then raise update_already_pending else pure tt)
  nonce ← send_release c device_id release
  insert_pending device_id release.version nonce

-- status != UpdateStatusFailed && status != UpdateStatusTimeout
abbrev pub may_retry : UpdateStatus → Bool
may_retry failed_update = true
may_retry timeout = true
may_retry idle = false
may_retry in_progress = false
may_retry succeeded = false

unfoldable pub to_retry : Config → ℕ → Result UpdateRecord × World → Result (Unit {0}) × World
unfolding compute_status
to_retry c now (ok r, w) =
    if may_retry (compute_status c now r) then (ok tt, w) else (err no_pending_update, w)
to_retry c now (err record_not_found, w) = (err no_pending_update, w)
to_retry c now (err e, w) = (err e, w)

-- Service.RetryUpdate
unfoldable pub retry_update : Config → String → String → Action (Unit {0})
retry_update c device_id user_id = do
  check_ownership device_id user_id
  release ← (λ w. (or_error no_release c.latest, w))
  (λ w. to_retry c w.now (latest_record device_id w))
  nonce ← send_release c device_id release
  reset_pending device_id nonce

-- strings.TrimPrefix of a text that has the prefix "failed:"
abbrev pub reason_of : String → String
reason_of result = String.slice result 7 (String.len result)

-- Service.IngestStatus. The errors of the second store call are only logged.
unfoldable pub ingest_status : String → String → String → Action (Unit {0})
ingest_status device_id version last_update_result = do
  set_firmware_version device_id version
  (if last_update_result == "ok"
      then ignore (mark_succeeded device_id version)
      else if starts_with last_update_result "failed:"
      then ignore (mark_failed device_id (reason_of last_update_result))
      else pure tt)
