-- ===== src/Tests/FirmwareRuns.antt =====
-- Runs of the firmware service.
use fishhub_server.Prelude.{◌≡◌, ◌≢◌, ◌⊎◌, refl, some, [], ◌∷◌, any, find_first}
use fishhub_server.Schema.{UpdateRecord, update_pending, update_failed}
use fishhub_server.World.{World, ok, draw}
use fishhub_server.Firmware.{
  Release, Config, confirm_update, retry_update, ingest_status, send_release, to_retry,
}
use fishhub_server.Firmware.Store.{is_of, latest_record, reset_pending, has_pending, insert_pending}
use fishhub_server.Firmware.Update.{Confirmed, Retried}
use fishhub_server.Firmware.Handlers.{
  confirm_handler, retry_handler, confirm_handler-Confirmed, retry_handler-Retried,
}
use fishhub_server.Firmware.Race.{may_confirm, send_update, confirm_both, confirm_both_breaks}
use fishhub_server.Firmware.Pending.{Safe, Steps-Safe, here, next, confirms, reports}
use fishhub_server.Firmware.Reports.{HasSent, ok_reports, retry_version_stuck}
use fishhub_server.Device.{check_ownership}
use fishhub_server.Tests.Worlds.{with_updates}

abbrev latest : Release
latest = record { version = "2.0"; sha256 = "abcd"; object_key = "firmware/2.0.bin" }

abbrev config : Config
config = record {
  latest = some latest;
  presign = λ key _. key;
  presign_expiry = 60;
  update_timeout = 600;
}

-- An update to the release before the latest one, which has failed.
abbrev broken : UpdateRecord
broken = record {
  id = "f1";
  device_id = "d1";
  desired_version = "1.9";
  nonce = "n0";
  status = update_failed;
  last_error = "flash";
  requested_at = 10;
  updated_at = 20;
}

abbrev before : World
before = with_updates (broken ∷ [])

abbrev asked : World
asked =
    with_updates (record broken { desired_version = "2.0"; status = update_pending } ∷ broken ∷ [])

Steps-Safe_example :
    Safe (ingest_status "d1" "2.0" "ok" (confirm_update config "d1" "u1" before).1).1
Steps-Safe_example =
    Steps-Safe (tt, tt)
      (next (next here (confirms config "d1" "u1" before))
        (reports "d1" "2.0" "ok" (confirm_update config "d1" "u1" before).1))

confirm_handler-Confirmed_example :
    let (r, w') = confirm_handler config "d1" "u1" before in
    ((r.status ≡ 204) × Confirmed config "d1" before w') ⊎ ((r.status ≢ 204) × (w'.db ≡ before.db))
confirm_handler-Confirmed_example = confirm_handler-Confirmed config "d1" "u1" before

retry_handler-Retried_example :
    let (r, w') = retry_handler config "d1" "u1" before in
    ((r.status ≡ 204) × Retried config "d1" before w') ⊎ ((r.status ≢ 204) × (w'.db ≡ before.db))
retry_handler-Retried_example = retry_handler-Retried config "d1" "u1" before

retry_before : (retry_update config "d1" "u1" before).0 ≡ ok tt
unfolding retry_update check_ownership latest_record to_retry send_release reset_pending
retry_before = refl

retry_version_stuck_example :
    HasSent "d1" latest before (retry_update config "d1" "u1" before).1
    × (row : UpdateRecord) × (find_first
          (is_of "d1")
          (ok_reports "d1" "2.0" 3 (retry_update config "d1" "u1" before).1).db.firmware_updates
        ≡ some row)
    × (row.status ≡ update_pending)
    × (row.desired_version ≡ "1.9")
unfolding find_first
retry_version_stuck_example =
    retry_version_stuck config "d1" "u1" latest broken 3 before
      (retry_update config "d1" "u1" before).1 refl refl refl retry_before refl

both_succeed : (confirm_both config "d1" "u1" "u1" before).0 ≡ ok tt
unfolding confirm_both may_confirm send_update check_ownership has_pending send_release
    insert_pending draw any find_first
both_succeed = refl

confirm_both_breaks_example : ¬ Safe (confirm_both config "d1" "u1" "u1" before).1
confirm_both_breaks_example = confirm_both_breaks config "d1" "u1" "u1" before both_succeed
