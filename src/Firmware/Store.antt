-- ===== src/Firmware/Store.antt =====
-- The table of firmware updates: internal/firmware/device_firmware_store.go. The newest row stands
-- first, so that ORDER BY created_at DESC LIMIT 1 is the first row that passes the test.
use fishhub_server.Prelude.{
  ℕ, String, ◌==◌, ◌&&◌, Bool, true, false, Option, none, some, List, ◌∷◌, find_first, any,
  update_where, update_first, if◌then◌else◌,
}
use fishhub_server.Schema.{
  Device, UpdateState, update_pending, update_succeeded, update_failed, UpdateRecord,
}
use fishhub_server.World.{
  record_not_found, ok, err, World, Action, call, draw, gets, modify_db, ◌>>=◌,
}
use fishhub_server.Device.{is_live, or_error, or_empty}

abbrev pub is_pending : UpdateState → Bool
is_pending update_pending = true
is_pending update_succeeded = false
is_pending update_failed = false

abbrev pub set_updates : List UpdateRecord → World → World
set_updates rows w = record w { db = record w.db { firmware_updates = rows } }

-- SetFirmwareVersion
unfoldable pub set_firmware_version : String → String → Action (Unit {0})
unfolding call update_where
set_firmware_version device_id version = call "set firmware version" (
    modify_db (λ db. record db {
      devices =
          update_where (is_live device_id) (λ d. record d { firmware_version = some version })
            db.devices;
    }))

reported : Option Device → String
reported none = ""
reported (some d) = or_empty d.firmware_version

-- GetFirmwareVersion
unfoldable pub get_firmware_version : String → Action String
unfolding call find_first reported
get_firmware_version device_id =
    call "get firmware version" (gets (λ w. reported (find_first (is_live device_id) w.db.devices)))

abbrev pub new_record : String → String → String → String → ℕ → UpdateRecord
new_record id device_id desired_version nonce now = record {
  id = id;
  device_id = device_id;
  desired_version = desired_version;
  nonce = nonce;
  status = update_pending;
  last_error = "";
  requested_at = now;
  updated_at = now;
}

-- The row that InsertPending adds, once its id is drawn.
abbrev pub store_row : String → String → String → String → Action (Unit {0})
store_row device_id desired_version nonce id w = (
  ok tt,
  set_updates (new_record id device_id desired_version nonce w.now ∷ w.db.firmware_updates) w,
)

-- InsertPending
unfoldable pub insert_pending : String → String → String → Action (Unit {0})
unfolding call draw
insert_pending device_id desired_version nonce =
    call "insert pending"
      (do id ← draw "insert pending"; store_row device_id desired_version nonce id)

-- device_id = $1 AND desired_version = $2 AND status = 'pending'
abbrev pub is_pending_for : String → String → UpdateRecord → Bool
is_pending_for device_id version r =
    r.device_id == device_id && r.desired_version == version && is_pending r.status

abbrev pub succeed : ℕ → UpdateRecord → UpdateRecord
succeed now r = record r { status = update_succeeded; updated_at = now }

-- MarkSucceeded
unfoldable pub mark_succeeded : String → String → Action (Unit {0})
unfolding call update_first
mark_succeeded device_id version = call "mark succeeded" (λ w. (
  ok tt,
  set_updates
      (update_first (is_pending_for device_id version) (succeed w.now) w.db.firmware_updates) w,
))

abbrev pub fail_with : String → ℕ → UpdateRecord → UpdateRecord
fail_with reason now r = record r { status = update_failed; last_error = reason; updated_at = now }

-- MarkFailed
unfoldable pub mark_failed : String → String → Action (Unit {0})
unfolding call update_first
mark_failed device_id reason = call "mark failed" (λ w. (
  ok tt,
  set_updates
      (update_first (λ r. r.device_id == device_id && is_pending r.status) (fail_with reason w.now)
        w.db.firmware_updates)
      w,
))

abbrev pub is_of : String → UpdateRecord → Bool
is_of device_id r = r.device_id == device_id

-- LatestRecord
unfoldable pub latest_record : String → Action UpdateRecord
unfolding call find_first
latest_record device_id =
    call "latest record"
      (λ w. (or_error record_not_found (find_first (is_of device_id) w.db.firmware_updates), w))

-- HasPending
unfoldable pub has_pending : String → String → Action Bool
unfolding call any
has_pending device_id desired_version =
    call "check pending"
      (gets (λ w. any (is_pending_for device_id desired_version) w.db.firmware_updates))

abbrev pub reset : String → ℕ → UpdateRecord → UpdateRecord
reset nonce now r = record r {
  nonce = nonce;
  status = update_pending;
  last_error = "";
  requested_at = now;
  updated_at = now;
}

-- ResetPending
unfoldable pub reset_pending : String → String → Action (Unit {0})
unfolding call update_first any
reset_pending device_id nonce = call "reset pending" (λ w.
    if any (is_of device_id) w.db.firmware_updates
    then (
      ok tt,
      set_updates (update_first (is_of device_id) (reset nonce w.now) w.db.firmware_updates) w,
    )
    else (err record_not_found, w))
