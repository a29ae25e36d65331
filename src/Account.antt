-- ===== src/Account.antt =====
-- Accounts and their time zones: internal/account/store_postgres.go, internal/account/service.go,
-- internal/account/events.go, internal/account/outbox_processor.go and internal/account/handler.go,
-- with the bridges of main.go that list a user's devices and read a user's time zone. Whether
-- time.LoadLocation knows a name is a parameter.
pub mod Timezones
pub mod Update
pub mod Order
use Prim.Native.String
use mathlib.Core.List.{reverse}
use fishhub_server.Prelude.{
  ℕ, String, ◌==◌, ◌&&◌, Bool, Option, none, some, List, [], ◌∷◌, ◌++◌, map, find_first, select,
  update_where, is_none, if◌then◌else◌,
}
use fishhub_server.Schema.{
  Db, Device, Account, Payload, Event, mqtt_provision, device_config_push, peripheral_push,
  trigger_push,
}
use fishhub_server.World.{
  Error, account_not_found, invalid_timezone, Result, ok, err, World, Action, Response, respond,
  pure, raise, call, draw, publish, transaction, ◌>>=◌, ◌>>◌,
}
use fishhub_server.Device.{or_error}
use fishhub_server.Outbox.{Processor, insert}
use Timezones.{posix_tz}

abbrev pub is_account_of : String → Account → Bool
is_account_of user_id a = a.user_id == user_id

abbrev pub set_accounts : List Account → World → World
set_accounts rows w = record w { db = record w.db { accounts = rows } }

-- The row of the first sign-in, with the default time zone of the table.
abbrev pub new_account : String → String → String → ℕ → String → Account
new_account user_id email name now id = record {
  id = id;
  user_id = user_id;
  email = email;
  name = name;
  timezone = "UTC";
  created_at = now;
  updated_at = now;
}

abbrev pub add_account : String → String → String → String → Action Account
add_account user_id email name id w = (
  ok (new_account user_id email name w.now id),
  set_accounts (w.db.accounts ++ new_account user_id email name w.now id ∷ []) w,
)

abbrev pub refresh_account : String → String → ℕ → Account → Account
refresh_account email name now a = record a { email = email; name = name; updated_at = now }

write_account : String → String → String → Option Account → Action Account
write_account user_id email name none w =
    (do id ← draw "upsert account"; add_account user_id email name id) w
write_account user_id email name (some a) w = (
  ok (refresh_account email name w.now a),
  set_accounts
      (update_where (is_account_of user_id) (refresh_account email name w.now) w.db.accounts) w,
)

-- postgresStore.Upsert: INSERT … ON CONFLICT (user_id) DO UPDATE
unfoldable pub upsert : String → String → String → Action Account
unfolding call write_account
upsert user_id email name =
    call "upsert account"
      (λ w. write_account user_id email name (find_first (is_account_of user_id) w.db.accounts) w)

-- AccountEventHandler.OnUserVerified
unfoldable pub on_user_verified : String → String → String → Action (Unit {0})
unfolding upsert
on_user_verified user_id email name = do upsert user_id email name; pure tt

-- postgresStore.FindByUserID, which is AccountService.Me
unfoldable pub find_by_user_id : String → Action Account
unfolding call find_first
find_by_user_id user_id =
    call "find account by user id"
      (λ w. (or_error account_not_found (find_first (is_account_of user_id) w.db.accounts), w))

abbrev pub with_timezone : String → ℕ → Account → Account
with_timezone timezone now a = record a { timezone = timezone; updated_at = now }

abbrev pub set_timezone : String → String → Option Account → Action Account
set_timezone user_id timezone none w = (err account_not_found, w)
set_timezone user_id timezone (some a) w = (
  ok (with_timezone timezone w.now a),
  set_accounts (update_where (is_account_of user_id) (with_timezone timezone w.now) w.db.accounts)
      w,
)

-- The statement of UpdateTimezone.
abbrev pub write_timezone : String → String → Action Account
write_timezone user_id timezone w =
    set_timezone user_id timezone (find_first (is_account_of user_id) w.db.accounts) w

-- postgresStore.UpdateTimezone
unfoldable pub store_timezone : String → String → Action Account
unfolding call
store_timezone user_id timezone = call "update timezone" (write_timezone user_id timezone)

abbrev pub is_device_of : String → Device → Bool
is_device_of user_id d = d.user_id == user_id && is_none d.deleted_at

abbrev pub device_ids : String → Db → List String
device_ids user_id db =
    map (λ (d : Device). d.id) (reverse (select (is_device_of user_id) db.devices))

-- deviceIDListerBridge.ListIDsByUserID: ORDER BY created_at DESC, where the oldest row is the first
-- of the table.
unfoldable pub list_ids_by_user_id : String → Action (List String)
unfolding call
list_ids_by_user_id user_id = call "list devices" (λ w. (ok (device_ids user_id w.db), w))

abbrev pub config_push_type : String
config_push_type = "device.config_push"

abbrev pub config_push_timeout : ℕ
config_push_timeout = 30

-- The loop of UpdateTimezone over the devices.
unfoldable pub enqueue_pushes : String → List String → Action (Unit {0})
enqueue_pushes timezone [] = pure tt
enqueue_pushes timezone (device_id ∷ rest) = do
  insert "enqueue config push" config_push_type (device_config_push device_id timezone)
      config_push_timeout
  enqueue_pushes timezone rest

-- The body of the transaction of UpdateTimezone.
unfoldable pub change_timezone : String → String → List String → Action Account
change_timezone user_id timezone ids = do
  account ← store_timezone user_id timezone
  enqueue_pushes timezone ids
  pure account

-- AccountService.UpdateTimezone
unfoldable pub update_timezone : (String → Bool) → String → String → Action Account
update_timezone is_location user_id timezone = do
  (if is_location timezone then pure tt else raise invalid_timezone)
  ids ← list_ids_by_user_id user_id
  transaction "begin tx" "commit tx" (change_timezone user_id timezone ids)

-- The fields device_id and timezone that json.Unmarshal finds in a payload.
abbrev pub config_fields : Payload → String × String
config_fields (device_config_push device_id timezone) = (device_id, timezone)
config_fields (mqtt_provision device_id username password) = (device_id, "")
config_fields (peripheral_push device_id name op kind pin purpose) = (device_id, "")
config_fields (trigger_push op id device_id enabled condition actions cooldown) = (device_id, "")

abbrev pub config_topic : String → String
config_topic device_id = String.◌++◌ "fishhub/" (String.◌++◌ device_id "/config")

-- ConfigPushProcessor.Process
unfoldable pub push_config : Processor
unfolding publish
push_config event =
    let (device_id, timezone) = config_fields event.payload in
    publish "mqtt publish" (config_topic device_id) (("timezone", posix_tz timezone) ∷ [])

unfoldable pub timezone_read : Result Account × World → String × World
timezone_read (ok a, w) = (a.timezone, w)
timezone_read (err _, w) = ("UTC", w)

-- accountTimezoneReaderBridge.GetTimezone, and the default of ActivationService.Activate where it
-- fails.
unfoldable pub timezone_or_utc : String → Action String
unfolding timezone_read
timezone_or_utc user_id w = let (tz, w') = timezone_read (find_by_user_id user_id w) in (ok tz, w')

account_response : Result Account → Response
account_response (ok _) = respond 200 ""
account_response (err invalid_timezone) = respond 400 "invalid_request"
account_response (err account_not_found) = respond 404 "account_not_found"
account_response (err _) = respond 500 "internal_error"

-- MeHandler.ServeHTTP. Reading an account never meets an invalid time zone.
unfoldable pub me_handler : String → World → Response × World
unfolding find_by_user_id account_response
me_handler user_id w = let (r, w') = find_by_user_id user_id w in (account_response r, w')

-- PatchMeHandler.ServeHTTP, for the time zone that was read of the body, none if it is no JSON.
unfoldable pub patch_me_handler :
    (String → Bool) → String → Option String → World → Response × World
unfolding account_response
patch_me_handler is_location user_id none w = (respond 400 "invalid_request", w)
patch_me_handler is_location user_id (some timezone) w =
    if timezone == ""
    then (respond 400 "invalid_request", w)
    else let (r, w') = update_timezone is_location user_id timezone w in (account_response r, w')
