-- ===== src/Device/Activation.antt =====
-- When a device's credentials are reported ready (GetActivationStatus of internal/device/store.go).
use fishhub_server.Prelude.{
  String, ◌≡◌, refl, Bool, true, false, Option, none, some, List, All, any, any-All-false,
  find_first, arith,
}
use fishhub_server.Schema.{Device, OutboxRow}
use fishhub_server.World.{Result, ok, err, World, device_not_found}
use fishhub_server.World.Post.{Post, returns, errs, Post-call, Post-ok}
use fishhub_server.Device.{ActivationStatus, is_live, is_open_for, status_of, get_activation_status}

-- No event of the device is pending or processing.
abbrev pub IsSettled : String → List OutboxRow → Type 0
IsSettled device_id rows = All (λ r. is_open_for device_id r ≡ false) rows

-- The credentials of the row that is the device's.
abbrev pub HasCredentials : String → World → String → String → Type 0
HasCredentials device_id w username password =
    (d : Device) × (find_first (is_live device_id) w.db.devices ≡ some d)
    × (d.mqtt_username ≡ some username)
    × (d.mqtt_password ≡ some password)

status_of_ready :
    (u p : Option String) (busy : Bool) (s : ActivationStatus)
    → s ≡ status_of u p busy
    → s.ready ≡ true
    → (u ≡ some s.mqtt_username) × (p ≡ some s.mqtt_password) × (busy ≡ false)
unfolding status_of
status_of_ready (some u) (some p) false s e h = ground arith
status_of_ready (some u) (some p) true s e h = ground arith
status_of_ready (some u) none busy s e h = ground arith
status_of_ready none p busy s e h = ground arith

-- What a read that returns has found.
abbrev Found : String → World → ActivationStatus → World → Type 0
Found device_id w s w' =
    (d : Device) × (find_first (is_live device_id) w.db.devices ≡ some d)
    × (s ≡ status_of d.mqtt_username d.mqtt_password (any (is_open_for device_id) w.db.outbox))

get_activation_status-Found :
    (device_id : String) (w : World)
    → Post (Found device_id w) (λ _ _. Unit {0}) (get_activation_status device_id w)
unfolding get_activation_status
get_activation_status-Found device_id w =
    Post-call "get activation status" (λ v. read v (find_first (is_live device_id) v.db.devices)) w
      (λ later. go later (find_first (is_live device_id) w.db.devices) refl) (λ _. tt)
  where
    read : World → Option Device → Result ActivationStatus × World
    read v o = elim o [
      | none ↦ (err device_not_found, v)
      | some d ↦ (
        ok (status_of d.mqtt_username d.mqtt_password (any (is_open_for device_id) v.db.outbox)),
        v,
      )
    ]

    go :
        (later : List Bool) (found : Option Device)
        → find_first (is_live device_id) w.db.devices ≡ found
        → Post (Found device_id w) (λ _ _. Unit {0}) (read (record w { faults = later }) found)
    go later none e = errs device_not_found (record w { faults = later }) refl tt
    go later (some d) e = returns _ (record w { faults = later }) refl (d, e, refl)

-- For every device and state: if the status that is read says ready, the device is there and not
-- deleted, the user name and the password of the status are the ones of its row, and no event of
-- the device is pending or processing.
pub get_activation_status-ready :
    (device_id : String) (w : World) (s : ActivationStatus)
    → (get_activation_status device_id w).0 ≡ ok s
    → s.ready ≡ true
    → HasCredentials device_id w s.mqtt_username s.mqtt_password × IsSettled device_id w.db.outbox
get_activation_status-ready device_id w s h ready =
    let (d, found, same) = Post-ok (get_activation_status-Found device_id w) h in
    let (is_user, is_pass, idle) =
      status_of_ready d.mqtt_username d.mqtt_password (any (is_open_for device_id) w.db.outbox) s
        same ready in
    ((d, found, is_user, is_pass), any-All-false (is_open_for device_id) w.db.outbox idle)
