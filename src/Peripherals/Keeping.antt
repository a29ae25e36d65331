-- ===== src/Peripherals/Keeping.antt =====
-- The operations of the service and the clashes of peripherals (internal/peripheral/service.go and
-- store.go).
use fishhub_server.Prelude.{
  ℕ, String, ◌==◌, ◌≡◌, Bool, Bool-cases, inl, inr, true, false, Option, none, some, List, [], ◌∷◌,
  if◌then◌else◌, arith, eq_iff,
}
use fishhub_server.Schema.{Db, Schedule, CronEntry, PeripheralRow, Payload}
use fishhub_server.World.{World, Result, Action, pure, draw, publish, ignore, ◌>>=◌, ◌>>◌}
use fishhub_server.World.Post.{Post, returns, errs}
use fishhub_server.World.Keeps.{
  Keeps, call-Keeps, bind-Keeps, draw-Keeps, publish-Keeps, transaction-Keeps, ignore-Keeps,
}
use fishhub_server.Outbox.{insert, add_event}
use fishhub_server.Peripherals.Model.{Peripheral, scan}
use fishhub_server.Peripherals.Pushes.{push_type, push_timeout}
use fishhub_server.Peripherals.Create.{NewPeripheral, new_peripheral}
use fishhub_server.Peripherals.Store.{
  is_reachable, scan_deleted, find_reachable, update_reachable, updating, updating_actuator,
  look_up_category, rename_found, scheduled, with_mode, deleted, set_peripheral_schedule,
  set_control_mode, delete_peripheral, update_peripheral, name_taken,
}
use fishhub_server.Peripherals.{
  register, assign_ids, send_schedule, set_schedule, command_topic, mode_body, change_mode,
  control_mode, update, delete_payload, delete_and_push, delete, schedule_body,
}
use fishhub_server.Peripherals.Register.{Registered, register-Registered}
use fishhub_server.Peripherals.Apart.{
  Apart, Apart-append, new_peripheral-All, update_first-Apart, renamed-Apart, clash,
}

abbrev pub Safe : Db → Type 0
Safe db = Apart db.peripherals

insert-Safe :
    (wrap type : String) (payload : Payload) (timeout : ℕ)
    → Keeps Safe (insert wrap type payload timeout)
unfolding insert
insert-Safe wrap type payload timeout =
    call-Keeps Safe wrap (do id ← draw wrap; add_event type payload timeout id)
      (bind-Keeps Safe (draw wrap) (add_event type payload timeout) (draw-Keeps Safe wrap)
        (λ id w h. h))

pub register-Safe :
    (text : String → String) (u : String) (n : NewPeripheral) → Keeps Safe (register text u n)
register-Safe text u n w h = go (register text u n w) (register-Registered text u n w)
  where
    go :
        (o : Result Peripheral × World)
        → Post (λ p w'. Registered u n w.now w.db w'.db) (λ _ w'. w'.db ≡ w.db) o
        → Safe o.1.db
    go o (errs x w' e same) = rw (e, same) h
    go o
          (returns _ w' e
            (p, middle, event, (owned, (id, is_p, (name, pin, port), fresh, made)), added)) =
        rw (e, added, made)
          (Apart-append w.db.peripherals (new_peripheral n w.now id) h
            (new_peripheral-All n w.now id w.db.peripherals name pin port fresh))

module _ (device_id user_id id : String) (f : PeripheralRow → PeripheralRow)
    (keeps : (r o : PeripheralRow) → clash r o ≡ false → clash (f r) o ≡ false)
    (keeps' : (r o : PeripheralRow) → clash r o ≡ false → clash r (f o) ≡ false) where
  updating-Safe :
      (result : PeripheralRow → Result Peripheral) (found : Option PeripheralRow)
      → Keeps Safe (updating device_id user_id id f result found)
  unfolding updating update_reachable
  updating-Safe result none w h = h
  updating-Safe result (some r) w h =
      update_first-Apart (is_reachable w.db.devices device_id user_id id) f keeps keeps'
        w.db.peripherals h

set_control_mode-Safe : (d u id mode : String) → Keeps Safe (set_control_mode d u id mode)
unfolding set_control_mode updating_actuator look_up_category
set_control_mode-Safe d u id mode =
    call-Keeps Safe "set control mode: update" _ (λ w h. go (find_reachable d u id w) w h)
  where
    look : Keeps Safe (look_up_category d u id)
    look = call-Keeps Safe "set control mode: lookup" _ (λ w h. h)

    go : (found : Option PeripheralRow) → Keeps Safe (updating_actuator d u id mode found)
    go none w h = look w h
    go (some r) w h = elim (Bool-cases (r.category == "actuator")) [
      | inl actuator ↦
          rw (actuator, updating_actuator)
            (updating-Safe d u id (with_mode mode w.now) (λ _ _ k. k) (λ _ _ k. k)
              (scan "set control mode: unmarshal schedule" none) (some r) w h)
      | inr sensor ↦ rw (sensor, updating_actuator) (look w h)
    ]

rename_found-Safe :
    (text : String → String) (d u id name : String) (w : World) (found : Option PeripheralRow)
    → Safe w.db
    → Safe (rename_found text d u id name found w).1.db
unfolding rename_found updating update_reachable
rename_found-Safe text d u id name w none h = h
rename_found-Safe text d u id name w (some r) h =
    elim (Bool-cases (name_taken d id name w.db.peripherals)) [
      | inl taken ↦ rw taken h
      | inr free ↦ rw free (
          renamed-Apart (is_reachable w.db.devices d u id) d id name w.now
            (λ x hit. (ground (arith, eq_iff x.id id), ground (arith, eq_iff x.device_id d)))
            w.db.peripherals h free)
    ]

pub update-Safe :
    (text : String → String) (d u id name : String) → Keeps Safe (update text d u id name)
unfolding update update_peripheral
update-Safe text d u id name =
    call-Keeps Safe "update peripheral"
      (λ w. rename_found text d u id name (find_reachable d u id w) w)
      (λ w h. rename_found-Safe text d u id name w (find_reachable d u id w) h)

pub control_mode-Safe : (d u id mode : String) → Keeps Safe (control_mode d u id mode)
unfolding control_mode change_mode
control_mode-Safe d u id mode = transaction-Keeps Safe _ _ (change_mode d u id mode) (
    bind-Keeps Safe (set_control_mode d u id mode) sent (set_control_mode-Safe d u id mode) (λ p.
      bind-Keeps Safe (draw "uuid") (published p) (draw-Keeps Safe "uuid") (λ uuid.
        bind-Keeps Safe
          (publish "set control mode: mqtt publish" (command_topic d p) (mode_body mode uuid))
          (λ _. pure p)
          (publish-Keeps Safe "set control mode: mqtt publish" (command_topic d p)
            (mode_body mode uuid))
          (λ _ w h. h))))
  where
    published : Peripheral → String → Action Peripheral
    published p uuid = do
      publish "set control mode: mqtt publish" (command_topic d p) (mode_body mode uuid)
      pure p

    sent : Peripheral → Action Peripheral
    sent p = do uuid ← draw "uuid"; published p uuid

pub delete-Safe : (d u id : String) → Keeps Safe (delete d u id)
unfolding delete delete_and_push delete_peripheral
delete-Safe d u id = transaction-Keeps Safe _ _ (delete_and_push d u id) (
    bind-Keeps Safe (delete_peripheral d u id) pushed
      (call-Keeps Safe "delete peripheral" _ (λ w h.
        updating-Safe d u id (deleted w.now) (λ r o k. ground arith) (λ r o k. ground arith)
          scan_deleted (find_reachable d u id w) w h))
      (λ p.
        insert-Safe "delete peripheral: enqueue push" push_type (delete_payload d p) push_timeout))
  where
    pushed : Peripheral → Action (Unit {0})
    pushed p = insert "delete peripheral: enqueue push" push_type (delete_payload d p) push_timeout

assign_ids-Safe : (es : List CronEntry) → Keeps Safe (assign_ids es)
unfolding assign_ids
assign_ids-Safe [] = λ w h. h
assign_ids-Safe (e ∷ es) =
    bind-Keeps Safe (if e.id == "" then draw "uuid" else pure e.id) followed (first_id (e.id == ""))
      (λ id.
        bind-Keeps Safe (assign_ids es) (λ rest. pure (record e { id = id } ∷ rest))
          (assign_ids-Safe es) (λ _ w h. h))
  where
    followed : String → Action (List CronEntry)
    followed id = do rest ← assign_ids es; pure (record e { id = id } ∷ rest)

    first_id : (b : Bool) → Keeps Safe (if b then draw "uuid" else pure e.id)
    first_id true = draw-Keeps Safe "uuid"
    first_id false = λ w h. h

-- Telling the device changes nothing in the database.
pub send_schedule-Keeps :
    (P : Db → Type 0) (text : Schedule → String) (d : String) (s : Schedule) (p : Peripheral)
    → Keeps P (send_schedule text d s p)
unfolding send_schedule
send_schedule-Keeps P text d s p =
    bind-Keeps P (draw "uuid") (λ uuid. ignore (sends uuid)) (draw-Keeps P "uuid")
      (λ uuid.
        ignore-Keeps P (sends uuid)
          (publish-Keeps P "mqtt publish" (command_topic d p) (schedule_body text s uuid)))
  where
    sends : String → Action (Unit {0})
    sends uuid = publish "mqtt publish" (command_topic d p) (schedule_body text s uuid)

pub set_schedule-Safe :
    (text : Schedule → String) (d u id : String) (s : Schedule)
    → Keeps Safe (set_schedule text d u id s)
unfolding set_schedule set_peripheral_schedule
set_schedule-Safe text d u id s =
    bind-Keeps Safe (assign_ids s.entries) stored (assign_ids-Safe s.entries) (λ entries.
      let s' : Schedule = record s { entries = entries } in
      bind-Keeps Safe (set_peripheral_schedule d u id s') (sent s')
        (call-Keeps Safe "set peripheral schedule: update"
          (λ w.
            updating d u id (scheduled s' w.now) (scan "set peripheral schedule: unmarshal" none)
              (find_reachable d u id w) w)
          (λ w h.
            updating-Safe d u id (scheduled s' w.now) (λ _ _ k. k) (λ _ _ k. k)
              (scan "set peripheral schedule: unmarshal" none) (find_reachable d u id w) w h))
        (λ p.
          bind-Keeps Safe (send_schedule text d s' p) (λ _. pure p)
            (send_schedule-Keeps Safe text d s' p) (λ _ w h. h)))
  where
    sent : Schedule → Peripheral → Action Peripheral
    sent s' p = do send_schedule text d s' p; pure p

    stored : List CronEntry → Action Peripheral
    stored entries = do
      p ← set_peripheral_schedule d u id (record s { entries = entries })
      sent (record s { entries = entries }) p
