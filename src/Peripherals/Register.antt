-- ===== src/Peripherals/Register.antt =====
-- What a registration of a peripheral does (CreatePeripheralHandler of internal/api/handler.go,
-- Register and CreatePeripheral of internal/peripheral).
use fishhub_server.Prelude.{
  ℕ, String, ◌==◌, ◌≡◌, ◌≢◌, ◌⊎◌, inl, inr, refl, sym, ap, ◌∙◌, Bool, Bool-cases, not, ◌||◌, true,
  false, Option, none, some, [], ◌∷◌, ◌++◌, if◌then◌else◌, find_first, any, arith, eq_iff,
}
use mathlib.Core.Path.{subst, subst₂}
use fishhub_server.Schema.{Db, Device, DeviceModelRow, PortRow}
use fishhub_server.World.{
  Error, model_not_found, port_not_found, device_not_found, peripheral_exists, port_in_use, Result,
  err, World, Action, call, Response, pure, raise, draw, gets, ◌>>◌,
}
use fishhub_server.World.Post.{
  Post, returns, errs, Post-bind, Post-call, Post-draw, Post-map, Post-both, Post-transaction, Same,
}
use fishhub_server.Device.{is_owned}
use fishhub_server.DeviceModels.{DeviceModel, is_port_of, get_by_device_id, get_port}
use fishhub_server.DeviceModels.Lookups.{FoundModel, get_by_device_id-Post, get_port-Post}
use fishhub_server.Outbox.{insert}
use fishhub_server.Outbox.Insert.{insert-Post, with_event}
use fishhub_server.Peripherals.Model.{Peripheral}
use fishhub_server.Peripherals.Pushes.{push_type, push_timeout}
use fishhub_server.Peripherals.Violations.{has_name, has_pin, has_port, violated_index}
use fishhub_server.Peripherals.Create.{
  NewPeripheral, new_peripheral, created, has_id, add_keyed, is_too_long, is_category,
  insert_unless, insert_peripheral, create_peripheral,
}
use fishhub_server.Peripherals.{create_payload, create_and_push, register}
use fishhub_server.Peripherals.Handlers.{
  CreateRequest, category_of, requested, created_response, answered, create_on_port,
  create_on_model, is_incomplete, create_peripheral_handler,
}

-- The database with one more peripheral, behind the others.
abbrev pub with_peripheral : NewPeripheral → ℕ → String → Db → Db
with_peripheral n now id db = record db {
  peripherals = db.peripherals ++ new_peripheral n now id ∷ [];
}

-- No active row of the device has the name or the pin, and none of any device has the port.
abbrev pub Free : NewPeripheral → Db → Type 0
Free n db =
    (any (has_name n.device_id n.name) db.peripherals ≡ false)
    × (any (has_pin n.device_id n.port) db.peripherals ≡ false)
    × (any (has_port n.port) db.peripherals ≡ false)

violated_index-none :
    (n : NewPeripheral) (db : Db)
    → violated_index n.device_id n.name n.port db.peripherals ≡ none
    → Free n db
unfolding violated_index
violated_index-none n db h = (ground arith, ground arith, ground arith)

-- What a statement that inserts a peripheral has done.
abbrev pub Inserted : NewPeripheral → ℕ → Db → Peripheral → Db → Type 0
Inserted n now before p after =
    (id : String) × (p ≡ created n now id)
    × Free n before
    × (any (has_id id) before.peripherals ≡ false)
    × (after ≡ with_peripheral n now id before)

insert_unless-Inserted :
    (text : String → String) (n : NewPeripheral) (w : World) (found : Option String)
    → violated_index n.device_id n.name n.port w.db.peripherals ≡ found
    → Post (λ p w'. Inserted n w.now w.db p w'.db) (λ _ _. Unit {0}) (insert_unless text n found w)
unfolding insert_unless add_keyed
insert_unless-Inserted text n w (some index) e = errs _ w refl tt
insert_unless-Inserted text n w none e =
    Post-bind {Q = λ id w'. Same w w'} (draw "create peripheral: insert" w) (add_keyed n)
      (Post-draw "create peripheral: insert" w (λ v left. (refl, refl)) tt)
      (λ id w' same. add_keyed-Inserted id w' same)
  where
    add_keyed-Inserted :
        (id : String) (w' : World)
        → Same w w'
        → Post (λ p w''. Inserted n w.now w.db p w''.db) (λ _ _. Unit {0}) (add_keyed n id w')
    add_keyed-Inserted id w' (same, time) = elim (Bool-cases (any (has_id id) w'.db.peripherals)) [
      | inl known ↦ rw known (errs _ w' refl tt)
      | inr fresh ↦ rw fresh (
          returns _ _ refl (
            id,
            ap (λ now. created n now id) time,
            violated_index-none n w.db e,
            subst (λ (db : Db). any (has_id id) db.peripherals ≡ false) same fresh,
            ap (with_peripheral n w'.now id) same ∙ ap (λ now. with_peripheral n now id w.db) time,
          ))
    ]

insert_peripheral-Inserted :
    (text : String → String) (n : NewPeripheral) (w : World)
    → Post (λ p w'. Inserted n w.now w.db p w'.db) (λ _ _. Unit {0}) (insert_peripheral text n w)
unfolding insert_peripheral
insert_peripheral-Inserted text n w =
    elim (Bool-cases (is_too_long n.purpose || not (is_category n.category))) [
      | inl bad ↦ rw bad (errs _ w refl tt)
      | inr good ↦ rw good (
          insert_unless-Inserted text n w
            (violated_index n.device_id n.name n.port w.db.peripherals) refl)
    ]

-- What CreatePeripheral has done: the device is the user's, and a row was added.
abbrev pub Created : String → NewPeripheral → ℕ → Db → Peripheral → Db → Type 0
Created user_id n now before p after =
    (any (is_owned n.device_id user_id) before.devices ≡ true) × Inserted n now before p after

create_peripheral-Created :
    (text : String → String) (user_id : String) (n : NewPeripheral) (w : World)
    → Post
        (λ p w'. Created user_id n w.now w.db p w'.db)
        (λ _ _. Unit {0})
        (create_peripheral text user_id n w)
unfolding create_peripheral
create_peripheral-Created text user_id n w =
    Post-bind
      {Q = λ exists w'. (exists ≡ any (is_owned n.device_id user_id) w.db.devices) × Same w w'}
      (call "create peripheral: check device" (gets owned) w) checked
      (Post-call "create peripheral: check device" (gets owned) w
        (λ later. returns _ _ refl (refl, (refl, refl))) (λ _. tt))
      go
  where
    owned : World → Bool
    owned x = any (is_owned n.device_id user_id) x.db.devices

    checked : Bool → Action Peripheral
    checked exists = do
      (if exists then pure tt else raise device_not_found)
      call "create peripheral: insert" (insert_peripheral text n)

    go :
        (exists : Bool) (w' : World)
        → (exists ≡ any (is_owned n.device_id user_id) w.db.devices) × Same w w'
        → Post
            (λ p w''. Created user_id n w.now w.db p w''.db)
            (λ _ _. Unit {0})
            (checked exists w')
    go false w' h = errs _ w' refl tt
    go true w' (told, (same, time)) =
        Post-call "create peripheral: insert" (insert_peripheral text n) w'
          (λ later.
            Post-map (insert_peripheral-Inserted text n (record w' { faults = later }))
              (λ p w'' done.
                (sym told, subst₂ (λ now db. Inserted n now db p w''.db) time same done)))
          (λ _. tt)

-- What Register has done: CreatePeripheral, with the event that tells the device behind the others.
abbrev pub Registered : String → NewPeripheral → ℕ → Db → Db → Type 0
Registered user_id n now before after =
    (p : Peripheral) × (middle : Db) × (event_id : String) × Created user_id n now before p middle
    × (after ≡ with_event event_id push_type (create_payload n) push_timeout middle)

create_and_push-Registered :
    (text : String → String) (user_id : String) (n : NewPeripheral) (w : World)
    → Post
        (λ p w'. Registered user_id n w.now w.db w'.db)
        (λ _ _. Unit {0})
        (create_and_push text user_id n w)
unfolding create_and_push
create_and_push-Registered text user_id n w =
    Post-bind (create_peripheral text user_id n w)
      (λ p. do
        insert "register peripheral: enqueue push" push_type (create_payload n) push_timeout
        pure p)
      (create_peripheral-Created text user_id n w)
      (λ p w1 made.
        Post-bind
          (insert "register peripheral: enqueue push" push_type (create_payload n) push_timeout w1)
          (λ _. pure p)
          (Post-both
            (insert-Post "register peripheral: enqueue push" push_type (create_payload n)
              push_timeout w1)
            (λ _ _ h. h) (λ _ _ _. tt))
          (λ _ w2 (event_id, added). returns p w2 refl (p, w1.db, event_id, made, added)))

pub register-Registered :
    (text : String → String) (user_id : String) (n : NewPeripheral) (w : World)
    → Post
        (λ p w'. Registered user_id n w.now w.db w'.db)
        (λ _ w'. w'.db ≡ w.db)
        (register text user_id n w)
unfolding register
register-Registered text user_id n w =
    Post-transaction (λ p db. Registered user_id n w.now w.db db) "register peripheral: begin tx"
      "register peripheral: commit" (create_and_push text user_id n) w
      (λ later. create_and_push-Registered text user_id n (record w { faults = later }))

-- What the handler has done when it answers 201.
abbrev pub Answered201 : String → String → CreateRequest → World → Db → Type 0
Answered201 device_id user_id q before after =
    (d : Device) × (m : DeviceModelRow) × (port : PortRow) × (find_first
        (is_owned device_id user_id) before.db.devices
      ≡ some d)
    × (find_first (λ (x : DeviceModelRow). x.id == d.model_id) before.db.device_models ≡ some m)
    × (find_first (is_port_of q.port_id m.id) before.db.ports ≡ some port)
    × (port.kind ≡ q.kind)
    × Registered user_id (requested device_id q port) before.now before.db after

-- Either the handler has answered 201 and done all of that, or the database is as it was.
abbrev pub Told : String → String → CreateRequest → World → Response × World → Type 0
Told device_id user_id q before (r, after) =
    ((r.status ≡ 201) × Answered201 device_id user_id q before after.db)
    ⊎ ((r.status ≢ 201) × (after.db ≡ before.db))

created_response_err : (e : Error) → (created_response (err e)).status ≢ 201
created_response_err device_not_found = omega arith
created_response_err peripheral_exists = omega arith
created_response_err port_in_use = omega arith
created_response_err _ = omega arith

module _ (text : String → String) (device_id user_id : String) (q : CreateRequest) where
  register-Told :
      (w w0 : World) (d : Device) (m : DeviceModelRow) (port : PortRow)
      → find_first (is_owned device_id user_id) w0.db.devices ≡ some d
      → find_first (λ (x : DeviceModelRow). x.id == d.model_id) w0.db.device_models ≡ some m
      → find_first (is_port_of q.port_id m.id) w0.db.ports ≡ some port
      → port.kind ≡ q.kind
      → Same w0 w
      → Told device_id user_id q w0
          (answered (register text user_id (requested device_id q port) w))
  register-Told w w0 d m port of_user of_model found kind (same, time) =
      go (register text user_id n w) (register-Registered text user_id n w)
    where
      n : NewPeripheral
      n = requested device_id q port

      go :
          (o : Result Peripheral × World)
          → Post (λ p w'. Registered user_id n w.now w.db w'.db) (λ _ w'. w'.db ≡ w.db) o
          → Told device_id user_id q w0 (answered o)
      go o (returns a w' e done) = rw e (
          inl (
            refl,
            (
              d,
              m,
              port,
              of_user,
              of_model,
              found,
              kind,
              subst₂ (λ now db. Registered user_id n now db w'.db) time same done,
            ),
          ))
      go o (errs x w' e kept) = rw e (inr (created_response_err x, kept ∙ same))

  on_port-Told :
      (w0 : World) (d : Device) (m : DeviceModelRow) (o : Result PortRow × World)
      → find_first (is_owned device_id user_id) w0.db.devices ≡ some d
      → find_first (λ (x : DeviceModelRow). x.id == d.model_id) w0.db.device_models ≡ some m
      → Post
          (λ port w'. (find_first (is_port_of q.port_id m.id) w0.db.ports ≡ some port) × Same w0 w')
          (λ _ w'. w'.db ≡ w0.db)
          o
      → Told device_id user_id q w0 (create_on_port text device_id user_id q o)
  unfolding create_on_port
  on_port-Told w0 d m o of_user of_model (returns port w e (found, same)) =
      elim (Bool-cases (port.kind == q.kind)) [
        | inl fits ↦
            rw (e, create_on_port, fits)
              (register-Told w w0 d m port of_user of_model found ((eq_iff port.kind q.kind).0 fits)
                same)
        | inr differs ↦ rw (e, create_on_port, differs) (inr (omega arith, same.0))
      ]
  on_port-Told w0 d m o of_user of_model (errs x w e same) = rw e (go x)
    where
      go :
          (x : Error)
          → Told device_id user_id q w0 (create_on_port text device_id user_id q (err x, w))
      go port_not_found = inr (omega arith, same)
      go _ = inr (omega arith, same)

  on_model-Told :
      (w0 : World) (o : Result DeviceModel × World)
      → Post (FoundModel device_id user_id w0) (λ _ w'. w'.db ≡ w0.db) o
      → Told device_id user_id q w0 (create_on_model text device_id user_id q o)
  unfolding create_on_model
  on_model-Told w0 o (returns model w e (d, m, of_user, of_model, is_m, (same, time))) =
      rw (e, create_on_model)
        (on_port-Told w0 d m (get_port q.port_id model.id w) of_user of_model (
          Post-both (get_port-Post q.port_id model.id w)
            (λ port w' (found, (same', time')). (
              subst₂
                  (λ (id : String) (db : Db).
                    find_first (is_port_of q.port_id id) db.ports ≡ some port)
                  is_m same found,
              (same' ∙ same, time' ∙ time),
            ))
            (λ _ w' kept. kept ∙ same)))
  on_model-Told w0 o (errs x w e same) = rw e (go x)
    where
      go :
          (x : Error)
          → Told device_id user_id q w0 (create_on_model text device_id user_id q (err x, w))
      go model_not_found = inr (omega arith, same)
      go _ = inr (omega arith, same)

  -- For every text of the driver's errors, device, user, body and state, the answer of the handler
  -- tells what happened: 201 that the device is the user's, the port is one of the device's model
  -- and has the kind that was asked for, no active row has the name or the pin on that device or
  -- has the port, one row with the port's pin was added behind the others, and one pending
  -- peripheral.push event that creates it; any other that the database is as it was.
  pub create_peripheral_handler-Told :
      (w : World)
      → Told device_id user_id q w (create_peripheral_handler text device_id user_id (some q) w)
  unfolding create_peripheral_handler
  create_peripheral_handler-Told w =
      elim (Bool-cases (is_incomplete q || not (is_category (category_of q)))) [
        | inl bad ↦ rw bad (inr (omega arith, refl))
        | inr good ↦ rw good (
            on_model-Told w (get_by_device_id device_id user_id w)
              (get_by_device_id-Post device_id user_id w))
      ]
