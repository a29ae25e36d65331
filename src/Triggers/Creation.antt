-- ===== src/Triggers/Creation.antt =====
-- What a request for a new trigger does (CreateTriggerHandler of internal/api/trigger_handler.go,
-- Create of internal/trigger/service.go and store.go).
use fishhub_server.Prelude.{
  ℕ, String, ◌==◌, ◌≡◌, ◌≢◌, ◌⊎◌, inl, inr, refl, sym, ap, ◌∙◌, Bool-cases, true, not, ◌||◌, some,
  List, [], ◌∷◌, ◌++◌, map, any, arith,
}
use mathlib.Core.Path.{subst, subst₂}
use mathlib.Core.List.{append_assoc, append-nil}
use fishhub_server.Schema.{
  Seconds, seconds, below_zero, Db, Device, TriggerRow, ActionRow, TriggerAction,
}
use fishhub_server.World.{
  Error, device_not_found, invalid_peripheral, Result, err, World, Action, Response, pure, draw,
  call, modify_db, ◌>>=◌, ◌>>◌,
}
use fishhub_server.World.Post.{
  Post, returns, errs, Post-bind, Post-call, Post-draw, Post-both, Post-transaction, Same,
}
use fishhub_server.Outbox.{insert}
use fishhub_server.Outbox.Insert.{insert-Post, with_event}
use fishhub_server.Triggers.Store.{
  Trigger, TriggerCreate, trigger_of, new_trigger, add_trigger, insert_trigger, new_action,
  insert_action, insert_actions, create_trigger,
}
use fishhub_server.Triggers.Handlers.{
  CreateTriggerRequest, validate_actions, trigger_created, create_with, create_trigger_handler,
}
use fishhub_server.Triggers.Resolution.{Resolved, resolve_actions-Resolved}
use fishhub_server.Triggers.{
  resolve_actions, upsert_payload, push_type, push_timeout, create_and_push, create,
}

-- The database with more actions behind the others.
abbrev pub with_actions : List ActionRow → Db → Db
with_actions rows db = record db { actions = db.actions ++ rows }

-- The row of an action that is stored.
abbrev pub row_of : String → TriggerAction → ActionRow
row_of trigger_id a = new_action trigger_id a a.id

-- The same actions, each with an id that was drawn.
pub data Stored : List TriggerAction → List TriggerAction → Type 0 where
  none_stored : Stored [] []
  one_stored :
      {xs ys : List TriggerAction} (a : TriggerAction) (id : String)
      → Stored xs ys
      → Stored (a ∷ xs) (record a { id = id } ∷ ys)

insert_action-Post :
    (trigger_id : String) (a : TriggerAction) (w : World)
    → Post
        (λ b w'.
          (id : String) × (b ≡ record a { id = id })
          × (w'.db ≡ with_actions (row_of trigger_id (record a { id = id }) ∷ []) w.db))
        (λ _ _. Unit {0})
        (insert_action trigger_id a w)
unfolding insert_action
insert_action-Post trigger_id a w =
    Post-bind {Q = λ _ w1. w1.db ≡ w.db} (call "insert action" (draw "insert action") w) second
      (Post-call "insert action" (draw "insert action") w
        (λ later. Post-draw "insert action" (record w { faults = later }) (λ v left. refl) tt)
        (λ _. tt))
      (λ id w1 same.
        Post-bind
          {Q = λ _ w2. w2.db ≡ with_actions (row_of trigger_id (record a { id = id }) ∷ []) w.db}
          (call "insert action_triggers" (modify_db (added id)) w1)
          (λ _. pure (record a { id = id }))
          (Post-call "insert action_triggers" (modify_db (added id)) w1
            (λ later. returns tt _ refl (ap (added id) same)) (λ _. tt))
          (λ _ w2 is. returns (record a { id = id }) w2 refl (id, refl, is)))
  where
    added : String → Db → Db
    added id db = with_actions (new_action trigger_id a id ∷ []) db

    second : String → Action TriggerAction
    second id = do call "insert action_triggers" (modify_db (added id)); pure (record a { id = id })

insert_actions-Stored :
    (trigger_id : String) (xs : List TriggerAction) (w : World)
    → Post
        (λ ys w'. Stored xs ys × (w'.db ≡ with_actions (map (row_of trigger_id) ys) w.db))
        (λ _ _. Unit {0})
        (insert_actions trigger_id xs w)
unfolding insert_actions
insert_actions-Stored trigger_id [] w = returns [] w refl (
  none_stored,
  ap (λ (l : List ActionRow). record w.db { actions = l }) (sym (append-nil w.db.actions)),
)
insert_actions-Stored trigger_id (a ∷ xs) w =
    Post-bind (insert_action trigger_id a w) others (insert_action-Post trigger_id a w)
      (λ b w1 (id, is, one).
        Post-bind (insert_actions trigger_id xs w1) (λ ys. pure (b ∷ ys))
          (insert_actions-Stored trigger_id xs w1)
          (λ ys w2 (stored, rest). returns (b ∷ ys) w2 refl (
            subst (λ x. Stored (a ∷ xs) (x ∷ ys)) (sym is) (one_stored a id stored),
            subst (λ x. w2.db ≡ with_actions (map (row_of trigger_id) (x ∷ ys)) w.db) (sym is)
                (rest
                  ∙ ap (with_actions (map (row_of trigger_id) ys)) one
                  ∙ ap (λ (l : List ActionRow). record w.db { actions = l })
                      (append_assoc w.db.actions (row_of trigger_id (record a { id = id }) ∷ [])
                        (map (row_of trigger_id) ys))),
          )))
  where
    others : TriggerAction → Action (List TriggerAction)
    others b = do ys ← insert_actions trigger_id xs; pure (b ∷ ys)

-- The database with one more trigger, behind the others.
abbrev pub with_trigger : TriggerRow → Db → Db
with_trigger r db = record db { triggers = db.triggers ++ r ∷ [] }

insert_trigger-Post :
    (device_id : String) (p : TriggerCreate) (w : World)
    → Post
        (λ r w'.
          (id : String) × (r ≡ new_trigger device_id p w.now id)
          × (w'.db ≡ with_trigger (new_trigger device_id p w.now id) w.db))
        (λ _ _. Unit {0})
        (insert_trigger device_id p w)
unfolding insert_trigger
insert_trigger-Post device_id p w =
    elim (Bool-cases (any (λ (d : Device). d.id == device_id) w.db.devices)) [
      | inl known ↦ rw known (
          Post-bind {Q = λ id w'. Same w w'} (draw "create trigger: insert trigger" w)
            (add_trigger device_id p)
            (Post-draw "create trigger: insert trigger" w (λ v left. (refl, refl)) tt)
            (λ id w' (same, time). returns _ _ refl (
              id,
              ap (λ now. new_trigger device_id p now id) time,
              ap (with_trigger (new_trigger device_id p w'.now id)) same
                  ∙ ap (λ now. with_trigger (new_trigger device_id p now id) w.db) time,
            )))
      | inr unknown ↦ rw unknown (errs _ w refl tt)
    ]

-- What the store has done: one trigger and its actions are behind the others.
abbrev pub Inserted : String → TriggerCreate → ℕ → Db → Trigger → Db → Type 0
Inserted device_id p now before t after =
    (id : String) × (stored : List TriggerAction) × Stored p.actions stored
    × (t ≡ trigger_of "" stored (new_trigger device_id p now id))
    × (after
        ≡ with_actions (map (row_of id) stored)
            (with_trigger (new_trigger device_id p now id) before))

create_trigger-Inserted :
    (device_id : String) (p : TriggerCreate) (w : World)
    → Post
        (λ t w'. Inserted device_id p w.now w.db t w'.db)
        (λ _ _. Unit {0})
        (create_trigger device_id p w)
unfolding create_trigger
create_trigger-Inserted device_id p w =
    Post-bind (call "create trigger: insert trigger" (insert_trigger device_id p) w) with_all
      (Post-call "create trigger: insert trigger" (insert_trigger device_id p) w
        (λ later. insert_trigger-Post device_id p (record w { faults = later })) (λ _. tt))
      (λ r w1 (id, is, one).
        Post-bind (insert_actions r.id p.actions w1) (λ actions. pure (trigger_of "" actions r))
          (insert_actions-Stored r.id p.actions w1)
          (λ stored w2 (pairs, rest). returns _ w2 refl (
            id,
            stored,
            pairs,
            ap (trigger_of "" stored) is,
            subst (λ (x : TriggerRow). w2.db ≡ with_actions (map (row_of x.id) stored) w1.db) is
                  rest
                ∙ ap (with_actions (map (row_of id) stored)) one,
          )))
  where
    with_all : TriggerRow → Action Trigger
    with_all r = do actions ← insert_actions r.id p.actions; pure (trigger_of "" actions r)

-- What Create has done: the trigger with its resolved actions, and the event that tells the device
-- of just these behind the others.
abbrev pub Created : String → String → TriggerCreate → ℕ → Db → Db → Type 0
Created device_id user_id p now before after =
    (actions : List TriggerAction) × (t : Trigger) × (middle : Db) × (event_id : String) × Resolved
      device_id user_id before p.actions actions
    × Inserted device_id (record p { actions = actions }) now before t middle
    × (after ≡ with_event event_id push_type (upsert_payload t) push_timeout middle)

create_and_push-Created :
    (device_id user_id : String) (p : TriggerCreate) (w : World)
    → Post
        (λ _ w'. Created device_id user_id p w.now w.db w'.db)
        (λ _ _. Unit {0})
        (create_and_push device_id user_id p w)
unfolding create_and_push
create_and_push-Created device_id user_id p w =
    Post-bind (resolve_actions device_id user_id p.actions w) stored
      (resolve_actions-Resolved device_id user_id w p.actions w (refl, refl))
      (λ actions w1 (resolved, (same, time)).
        let p' : TriggerCreate = record p { actions = actions } in
        Post-bind (create_trigger device_id p' w1) pushed (create_trigger-Inserted device_id p' w1)
          (λ t w2 made.
            Post-bind
              (insert "create trigger: enqueue push" push_type (upsert_payload t) push_timeout w2)
              (λ _. pure t)
              (Post-both
                (insert-Post "create trigger: enqueue push" push_type (upsert_payload t)
                  push_timeout w2)
                (λ _ _ h. h) (λ _ _ _. tt))
              (λ _ w3 (event_id, added). returns t w3 refl (
                actions,
                t,
                w2.db,
                event_id,
                resolved,
                subst₂ (λ now db. Inserted device_id p' now db t w2.db) time same made,
                added,
              ))))
  where
    pushed : Trigger → Action Trigger
    pushed t = do
      insert "create trigger: enqueue push" push_type (upsert_payload t) push_timeout
      pure t

    stored : List TriggerAction → Action Trigger
    stored actions = do t ← create_trigger device_id (record p { actions = actions }); pushed t

create-Created :
    (device_id user_id : String) (p : TriggerCreate) (w : World)
    → Post
        (λ _ w'. Created device_id user_id p w.now w.db w'.db)
        (λ _ w'. w'.db ≡ w.db)
        (create device_id user_id p w)
unfolding create
create-Created device_id user_id p w =
    Post-transaction (λ _ db. Created device_id user_id p w.now w.db db) "create trigger: begin tx"
      "create trigger: commit" (create_and_push device_id user_id p) w
      (λ later. create_and_push-Created device_id user_id p (record w { faults = later }))

trigger_created_err : (e : Error) → (trigger_created (err e)).status ≢ 201
trigger_created_err device_not_found = omega arith
trigger_created_err invalid_peripheral = omega arith
trigger_created_err _ = omega arith

-- What is asked to be created, with a number of seconds.
abbrev pub asked : CreateTriggerRequest → ℕ → TriggerCreate
asked q n = record { name = q.name; condition = q.condition; actions = q.actions; cooldown = n }

-- Either the handler has answered 201 and done all of that for a valid request, or the database is as
-- it was.
abbrev pub Told : String → String → CreateTriggerRequest → World → Response × World → Type 0
Told device_id user_id q before (r, after) =
    ((r.status ≡ 201)
      × (validate_actions q.actions ≡ true)
      × ((n : ℕ) × (q.cooldown ≡ seconds n)
          × Created device_id user_id (asked q n) before.now before.db after.db))
    ⊎ ((r.status ≢ 201) × (after.db ≡ before.db))

module _ (device_id user_id : String) (q : CreateTriggerRequest) (w : World) where
  create_with-Told :
      (cooldown : Seconds)
      → q.cooldown ≡ cooldown
      → validate_actions q.actions ≡ true
      → Told device_id user_id q w (create_with device_id user_id q cooldown w)
  create_with-Told (below_zero n) e valid = inr (omega arith, refl)
  create_with-Told (seconds n) e valid =
      go (create device_id user_id (asked q n) w) (create-Created device_id user_id (asked q n) w)
    where
      go :
          (o : Result Trigger × World)
          → Post
              (λ _ w'. Created device_id user_id (asked q n) w.now w.db w'.db)
              (λ _ w'. w'.db ≡ w.db)
              o
          → Told device_id user_id q w (trigger_created o.0, o.1)
      go o (returns t w' k done) = rw k (inl (refl, valid, (n, e, done)))
      go o (errs x w' k same) = rw k (inr (trigger_created_err x, same))

  -- For every device, user, request and state, the answer of the handler tells what happened: 201
  -- that the request was valid, that one enabled trigger of the device was added behind the others
  -- with its actions, where each action on a peripheral names an active actuator of a device of the
  -- user's and has that peripheral's address in its configuration, and one pending trigger.push
  -- event with the same actions; any other that the database is as it was.
  pub create_trigger_handler-Told :
      Told device_id user_id q w (create_trigger_handler device_id user_id (some q) w)
  unfolding create_trigger_handler
  create_trigger_handler-Told =
      elim (Bool-cases (q.name == "" || q.condition == "" || not (validate_actions q.actions))) [
        | inl bad ↦ rw bad (inr (omega arith, refl))
        | inr good ↦ rw good (create_with-Told q.cooldown refl (ground arith))
      ]
