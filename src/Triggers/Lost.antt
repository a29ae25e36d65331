-- ===== src/Triggers/Lost.antt =====
-- A change of a trigger and the jobs that wait for one of its actions (Update of
-- internal/trigger/service.go and store.go).
use fishhub_server.Prelude.{
  String, ◌≡◌, refl, sym, ◌∙◌, false, Option, none, some, [], any, find_first-none,
}
use mathlib.Core.Path.{subst}
use fishhub_server.Schema.{Db, TriggerRow}
use fishhub_server.World.{
  trigger_not_found, err, World, Action, pure, call, gets, transaction, ◌>>=◌, ◌>>◌,
}
use fishhub_server.World.Post.{
  Post, returns, errs, Post-bind, Post-call, Post-both, Post-transaction,
}
use fishhub_server.Device.{or_error}
use fishhub_server.Outbox.{insert}
use fishhub_server.Outbox.Insert.{insert-Post}
use fishhub_server.Triggers.Gone.{has_action_id, Fresh, OnlyOf, update_trigger-Gone}
use fishhub_server.Triggers.Store.{
  Trigger, TriggerUpdate, trigger_of, find_trigger, update_trigger, get_trigger, get_action_config,
  actions_of,
}
use fishhub_server.Triggers.{
  TriggerPatch, apply_patch, upsert_payload, push_type, push_timeout, patch_and_push, update,
}

module _ (i device_id user_id id : String) where
  patch_and_push-NotFound :
      (patch : TriggerPatch) (current : Trigger) (w : World)
      → patch.actions ≡ none
      → OnlyOf i id w.db
      → Fresh i w
      → Post
          (λ _ w'. any (has_action_id i) w'.db.actions ≡ false)
          (λ _ _. Unit {0})
          (patch_and_push device_id user_id id patch current w)
  unfolding patch_and_push apply_patch
  patch_and_push-NotFound patch current w no_actions only fresh =
      Post-bind {Q = λ _ w1. (w1.db ≡ w.db) × Fresh i w1}
        (apply_patch device_id user_id current patch w) updated (merged w no_actions fresh)
        (λ u w1 (same, fresh1).
          Post-bind (update_trigger device_id user_id id u w1) pushed
            (update_trigger-Gone i device_id user_id id u w1 (subst (OnlyOf i id) (sym same) only)
              fresh1)
            (λ t w2 (gone, _).
              Post-bind {Q = λ _ w3. any (has_action_id i) w3.db.actions ≡ false}
                (insert "update trigger: enqueue push" push_type (upsert_payload t) push_timeout w2)
                (λ _. pure t)
                (Post-both
                  (insert-Post "update trigger: enqueue push" push_type (upsert_payload t)
                    push_timeout w2)
                  (λ _ w3 (event_id, added).
                    subst (λ (db : Db). any (has_action_id i) db.actions ≡ false) (sym added) gone)
                  (λ _ _ _. tt))
                (λ _ w3 kept. returns t w3 refl kept)))
    where
      merged :
          (x : World)
          → patch.actions ≡ none
          → Fresh i x
          → Post
              (λ _ w1. (w1.db ≡ x.db) × Fresh i w1)
              (λ _ _. Unit {0})
              (apply_patch device_id user_id current patch x)
      merged x e f = rw e (returns _ x refl (refl, f))

      pushed : Trigger → Action Trigger
      pushed t = do
        insert "update trigger: enqueue push" push_type (upsert_payload t) push_timeout
        pure t

      updated : TriggerUpdate → Action Trigger
      updated u = do t ← update_trigger device_id user_id id u; pushed t

  get_action_config-none :
      (w : World)
      → any (has_action_id i) w.db.actions ≡ false
      → (get_action_config i (record w { faults = [] })).0 ≡ err trigger_not_found
  unfolding get_action_config call
  get_action_config-none w h = rw (find_first-none (has_action_id i) w.db.actions h) refl

  -- For every action id, device, user, trigger, patch that names no actions and state in which only
  -- actions of that trigger have the action's id and it will not be drawn again: if update returns,
  -- the action's id is no longer known, so that a look-up of its configuration that meets no fault
  -- answers with trigger_not_found. If it returns an error, the database is the old one.
  pub update_loses_action :
      (patch : TriggerPatch) (w : World)
      → patch.actions ≡ none
      → OnlyOf i id w.db
      → Fresh i w
      → Post
          (λ _ w'. (get_action_config i (record w' { faults = [] })).0 ≡ err trigger_not_found)
          (λ _ w'. w'.db ≡ w.db)
          (update device_id user_id id patch w)
  unfolding update get_trigger find_trigger
  update_loses_action patch w no_actions only fresh =
      Post-bind {Q = λ _ w1. (w1.db ≡ w.db) × Fresh i w1} (get_trigger device_id user_id id w)
        changed
        (Post-bind {Q = λ _ w1. (w1.db ≡ w.db) × Fresh i w1} (call "get trigger" found w) hydrated
          (Post-call "get trigger" found w
            (λ later.
              looked (record w { faults = later }) (find_trigger device_id user_id id w) fresh)
            (λ _. refl))
          (λ r w1 (same, fresh1).
            Post-call "get trigger: hydrate actions" (gets (hydrate r)) w1
              (λ later. returns _ _ refl (same, fresh1)) (λ _. same)))
        (λ current w1 (same, fresh1).
          Post-both
            (Post-transaction (λ _ db. any (has_action_id i) db.actions ≡ false)
              "update trigger: begin tx" "update trigger: commit"
              (patch_and_push device_id user_id id patch current) w1
              (λ later.
                patch_and_push-NotFound patch current (record w1 { faults = later }) no_actions
                  (subst (OnlyOf i id) (sym same) only) fresh1))
            (λ _ w2 gone. get_action_config-none w2 gone) (λ _ w2 kept. kept ∙ same))
    where
      found : Action TriggerRow
      found x = (or_error trigger_not_found (find_trigger device_id user_id id x), x)

      hydrate : TriggerRow → World → Trigger
      hydrate r x = trigger_of "" (actions_of r.id x.db) r

      hydrated : TriggerRow → Action Trigger
      hydrated r = call "get trigger: hydrate actions" (gets (hydrate r))

      changed : Trigger → Action Trigger
      changed current =
          transaction "update trigger: begin tx" "update trigger: commit"
            (patch_and_push device_id user_id id patch current)

      looked :
          (x : World) (o : Option TriggerRow)
          → Fresh i x
          → Post
              (λ _ w1. (w1.db ≡ x.db) × Fresh i w1)
              (λ _ w1. w1.db ≡ x.db)
              (or_error trigger_not_found o, x)
      looked x none f = errs _ x refl refl
      looked x (some r) f = returns r x refl (refl, f)
