-- ===== src/Triggers/Gone.antt =====
-- The ids of the actions that an update of a trigger replaces (Update of
-- internal/trigger/store.go).
use fishhub_server.Prelude.{
  String, ◌==◌, ◌≡◌, refl, sym, ◌∙◌, not, ◌&&◌, ◌||◌, Bool, Bool-cases, inl, inr, true, false,
  Option, none, some, List, [], ◌∷◌, ◌++◌, any, All, any-append, select, arith, eq_iff,
  find_first-true,
}
use mathlib.Core.Path.{subst, subst₂}
use fishhub_server.Schema.{Db, TriggerRow, ActionRow, TriggerAction}
use fishhub_server.World.{World, Action, pure, draw, draw_from, call, modify_db, ◌>>=◌, ◌>>◌}
use fishhub_server.World.Post.{Post, returns, errs, Post-bind, Post-call}
use fishhub_server.Triggers.Store.{
  Trigger, TriggerUpdate, trigger_of, new_action, insert_action, insert_actions,
  is_reachable_trigger, find_trigger, patched, write_trigger, delete_actions, update_trigger,
}

abbrev pub has_action_id : String → ActionRow → Bool
has_action_id i a = a.id == i

-- No id that will be drawn is that one.
abbrev pub Fresh : String → World → Type 0
Fresh i w = All (λ (s : String). (s == i) ≡ false) w.supply

-- No action has that id, and none will be given it.
abbrev pub Gone : String → World → Type 0
Gone i w = (any (has_action_id i) w.db.actions ≡ false) × Fresh i w

draw-Fresh :
    (i what : String) (w : World)
    → Fresh i w
    → Post
        (λ v w'. ((v == i) ≡ false) × Fresh i w' × (w'.db ≡ w.db))
        (λ _ _. Unit {0})
        (draw what w)
unfolding draw draw_from
draw-Fresh i what w fresh = go w.supply fresh
  where
    go :
        (vs : List String)
        → All (λ (s : String). (s == i) ≡ false) vs
        → Post
            (λ v w'. ((v == i) ≡ false) × Fresh i w' × (w'.db ≡ w.db))
            (λ _ _. Unit {0})
            (draw_from vs what pure w)
    go [] h = errs _ w refl tt
    go (v ∷ vs) h = returns v (record w { supply = vs }) refl (h.0, h.1, refl)

-- An insertion of an action leaves the id unused.
insert_action-Gone :
    (i trigger_id : String) (a : TriggerAction) (w : World)
    → Gone i w
    → Post (λ _ w'. Gone i w') (λ _ _. Unit {0}) (insert_action trigger_id a w)
unfolding insert_action any
insert_action-Gone i trigger_id a w (gone, fresh) =
    Post-bind {Q = λ v w1. ((v == i) ≡ false) × Fresh i w1 × (w1.db ≡ w.db)}
      (call "insert action" (draw "insert action") w) second
      (Post-call "insert action" (draw "insert action") w
        (λ later. draw-Fresh i "insert action" (record w { faults = later }) fresh) (λ _. tt))
      (λ id w1 (differs, fresh1, same).
        Post-bind {Q = λ _ w2. Gone i w2} (call "insert action_triggers" (modify_db (added id)) w1)
          (λ _. pure (record a { id = id }))
          (Post-call "insert action_triggers" (modify_db (added id)) w1
            (λ later. returns tt _ refl (
              any-append (has_action_id i) w1.db.actions (new_action trigger_id a id ∷ [])
                  ∙ still id differs w1.db same,
              fresh1,
            ))
            (λ _. tt))
          (λ _ w2 is. returns (record a { id = id }) w2 refl is))
  where
    added : String → Db → Db
    added id db = record db { actions = db.actions ++ new_action trigger_id a id ∷ [] }

    second : String → Action TriggerAction
    second id = do call "insert action_triggers" (modify_db (added id)); pure (record a { id = id })

    still :
        (id : String)
        → (id == i) ≡ false
        → (db : Db) → db ≡ w.db
        → (any (has_action_id i) db.actions
            || any (has_action_id i) (new_action trigger_id a id ∷ []))
          ≡ false
    still id differs db same =
        subst
          (λ (x : Db).
            (any (has_action_id i) x.actions
              || any (has_action_id i) (new_action trigger_id a id ∷ []))
            ≡ false)
          (sym same) (ground arith)

insert_actions-Gone :
    (i trigger_id : String) (xs : List TriggerAction) (w : World)
    → Gone i w
    → Post (λ _ w'. Gone i w') (λ _ _. Unit {0}) (insert_actions trigger_id xs w)
unfolding insert_actions
insert_actions-Gone i trigger_id [] w gone = returns [] w refl gone
insert_actions-Gone i trigger_id (a ∷ xs) w gone =
    Post-bind (insert_action trigger_id a w) others (insert_action-Gone i trigger_id a w gone)
      (λ b w1 gone1.
        Post-bind (insert_actions trigger_id xs w1) (λ ys. pure (b ∷ ys))
          (insert_actions-Gone i trigger_id xs w1 gone1)
          (λ ys w2 gone2. returns (b ∷ ys) w2 refl gone2))
  where
    others : TriggerAction → Action (List TriggerAction)
    others b = do ys ← insert_actions trigger_id xs; pure (b ∷ ys)

-- Only actions of that trigger have the id.
abbrev pub OnlyOf : String → String → Db → Type 0
OnlyOf i trigger_id db =
    any (λ (a : ActionRow). has_action_id i a && not (a.trigger_id == trigger_id)) db.actions
    ≡ false

deleted-none :
    (i trigger_id : String) (rows : List ActionRow)
    → any (λ (a : ActionRow). has_action_id i a && not (a.trigger_id == trigger_id)) rows ≡ false
    → any (has_action_id i) (select (λ (a : ActionRow). not (a.trigger_id == trigger_id)) rows)
      ≡ false
unfolding any select
deleted-none i trigger_id [] h = refl
deleted-none i trigger_id (a ∷ rows) h = elim (Bool-cases (a.trigger_id == trigger_id)) [
  | inl hit ↦ rw hit (deleted-none i trigger_id rows (ground arith))
  | inr miss ↦ rw miss (ground (arith, deleted-none i trigger_id rows (ground arith)))
]

module _ (i device_id user_id id : String) where
  -- What the UPDATE leaves: the row that it returns has the id, and the actions are as they were.
  abbrev Written : World → TriggerRow → World → Type 0
  Written w r w' = (r.id ≡ id) × (w'.db.actions ≡ w.db.actions) × Fresh i w'

  write_trigger-Written :
      (u : TriggerUpdate) (w : World) (found : Option TriggerRow)
      → find_trigger device_id user_id id w ≡ found
      → Fresh i w
      → Post (Written w) (λ _ _. Unit {0}) (write_trigger device_id user_id id (patched u) found w)
  unfolding write_trigger find_trigger
  write_trigger-Written u w none e fresh = errs _ w refl tt
  write_trigger-Written u w (some r) e fresh =
      let passes : is_reachable_trigger w.db.devices device_id user_id id r ≡ true =
        find_first-true (is_reachable_trigger w.db.devices device_id user_id id) w.db.triggers r
          e in
      returns _ _ refl (ground (arith, eq_iff r.id id), refl, fresh)

  pub update_trigger-Gone :
      (u : TriggerUpdate) (w : World)
      → OnlyOf i id w.db
      → Fresh i w
      → Post (λ _ w'. Gone i w') (λ _ _. Unit {0}) (update_trigger device_id user_id id u w)
  unfolding update_trigger delete_actions
  update_trigger-Gone u w only fresh =
      Post-bind {Q = Written w} (call "update trigger" writes w) replaced
        (Post-call "update trigger" writes w
          (λ later.
            write_trigger-Written u (record w { faults = later })
              (find_trigger device_id user_id id (record w { faults = later })) refl fresh)
          (λ _. tt))
        (λ r w1 (is, kept, fresh1).
          Post-bind {Q = λ _ w2. Gone i w2} (delete_actions r.id w1) (λ _. inserted r)
            (Post-call "update trigger: delete old actions" (modify_db (dropped r.id)) w1
              (λ later. returns tt _ refl (
                deleted-none i r.id w1.db.actions (
                    subst₂
                      (λ (t : String) (rows : List ActionRow).
                        any (λ (a : ActionRow). has_action_id i a && not (a.trigger_id == t)) rows
                        ≡ false)
                      (sym is) (sym kept) only),
                fresh1,
              ))
              (λ _. tt))
            (λ _ w2 gone.
              Post-bind (insert_actions r.id u.actions w2)
                (λ actions. pure (trigger_of "" actions r))
                (insert_actions-Gone i r.id u.actions w2 gone)
                (λ actions w3 gone3. returns _ w3 refl gone3)))
    where
      writes : Action TriggerRow
      writes x =
          write_trigger device_id user_id id (patched u) (find_trigger device_id user_id id x) x

      dropped : String → Db → Db
      dropped t db = record db {
        actions = select (λ (a : ActionRow). not (a.trigger_id == t)) db.actions;
      }

      inserted : TriggerRow → Action Trigger
      inserted r = do actions ← insert_actions r.id u.actions; pure (trigger_of "" actions r)

      replaced : TriggerRow → Action Trigger
      replaced r = do delete_actions r.id; inserted r
