-- ===== src/Triggers/Resolution.antt =====
-- What validatePeripheralAction and buildPeripheralActionConfig of internal/trigger/service.go make of
-- the actions of a request.
use fishhub_server.Prelude.{
  String, ◌==◌, ◌≡◌, refl, sym, ap, ◌∙◌, Bool, Bool-cases, inl, inr, true, false, Option, none,
  some, List, [], ◌∷◌, any, is_none, eq_refl, find_first-true, ◌&&◌, arith,
}
use fishhub_server.Schema.{
  Db, PeripheralRow, TriggerAction, ActionConfig, config_object, config_null, config_other,
  JsonValue, json_text, json_null, json_other,
}
use fishhub_server.World.{Result, ok, err, World, Action, pure, call, gets, ◌>>=◌}
use fishhub_server.World.Post.{Post, returns, errs, Post-bind, Post-call, Same}
use fishhub_server.Device.{is_owned}
use fishhub_server.Peripherals.Pushes.{address}
use fishhub_server.Triggers.Configs.{read_from, read_text, set_field, build_config}
use mathlib.Core.Path.{subst}
use fishhub_server.Peripherals.Store.{is_reachable}
use fishhub_server.Triggers.{
  is_actuator, find_actuator, no_peripheral, why_not, kind_pin_of, resolve_peripheral, with_config,
  resolve_action, resolve_actions,
}

read_from-set_field :
    (key t found : String) (fields : List (String × JsonValue))
    → read_from key found (set_field key (json_text t) fields) ≡ some t
unfolding read_from set_field
read_from-set_field key t found [] = rw (eq_refl key) refl
read_from-set_field key t found ((k, v) ∷ rest) = elim (Bool-cases (k == key)) [
  | inl same ↦ rw same (read_from-set_field key t found rest)
  | inr other ↦ rw other (kept v other (read_from-set_field key t found rest))
]
  where
    kept :
        (x : JsonValue)
        → (k == key) ≡ false
        → read_from key found (set_field key (json_text t) rest) ≡ some t
        → read_from key found ((k, x) ∷ set_field key (json_text t) rest) ≡ some t
    kept (json_text s) differs later = rw (read_from, differs) later
    kept json_null differs later = later
    kept (json_other s) differs later = rw (read_from, differs) later

-- The configuration that is built has the address, for whoever reads it.
read_text-build_config :
    (c config : ActionConfig) (t : String)
    → build_config c t ≡ some config
    → read_text "peripheral" config ≡ some t
unfolding read_text build_config
read_text-build_config (config_object fields) config t e =
    subst (λ o. and_then_read o ≡ some t) e (read_from-set_field "peripheral" t "" fields)
  where
    and_then_read : Option ActionConfig → Option String
    and_then_read none = none
    and_then_read (some c) = read_text "peripheral" c
read_text-build_config config_null config t e = ground arith
read_text-build_config (config_other s) config t e = ground arith

-- What the query for an actuator has tested.
find_actuator-true :
    (device_id user_id id : String) (db : Db) (p : PeripheralRow)
    → find_actuator device_id user_id id db ≡ some p
    → ((p.id == id) ≡ true) × ((p.category == "actuator") ≡ true) × (is_none p.deleted_at ≡ true)
unfolding find_actuator
find_actuator-true device_id user_id id db p e =
    let test : (is_actuator p && is_reachable db.devices device_id user_id id p) ≡ true =
      find_first-true (λ x. is_actuator x && is_reachable db.devices device_id user_id id x)
        db.peripherals p e in
    (ground arith, ground arith, ground arith)

module _ (device_id user_id : String) (before : Db) where
  -- The actions of a request as they are stored: an action on a peripheral names an active actuator
  -- of the user's device, and its configuration has the address of that peripheral.
  pub data Resolved : List TriggerAction → List TriggerAction → Type 0 where
    none_resolved : Resolved [] []
    plain :
        {xs ys : List TriggerAction} (a : TriggerAction)
        → (a.type == "peripheral_action") ≡ false
        → Resolved xs ys
        → Resolved (a ∷ xs) (a ∷ ys)
    on_peripheral :
        {xs ys : List TriggerAction} (a : TriggerAction) (id : String) (p : PeripheralRow)
        (config : ActionConfig)
        → (a.type == "peripheral_action") ≡ true
        → read_text "peripheral_id" a.config ≡ some id
        → find_actuator device_id user_id id before ≡ some p
        → build_config a.config (address p.kind p.pin) ≡ some config
        → ((p.id == id) ≡ true)
          × ((p.category == "actuator") ≡ true)
          × (is_none p.deleted_at ≡ true)
        → read_text "peripheral" config ≡ some (address p.kind p.pin)
        → Resolved xs ys
        → Resolved (a ∷ xs) (record a { config = config } ∷ ys)

module _ (device_id user_id : String) (w0 : World) where
  -- What validatePeripheralAction finds.
  abbrev Found : Option String → String → Type 0
  Found read kind_pin =
      (id : String) × (p : PeripheralRow) × (read ≡ some id)
      × (find_actuator device_id user_id id w0.db ≡ some p)
      × (kind_pin ≡ address p.kind p.pin)

  kind_pin_of-Post :
      (id : String) (w : World) (found : Option PeripheralRow)
      → find_actuator device_id user_id id w0.db ≡ found
      → Same w0 w
      → Post
          (λ s w'. Found (some id) s × Same w0 w')
          (λ _ _. Unit {0})
          (kind_pin_of device_id user_id found w)
  unfolding kind_pin_of why_not
  kind_pin_of-Post id w (some p) e same = returns _ w refl ((id, p, refl, e, refl), same)
  kind_pin_of-Post id w none e same =
      go (call "device exists" (gets (λ x. any (is_owned device_id user_id) x.db.devices)) w)
    where
      go :
          (o : Result Bool × World)
          → Post (λ s w'. Found (some id) s × Same w0 w') (λ _ _. Unit {0}) (no_peripheral o)
      go (ok true, w') = errs _ w' refl tt
      go (ok false, w') = errs _ w' refl tt
      go (err x, w') = errs _ w' refl tt

  resolve_peripheral-Post :
      (read : Option String) (w : World)
      → Same w0 w
      → Post
          (λ s w'. Found read s × Same w0 w')
          (λ _ _. Unit {0})
          (resolve_peripheral device_id user_id read w)
  unfolding resolve_peripheral
  resolve_peripheral-Post none w same = errs _ w refl tt
  resolve_peripheral-Post (some id) w same = elim (Bool-cases (id == "")) [
    | inl empty ↦ rw empty (errs _ w refl tt)
    | inr full ↦ rw full (
        Post-call "validate peripheral action"
          (λ x. kind_pin_of device_id user_id (find_actuator device_id user_id id x.db) x) w
          (λ later.
            kind_pin_of-Post id (record w { faults = later })
              (find_actuator device_id user_id id w.db)
              (ap (find_actuator device_id user_id id) (sym same.0)) same)
          (λ _. tt))
  ]

  -- What becomes of one action.
  abbrev One : TriggerAction → TriggerAction → Type 0
  One a b =
      (xs ys : List TriggerAction)
      → Resolved device_id user_id w0.db xs ys
      → Resolved device_id user_id w0.db (a ∷ xs) (b ∷ ys)

  with_config-Post :
      (a : TriggerAction) (kind_pin : String) (w : World) (config : Option ActionConfig)
      → (a.type == "peripheral_action") ≡ true
      → Found (read_text "peripheral_id" a.config) kind_pin
      → build_config a.config kind_pin ≡ config
      → Same w0 w
      → Post (λ b w'. One a b × Same w0 w') (λ _ _. Unit {0}) (with_config a config w)
  with_config-Post a kind_pin w none type found e same = errs _ w refl tt
  with_config-Post a kind_pin w (some config) type (id, p, read, is_p, is_address) e same =
      returns (record a { config = config }) w refl
        (
          (λ _ _ more.
              on_peripheral a id p config type read is_p
                (ap (build_config a.config) (sym is_address) ∙ e)
                (find_actuator-true device_id user_id id w0.db p is_p)
                (read_text-build_config a.config config kind_pin e ∙ ap some is_address) more),
          same,
        )

  resolve_action-Post :
      (a : TriggerAction) (w : World)
      → Same w0 w
      → Post (λ b w'. One a b × Same w0 w') (λ _ _. Unit {0}) (resolve_action device_id user_id a w)
  unfolding resolve_action
  resolve_action-Post a w same = elim (Bool-cases (a.type == "peripheral_action")) [
    | inl type ↦ rw type (
        Post-bind (resolve_peripheral device_id user_id (read_text "peripheral_id" a.config) w)
          (λ kind_pin. with_config a (build_config a.config kind_pin))
          (resolve_peripheral-Post (read_text "peripheral_id" a.config) w same)
          (λ kind_pin w1 (found, same').
            with_config-Post a kind_pin w1 (build_config a.config kind_pin) type found refl same'))
    | inr other ↦ rw other (returns a w refl ((λ _ _ more. plain a other more), same))
  ]

  pub resolve_actions-Resolved :
      (xs : List TriggerAction) (w : World)
      → Same w0 w
      → Post
          (λ ys w'. Resolved device_id user_id w0.db xs ys × Same w0 w')
          (λ _ _. Unit {0})
          (resolve_actions device_id user_id xs w)
  unfolding resolve_actions
  resolve_actions-Resolved [] w same = returns [] w refl (none_resolved, same)
  resolve_actions-Resolved (a ∷ xs) w same =
      Post-bind (resolve_action device_id user_id a w) others (resolve_action-Post a w same)
        (λ b w1 (one, same1).
          Post-bind (resolve_actions device_id user_id xs w1) (λ ys. pure (b ∷ ys))
            (resolve_actions-Resolved xs w1 same1)
            (λ ys w2 (rest, same2). returns (b ∷ ys) w2 refl (one xs ys rest, same2)))
    where
      others : TriggerAction → Action (List TriggerAction)
      others b = do ys ← resolve_actions device_id user_id xs; pure (b ∷ ys)
