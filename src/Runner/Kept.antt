-- ===== src/Runner/Kept.antt =====
-- The runner of main.go and the budgets of the outbox.
use fishhub_server.Prelude.{
  ℕ, String, ◌==◌, ◌≡◌, sym, Bool, Bool-cases, true, false, inl, inr, Option, none, some, List, [],
  ◌∷◌, if◌then◌else◌, All, arith,
}
use mathlib.Core.Path.{subst}
use fishhub_server.Schema.{ActionConfig, Event, Db}
use fishhub_server.World.{World, Action, Result, ok, err, publish, ignore}
use fishhub_server.World.Keeps.{Keeps, bind-Keeps, publish-Keeps, ignore-Keeps}
use fishhub_server.Text.{contains}
use fishhub_server.Outbox.{Processor, registry, error_text}
use fishhub_server.Outbox.WellFormed.{IsWellFormed, InBudget, KeepsOutbox, run-IsWellFormed}
use fishhub_server.Account.{push_config, config_fields, config_topic}
use fishhub_server.Account.Timezones.{posix_tz}
use fishhub_server.Provisioning.{provision_device, provision_fields, unless_exists}
use fishhub_server.Peripherals.Pushes.{push_peripheral}
use fishhub_server.Triggers.Pushes.{
  push_trigger, push_delete, trigger_push_of, trigger_topic, upsert_body, TriggerPush,
}
use fishhub_server.Runner.{processors, run_server}

-- A processor that the registry finds is one of its list.
registry-All :
    (P : Processor → Type 0) (ps : List (String × Processor)) (type : String) (p : Processor)
    → All (λ (entry : String × Processor). P entry.1) ps
    → registry ps type ≡ some p
    → P p
unfolding registry
registry-All P [] type p all e = ground arith
registry-All P ((key, q) ∷ ps) type p all e =
    go (registry ps type) (registry-All P ps type p all.1) e
  where
    chosen : (b : Bool) → (if b then some q else none) ≡ some p → P p
    chosen true k = subst P (cc k) all.0
    chosen false k = ground arith

    go :
        (later : Option Processor)
        → (later ≡ some p → P p)
        → elim later [ some found ↦ some found | none ↦ if key == type then some q else none ]
          ≡ some p
        → P p
    go (some found) rest k = rest k
    go none rest k = chosen (key == type) k

module _ (max_attempts : ℕ) where
  abbrev Budget : Db → Type 0
  Budget db = All (InBudget max_attempts) db.outbox

  push_config-Keeps : KeepsOutbox max_attempts push_config
  unfolding push_config
  push_config-Keeps event =
      let (device_id, timezone) = config_fields event.payload in
      publish-Keeps Budget "mqtt publish" (config_topic device_id)
        (("timezone", posix_tz timezone) ∷ [])

  push_peripheral-Keeps : KeepsOutbox max_attempts push_peripheral
  unfolding push_peripheral
  push_peripheral-Keeps event = publish-Keeps Budget "mqtt publish" _ _

  push_delete-Keeps : (p : TriggerPush) → Keeps Budget (push_delete p)
  unfolding push_delete
  push_delete-Keeps p =
      bind-Keeps Budget
        (publish "mqtt publish delete" (trigger_topic p) (("op", "delete") ∷ ("id", p.id) ∷ []))
        (λ _. ignore (publish "mqtt clear retained" (trigger_topic p) []))
        (publish-Keeps Budget "mqtt publish delete" (trigger_topic p)
          (("op", "delete") ∷ ("id", p.id) ∷ []))
        (λ _.
          ignore-Keeps Budget (publish "mqtt clear retained" (trigger_topic p) [])
            (publish-Keeps Budget "mqtt clear retained" (trigger_topic p) []))

  push_trigger-Keeps :
      (text : List (String × ActionConfig) → String) → KeepsOutbox max_attempts (push_trigger text)
  unfolding push_trigger
  push_trigger-Keeps text event = go ((trigger_push_of event.payload).op == "delete")
    where
      p : TriggerPush
      p = trigger_push_of event.payload

      go :
          (b : Bool)
          → Keeps Budget (
              if b
              then push_delete p
              else publish "mqtt publish upsert" (trigger_topic p) (upsert_body text p))
      go true = push_delete-Keeps p
      go false = publish-Keeps Budget "mqtt publish upsert" (trigger_topic p) (upsert_body text p)

  provision_device-Keeps :
      (provision : String → String → Action (Unit {0}))
      → ((username password : String) → Keeps Budget (provision username password))
      → KeepsOutbox max_attempts (provision_device provision)
  unfolding provision_device unless_exists
  provision_device-Keeps provision keep event w h =
      let (username, password) = provision_fields event.payload in
      go (provision username password w) (keep username password w h)
    where
      go : (o : Result (Unit {0}) × World) → Budget o.1.db → Budget (unless_exists o).1.db
      go (ok _, w') k = k
      go (err e, w') k = elim (Bool-cases (contains (error_text e) "409")) [
        | inl known ↦ rw (known, unless_exists) k
        | inr unknown ↦ rw (unknown, unless_exists) k
      ]

-- For every client of the broker that leaves the outbox alone, text of actions, order of the events
-- of a tick, number of rounds and state: if the outbox is within its budgets, so it is after that
-- many rounds of the server's runner, whatever fails.
pub run_server-IsWellFormed :
    (provision : String → String → Action (Unit {0})) (text : List (String × ActionConfig) → String)
    (schedule : List Event → List Event) (n : ℕ) (w : World)
    → ((username password : String) (x : World)
        → (provision username password x).1.db.outbox ≡ x.db.outbox)
    → IsWellFormed 5 w
    → IsWellFormed 5 (run_server provision text schedule n w)
unfolding run_server
run_server-IsWellFormed provision text schedule n w alone h =
    run-IsWellFormed 5 (registry (processors provision text))
      (λ type p e.
        registry-All (KeepsOutbox 5) (processors provision text) type p
          (
            provision_device-Keeps 5 provision (λ username password x k.
                subst (All (InBudget 5)) (sym (alone username password x)) k),
            (push_peripheral-Keeps 5, (push_config-Keeps 5, (push_trigger-Keeps 5 text, tt))),
          )
          e)
      schedule 10 n w h
