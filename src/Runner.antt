-- ===== src/Runner.antt =====
-- The runner of the outbox as main.go starts it: its four processors, ten seconds between two rounds
-- and five attempts for an event. The broker's client that creates credentials and the text that
-- json.Marshal makes of a list of actions are parameters.
pub mod Kept
pub mod Refused
pub mod Announced
use fishhub_server.Prelude.{ℕ, String, List, [], ◌∷◌}
use fishhub_server.Schema.{ActionConfig, Event}
use fishhub_server.World.{World, Action}
use fishhub_server.Outbox.{Processor, registry, run}
use fishhub_server.Account.{config_push_type, push_config}
use fishhub_server.Provisioning.{provision_type, provision_device}
use fishhub_server.Peripherals.Pushes.{push_type as peripheral_push_type, push_peripheral}
use fishhub_server.Triggers.{push_type as trigger_push_type}
use fishhub_server.Triggers.Pushes.{push_trigger}

module _ (provision : String → String → Action (Unit {0}))
    (text : List (String × ActionConfig) → String) where
  abbrev pub processors : List (String × Processor)
  processors =
      (provision_type, provision_device provision)
      ∷ (peripheral_push_type, push_peripheral)
      ∷ (config_push_type, push_config)
      ∷ (trigger_push_type, push_trigger text)
      ∷ []

  -- outboxRunner.Run, over a number of rounds
  unfoldable pub run_server : (List Event → List Event) → ℕ → World → World
  run_server schedule n w = run (registry processors) 5 schedule 10 n w
