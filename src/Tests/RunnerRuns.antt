-- ===== src/Tests/RunnerRuns.antt =====
-- Rounds of the server's runner.
use fishhub_server.Prelude.{String, ◌≡◌, refl, List, [], ◌∷◌, ◌++◌, map, arith}
use fishhub_server.Schema.{ActionConfig, OutboxRow, device_config_push, completed}
use fishhub_server.World.{Action, failed, err}
use fishhub_server.World.Post.{Post}
use fishhub_server.Outbox.{new_row}
use fishhub_server.Outbox.WellFormed.{IsWellFormed}
use fishhub_server.Account.{config_push_type, config_push_timeout}
use fishhub_server.Peripherals.{register}
use fishhub_server.Runner.{run_server}
use fishhub_server.Runner.Kept.{run_server-IsWellFormed}
use fishhub_server.Runner.Announced.{announcement, register_announced}
use fishhub_server.Tests.Worlds.{with_outbox, with_peripherals}
use fishhub_server.Tests.PeripheralRuns.{driver, again}

abbrev broker_down : String → String → Action (Unit {0})
broker_down username password w = (err (failed "503"), w)

abbrev no_text : List (String × ActionConfig) → String
no_text actions = "[]"

abbrev push : OutboxRow
push = new_row "e1" config_push_type (device_config_push "d1" "UTC") config_push_timeout

run_server-IsWellFormed_example :
    IsWellFormed 5 (run_server broker_down no_text (λ es. es) 3 (with_outbox (push ∷ [])))
run_server-IsWellFormed_example =
    run_server-IsWellFormed broker_down no_text (λ es. es) 3 (with_outbox (push ∷ []))
      (λ username password x. refl) (omega arith, tt)

register_announced_example :
    Post
      (λ _ w'.
        let after = run_server broker_down no_text (λ es. es) 1 (record w' { faults = [] }) in
        (after.published ≡ w'.published ++ announcement again ∷ [])
        × (map (λ (r : OutboxRow). r.status) after.db.outbox ≡ completed ∷ []))
      (λ _ w'. w'.db ≡ (with_peripherals []).db)
      (register driver "u1" again (with_peripherals []))
register_announced_example =
    register_announced broker_down no_text (λ es. es) (λ e. refl) driver "u1" again
      (with_peripherals []) refl
