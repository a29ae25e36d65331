-- ===== src/Tests/OutboxRuns.antt =====
-- Runs of the outbox.
use fishhub_server.Prelude.{String, ◌≡◌, refl, Option, some, [], ◌∷◌, arith}
use mathlib.Core.Path.{subst}
use fishhub_server.Schema.{OutboxRow, device_config_push, dead}
use fishhub_server.World.{World, failed, err}
use fishhub_server.Outbox.{Processor, new_row, run}
use fishhub_server.Outbox.WellFormed.{IsWellFormed, KeepsOutbox, run-IsWellFormed}
use fishhub_server.Outbox.Retry.{lone, waiting, run_dead}
use fishhub_server.Account.{push_config}
use fishhub_server.Tests.Worlds.{start, with_outbox}

abbrev row : String → OutboxRow
row id = new_row id "device.config_push" (device_config_push "d1" "UTC") 30

abbrev pushes : String → Option Processor
pushes type = some push_config

push_config-KeepsOutbox : KeepsOutbox 3 push_config
unfolding push_config
push_config-KeepsOutbox e w h = ground arith

keeps : (type : String) (p : Processor) → pushes type ≡ some p → KeepsOutbox 3 p
keeps type p e =
    let same : push_config ≡ p = cc e in subst (KeepsOutbox 3) same push_config-KeepsOutbox

run-IsWellFormed_example :
    IsWellFormed 3 (run pushes 3 (λ es. es) 5 4 (with_outbox (row "e1" ∷ row "e2" ∷ [])))
run-IsWellFormed_example =
    run-IsWellFormed 3 pushes keeps (λ es. es) 5 4 (with_outbox (row "e1" ∷ row "e2" ∷ []))
      (omega arith, (omega arith, tt))

-- A processor whose broker is down.
abbrev down : Processor
down e w = (err (failed "down"), w)

abbrev unlucky : String → Option Processor
unlucky type = some down

run_dead_example :
    (r' : OutboxRow) × (w' : World) × (run unlucky 3
        (λ es. es)
        5
        3
        (lone (waiting (row "e1")) start)
      ≡ lone r' w')
    × (r'.status ≡ dead)
    × (r'.attempts ≡ 3)
    × (r'.id ≡ "e1")
    × (w'.db ≡ start.db)
    × (w'.published ≡ start.published)
run_dead_example =
    run_dead unlucky down 3 (λ es. es) "down" (λ e w. refl) (λ e. refl) 5 2 (row "e1") start refl
      refl
