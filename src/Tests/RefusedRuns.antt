-- ===== src/Tests/RefusedRuns.antt =====
-- A device whose credentials the broker never takes.
use fishhub_server.Prelude.{String, ◌≡◌, refl, false, true, List, find_first}
use fishhub_server.Schema.{OutboxRow, ActionConfig, mqtt_provision, dead}
use fishhub_server.World.{World, Action, failed, ok, err}
use fishhub_server.Text.{contains}
use fishhub_server.Outbox.{new_row}
use fishhub_server.Outbox.Retry.{lone, waiting}
use fishhub_server.Device.{get_activation_status}
use fishhub_server.Provisioning.{provision_type}
use fishhub_server.Runner.{run_server}
use fishhub_server.Runner.Refused.{get_activation_status_refused}
use fishhub_server.Tests.Worlds.{start, pump}

abbrev refused : String → String → Action (Unit {0})
refused username password w = (err (failed "unexpected status 503"), w)

abbrev text : List (String × ActionConfig) → String
text actions = ""

abbrev wanted : OutboxRow
wanted = new_row "e1" provision_type (mqtt_provision "d1" "d1" "secret") 30

is_other : contains "unexpected status 503" "409" ≡ false
unfolding contains
is_other = refl

get_activation_status_refused_example :
    ((get_activation_status "d1" (lone (waiting wanted) start)).0
      ≡ ok (record { ready = false; mqtt_username = ""; mqtt_password = "" }))
    × (r' : OutboxRow) × (w' : World) × (run_server refused text
          (λ es. es)
          5
          (lone (waiting wanted) start)
        ≡ lone r' w')
    × (r'.status ≡ dead)
    × ((get_activation_status "d1"
          (run_server refused text (λ es. es) 5 (lone (waiting wanted) start))).0
        ≡ ok (record { ready = true; mqtt_username = "d1"; mqtt_password = "secret" }))
unfolding find_first
get_activation_status_refused_example =
    get_activation_status_refused refused text (λ es. es) "unexpected status 503" (λ _ _ _. refl)
      is_other (λ _. refl) "d1" "d1" "secret" pump wanted start refl refl refl refl 4 refl refl
