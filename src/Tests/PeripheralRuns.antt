-- ===== src/Tests/PeripheralRuns.antt =====
-- Requests to the service of peripherals.
use Prim.Native.String
use fishhub_server.Prelude.{
  String, ◌≡◌, refl, true, false, none, some, List, [], ◌∷◌, ◌++◌, any, find_first,
}
use fishhub_server.Schema.{Schedule, CronEntry}
use fishhub_server.World.{respond, failed, err, ok}
use fishhub_server.World.Post.{Post}
use fishhub_server.Text.{contains}
use fishhub_server.Peripherals.Model.{Peripheral, peripheral_of}
use fishhub_server.Peripherals.Violations.{port_index, unique_violation_index}
use fishhub_server.Peripherals.Create.{NewPeripheral}
use fishhub_server.Peripherals.Store.{find_reachable, get_peripheral}
use fishhub_server.Peripherals.{
  control_mode, command_topic, mode_body, register, delete, set_schedule,
}
use fishhub_server.Peripherals.Handlers.{CreateRequest, create_peripheral_handler}
use fishhub_server.Peripherals.Register.{Told, Free, create_peripheral_handler-Told}
use fishhub_server.Peripherals.Ports.{create_peripheral_handler_blocked}
use fishhub_server.Peripherals.Modes.{control_mode_uncommitted}
use fishhub_server.Peripherals.Keeping.{Safe}
use fishhub_server.Peripherals.Steps.{here, next, registers, deletes, Steps-Apart}
use fishhub_server.Peripherals.Removal.{Deleted}
use fishhub_server.Peripherals.Freed.{delete_frees}
use fishhub_server.Peripherals.Schedules.{Named, get_peripheral-set_schedule}
use fishhub_server.Tests.Worlds.{
  pump, relay_port, their_relay, our_relay, basic_model, with_peripherals,
}

-- The text of lib/pq for a violated index.
abbrev pub driver : String → String
driver index =
    String.◌++◌ "pq: duplicate key value violates unique constraint \""
      (String.◌++◌ index "\" (23505)")

abbrev request : CreateRequest
request = record {
  name = "heater";
  kind = "relay";
  port_id = "p1";
  category = "actuator";
  purpose = none;
}

create_peripheral_handler-Told_example :
    Told "d1" "u1" request
      (with_peripherals [])
      (create_peripheral_handler driver "d1" "u1" (some request) (with_peripherals []))
create_peripheral_handler-Told_example =
    create_peripheral_handler-Told driver "d1" "u1" request (with_peripherals [])

driver_names_index : unique_violation_index (driver port_index) ≡ port_index
unfolding unique_violation_index contains
driver_names_index = refl

create_peripheral_handler_blocked_example :
    create_peripheral_handler driver "d1" "u1"
      (some request)
      (record (with_peripherals (their_relay ∷ [])) { faults = [] })
    ≡ (respond 409 "port_conflict", record (with_peripherals (their_relay ∷ [])) { faults = [] })
unfolding find_first any
create_peripheral_handler_blocked_example =
    create_peripheral_handler_blocked driver driver_names_index "d1" "u1" request
      (with_peripherals (their_relay ∷ [])) pump basic_model relay_port refl refl refl refl refl
      refl refl refl refl refl

control_mode_uncommitted_example :
    let (result, w') =
      control_mode "d1" "u1" "r1" "manual" (record (with_peripherals (our_relay ∷ [])) {
        faults = false ∷ false ∷ false ∷ true ∷ [];
        supply = "uuid" ∷ [];
      }) in
    (result ≡ err (failed "set control mode: commit"))
    × (w'.db ≡ (with_peripherals (our_relay ∷ [])).db)
    × (w'.published
        ≡ []
          ++ record {
            topic = command_topic "d1" (peripheral_of none none our_relay);
            body = mode_body "manual" "uuid";
          }
            ∷ [])
unfolding find_reachable find_first any
control_mode_uncommitted_example =
    control_mode_uncommitted "d1" "u1" "r1" "manual" "uuid" [] (with_peripherals (our_relay ∷ []))
      our_relay refl refl refl

abbrev heater : NewPeripheral
heater = record {
  device_id = "d1";
  name = "heater";
  kind = "relay";
  category = "actuator";
  purpose = none;
  port = record relay_port { id = "p2"; pin = 5 };
}

Steps-Apart_example :
    Safe
      (delete "d1" "u1" "r1"
        (register driver "u1" heater (with_peripherals (our_relay ∷ []))).1).1.db
Steps-Apart_example =
    Steps-Apart {w = with_peripherals (our_relay ∷ [])} (tt, tt)
      (next (next here (registers driver "u1" heater (with_peripherals (our_relay ∷ [])))) (
        deletes "d1" "u1" "r1" (register driver "u1" heater (with_peripherals (our_relay ∷ []))).1))

abbrev pub again : NewPeripheral
again = record {
  device_id = "d1";
  name = "light";
  kind = "relay";
  category = "actuator";
  purpose = none;
  port = relay_port;
}

delete_frees_example :
    Post
      (λ _ w'.
        Deleted "d1" "u1" "r1" 1000 (with_peripherals (our_relay ∷ [])).db w'.db × Free again w'.db)
      (λ _ w'. w'.db ≡ (with_peripherals (our_relay ∷ [])).db)
      (delete "d1" "u1" "r1" (with_peripherals (our_relay ∷ [])))
unfolding find_first any
delete_frees_example =
    delete_frees "d1" "u1" "r1" our_relay again (with_peripherals (our_relay ∷ [])) (tt, tt) refl
      (refl, refl, refl, refl)

abbrev nightly : Schedule
nightly = record {
  type = "cron";
  windows = [];
  entries = record { id = ""; cron = "0 22 * * *"; value = "1" } ∷ [];
}

abbrev entries_text : Schedule → String
entries_text s = "[]"

get_peripheral-set_schedule_example :
    Post
      (λ p w'.
        (entries : List CronEntry) × Named nightly.entries entries
        × (p.schedule ≡ some (record nightly { entries = entries }))
        × (q : Peripheral) × ((get_peripheral "d1" "u1" "r1" (record w' { faults = [] })).0 ≡ ok q)
        × (q.schedule ≡ p.schedule))
      (λ _ _. Unit {0})
      (set_schedule entries_text "d1" "u1" "r1" nightly (with_peripherals (our_relay ∷ [])))
get_peripheral-set_schedule_example =
    get_peripheral-set_schedule entries_text "d1" "u1" "r1" nightly
      (with_peripherals (our_relay ∷ [])) refl
