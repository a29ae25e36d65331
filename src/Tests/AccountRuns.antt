-- ===== src/Tests/AccountRuns.antt =====
-- Runs of changes of the time zone, and of the runner that pushes them.
use fishhub_server.Prelude.{
  String, ◌==◌, ◌≡◌, refl, Bool, true, false, Option, some, [], ◌∷◌, ◌++◌, arith,
}
use fishhub_server.World.Post.{Post}
use fishhub_server.Outbox.{Processor, run}
use fishhub_server.Account.{push_config, device_ids, update_timezone}
use fishhub_server.Account.Timezones.{posix_tz, is_rule, posix_tz-is_rule}
use fishhub_server.Account.Update.{Retimed, update_timezone-Post}
use fishhub_server.Account.Order.{push_message, two_waiting, run_reverses}
use fishhub_server.Tests.Worlds.{start}

abbrev known : String → Bool
known name = name == "Asia/Tokyo"

update_timezone-Post_example :
    Post
      (λ a w'.
        (known "Asia/Tokyo" ≡ true)
        × Retimed "u1" "Asia/Tokyo" start.now (device_ids "u1" start.db) start.db a w'.db)
      (λ _ w'. w'.db ≡ start.db)
      (update_timezone known "u1" "Asia/Tokyo" start)
update_timezone-Post_example = update_timezone-Post known "u1" "Asia/Tokyo" start

posix_tz-is_rule_example : is_rule (posix_tz "Asia/Tokyo") ≡ true
posix_tz-is_rule_example = posix_tz-is_rule "Asia/Tokyo"

abbrev pushes : String → Option Processor
pushes type = some push_config

run_reverses_example :
    (run pushes 5
      (λ es. es)
      5
      2
      (two_waiting "e1" "e2" "d1" "Asia/Tokyo" "UTC" (false ∷ false ∷ true ∷ []) start)).published
    ≡ (start.published ++ push_message "d1" "UTC" ∷ []) ++ push_message "d1" "Asia/Tokyo" ∷ []
run_reverses_example =
    run_reverses pushes 5 (omega arith) (λ es. es) (λ es. refl) refl "e1" "e2" "d1" "Asia/Tokyo"
      "UTC" refl refl 5 start
