-- ===== src/Tests/ProvisioningRuns.antt =====
-- Runs of the activation of a device.
use fishhub_server.Prelude.{
  ◌≡◌, ◌⊎◌, refl, true, false, Option, none, some, List, [], ◌∷◌, update_where, find_first, any,
  select, arith,
}
use fishhub_server.Schema.{ProvisioningCode}
use fishhub_server.World.{World, ok, err, failed, code_already_used, draw, transaction, call}
use fishhub_server.World.Post.{Post}
use fishhub_server.Outbox.{insert}
use fishhub_server.Account.{timezone_or_utc, find_by_user_id, timezone_read}
use fishhub_server.Device.{ActivationStatus, get_activation_status}
use fishhub_server.Provisioning.{
  Config, claim_code, lookup_code, lock_code, mark_code, claim_locked, activate_row, set_up,
  default_model_id, complete_activation, activate, get_or_create_code, code_or_new, generate_code,
  insert_code,
}
use fishhub_server.Provisioning.Codes.{HasFreeCode, get_or_create_code_again}
use fishhub_server.Provisioning.Claim.{Claimed, claim_code-Claimed}
use fishhub_server.Provisioning.Activate.{Activated, activate-Activated, activate_burns}
use fishhub_server.Provisioning.Ready.{activate_not_ready}
use fishhub_server.Tests.Worlds.{start}

abbrev config : Config
config = record { default_model = some "m1"; sign = λ device_id user_id. device_id }

claim_code-Claimed_example :
    Post
      (λ a w'. Claimed config start.now "ABC123" start.db a w'.db)
      (λ _ w'. w'.db ≡ start.db)
      (claim_code config "ABC123" start)
claim_code-Claimed_example = claim_code-Claimed config "ABC123" start

abbrev activated : World
activated = (activate config "ABC123" start).1

activates : activate config "ABC123" start ≡ (ok ("s1", "s1"), activated)
unfolding activate claim_code lookup_code lock_code mark_code claim_locked complete_activation
    timezone_or_utc find_by_user_id timezone_read default_model_id set_up activate_row insert draw
    transaction
activates = refl

activate-Activated_example : Activated config start.now "ABC123" start.db ("s1", "s1") activated.db
activate-Activated_example =
    activate-Activated config "ABC123" start activated ("s1", "s1") activates

-- The call that begins the second transaction fails.
abbrev unlucky : World
unlucky = record start {
  faults = false ∷ false ∷ false ∷ false ∷ false ∷ false ∷ false ∷ false ∷ true ∷ [];
}

abbrev stranded : World
stranded = (activate config "ABC123" unlucky).1

strands : activate config "ABC123" unlucky ≡ (err (failed "begin tx"), stranded)
unfolding activate claim_code lookup_code lock_code mark_code claim_locked complete_activation
    timezone_or_utc find_by_user_id timezone_read default_model_id set_up activate_row insert draw
    transaction
strands = refl

activate_burns_example :
    (stranded.db ≡ unlucky.db)
    ⊎ (activate config "ABC123" (record stranded { faults = [] })
        ≡ (err code_already_used, record stranded { faults = [] }))
activate_burns_example = activate_burns config "ABC123" unlucky stranded (failed "begin tx") strands

abbrev waits : ActivationStatus
waits = record { ready = false; mqtt_username = ""; mqtt_password = "" }

polled : (get_activation_status "s1" activated).0 ≡ ok waits
unfolding update_where get_activation_status activate claim_code lookup_code lock_code mark_code
    claim_locked complete_activation timezone_or_utc find_by_user_id timezone_read default_model_id
    set_up activate_row insert draw transaction
polled = refl

activate_not_ready_example : waits.ready ≡ false
activate_not_ready_example =
    activate_not_ready config "ABC123" start activated ("s1", "s1") waits activates polled

abbrev last_row : List ProvisioningCode → Option ProvisioningCode
last_row [] = none
last_row (r ∷ []) = some r
last_row (r ∷ s ∷ rs) = last_row (s ∷ rs)

abbrev with_code : World
with_code = (get_or_create_code last_row "u2" start).1

makes : (get_or_create_code last_row "u2" start).0 ≡ ok "HN"
unfolding get_or_create_code code_or_new generate_code insert_code transaction call draw find_first
    any select
makes = refl

get_or_create_code_again_example :
    HasFreeCode "u2" "HN" with_code.db
    × (get_or_create_code last_row "u2" (record with_code { faults = [] })
        ≡ (ok "HN", record with_code { faults = [] }))
unfolding select
get_or_create_code_again_example =
    get_or_create_code_again last_row refl (λ _. refl) "u2" "HN" start with_code (omega arith) makes
      refl
