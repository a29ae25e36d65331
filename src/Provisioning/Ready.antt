-- ===== src/Provisioning/Ready.antt =====
-- An activation and the status that the device then polls (internal/provisioning/activation.go,
-- GetActivationStatus of internal/device/store.go).
use fishhub_server.Prelude.{
  String, ◌≡◌, ap, Bool-cases, false, inl, inr, List, [], ◌∷◌, ◌++◌, All-last, eq_refl, arith,
}
use mathlib.Core.Path.{subst₂}
use fishhub_server.Schema.{Db, OutboxRow, device_config_push}
use fishhub_server.World.{ok, World}
use fishhub_server.Outbox.{new_row}
use fishhub_server.Device.{ActivationStatus, is_open_for, get_activation_status}
use fishhub_server.Device.Activation.{IsSettled, get_activation_status-ready}
use fishhub_server.Provisioning.{Config, config_push_type, claim_timeout, activate}
use fishhub_server.Provisioning.Activate.{Activated, activate-Activated}

-- For every configuration, code and state: after an activation that returns, a read of the device's
-- status that returns says that the device is not ready, since its events wait in the outbox.
pub activate_not_ready :
    (c : Config) (code : String) (w w' : World) (result : String × String) (s : ActivationStatus)
    → activate c code w ≡ (ok result, w')
    → (get_activation_status result.1 w').0 ≡ ok s
    → s.ready ≡ false
activate_not_ready c code w w' result s e h = go (activate-Activated c code w w' result e)
  where
    busy :
        (rows : List OutboxRow) (id device_id timezone : String)
        → ¬ IsSettled device_id (
            rows
            ++ new_row id config_push_type (device_config_push device_id timezone) claim_timeout
              ∷ [])
    busy rows id device_id timezone settled =
        let shut : is_open_for device_id
              (new_row id config_push_type (device_config_push device_id timezone) claim_timeout)
            ≡ false =
          All-last (λ r. is_open_for device_id r ≡ false) rows
            (new_row id config_push_type (device_config_push device_id timezone) claim_timeout)
            settled in
        ground (arith, eq_refl device_id)

    go : Activated c w.now code w.db result w'.db → s.ready ≡ false
    go
          (
            device_id,
            user_id,
            claimed,
            is_claimed,
            (password, model_id, timezone, is_model, zone, (a, b, after), is_result),
          ) =
        elim (Bool-cases s.ready) [
          | inr waiting ↦ waiting
          | inl done ↦
              elim (busy _ b device_id timezone (
                subst₂ IsSettled (ap (λ (r : String × String). r.1) is_result)
                  (ap (λ (d : Db). d.outbox) after)
                  (get_activation_status-ready result.1 w' s h done).1)) [ ]
        ]
