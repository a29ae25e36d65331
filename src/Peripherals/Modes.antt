-- ===== src/Peripherals/Modes.antt =====
-- What a change of the control mode does, and what it leaves behind where the commit fails
-- (SetControlMode of internal/peripheral/service.go and store.go).
use fishhub_server.Prelude.{String, ◌==◌, ◌≡◌, refl, true, false, none, some, List, [], ◌∷◌, ◌++◌}
use fishhub_server.Schema.{PeripheralRow}
use fishhub_server.World.{World, failed, err, transaction, call, publish, draw, draw_from}
use fishhub_server.Peripherals.Model.{peripheral_of, read_schedule}
use fishhub_server.Peripherals.Store.{
  find_reachable, update_reachable, updating, updating_actuator, set_control_mode,
}
use fishhub_server.Peripherals.{change_mode, control_mode, command_topic, mode_body}

-- For every device, user, peripheral and mode: where the user's device has an active actuator with
-- that id and without a schedule, a uuid is drawn, and of the calls begin, update and publish none
-- fails but the commit does, the service returns an error and the database is as it was, but the
-- device was sent the command to change its mode.
pub control_mode_uncommitted :
    (device_id user_id id mode uuid : String) (supply : List String) (w : World) (r : PeripheralRow)
    → find_reachable device_id user_id id w ≡ some r
    → (r.category == "actuator") ≡ true
    → r.schedule ≡ none
    → let (result, w') =
        control_mode device_id user_id id mode
          (record w { faults = false ∷ false ∷ false ∷ true ∷ []; supply = uuid ∷ supply }) in
      (result ≡ err (failed "set control mode: commit"))
      × (w'.db ≡ w.db)
      × (w'.published
          ≡ w.published
            ++ record {
              topic = command_topic device_id (peripheral_of none none r);
              body = mode_body mode uuid;
            }
              ∷ [])
unfolding control_mode change_mode set_control_mode updating_actuator updating transaction call
    publish draw draw_from read_schedule find_reachable update_reachable
control_mode_uncommitted device_id user_id id mode uuid supply w r found actuator unscheduled =
    rw (found, actuator, unscheduled) (refl, refl, refl)
