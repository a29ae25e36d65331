-- ===== src/Peripherals/Ports.antt =====
-- The port of a device model that a peripheral takes (migration 028, with
-- CreatePeripheralHandler of internal/api/handler.go).
use fishhub_server.Prelude.{
  String, ◌==◌, ◌≡◌, refl, true, false, some, [], find_first, find_first-any, any,
}
use fishhub_server.Schema.{Device, DeviceModelRow, PortRow}
use fishhub_server.World.{World, respond, port_in_use, err, transaction, call}
use fishhub_server.Device.{is_owned}
use fishhub_server.DeviceModels.{is_port_of, get_by_device_id, find_model, find_ports, get_port}
use fishhub_server.Peripherals.Violations.{
  port_index, has_name, has_pin, has_port, unique_violation_index, violated_index, violation_error,
}
use fishhub_server.Peripherals.Create.{
  NewPeripheral, is_too_long, is_category, create_peripheral, insert_peripheral, insert_unless,
}
use fishhub_server.Peripherals.{create_and_push, register}
use fishhub_server.Peripherals.Handlers.{
  CreateRequest, category_of, requested, is_incomplete, create_on_port, create_on_model,
  create_peripheral_handler,
}

module _ (text : String → String)
    (names_index : unique_violation_index (text port_index) ≡ port_index) where
  insert_peripheral_blocked :
      (n : NewPeripheral) (w : World)
      → is_too_long n.purpose ≡ false
      → is_category n.category ≡ true
      → any (has_name n.device_id n.name) w.db.peripherals ≡ false
      → any (has_pin n.device_id n.port) w.db.peripherals ≡ false
      → any (has_port n.port) w.db.peripherals ≡ true
      → insert_peripheral text n w ≡ (err port_in_use, w)
  unfolding insert_peripheral insert_unless violated_index violation_error
  insert_peripheral_blocked n w short category name pin port =
      simp (short, category, name, pin, port, names_index)

  register_blocked :
      (user_id : String) (n : NewPeripheral) (w : World)
      → any (is_owned n.device_id user_id) w.db.devices ≡ true
      → is_too_long n.purpose ≡ false
      → is_category n.category ≡ true
      → any (has_name n.device_id n.name) w.db.peripherals ≡ false
      → any (has_pin n.device_id n.port) w.db.peripherals ≡ false
      → any (has_port n.port) w.db.peripherals ≡ true
      → register text user_id n (record w { faults = [] })
        ≡ (err port_in_use, record w { faults = [] })
  unfolding register transaction create_and_push create_peripheral call
  register_blocked user_id n w owned short category name pin port =
      rw
        (owned, insert_peripheral_blocked n (record w { faults = [] }) short category name pin port)
        refl

  -- For every device of a user, with a model, a port of that model and a kind that fits: where the
  -- request is complete, no active peripheral of the device has the name or the pin, but an active
  -- peripheral has the port (which is then one of another device, whoever owns it), and the driver's
  -- error names the violated index, a request that meets no fault is answered with 409
  -- port_conflict, and nothing changes.
  pub create_peripheral_handler_blocked :
      (device_id user_id : String) (q : CreateRequest) (w : World) (d : Device) (m : DeviceModelRow)
      (port : PortRow)
      → find_first (is_owned device_id user_id) w.db.devices ≡ some d
      → find_first (λ (x : DeviceModelRow). x.id == d.model_id) w.db.device_models ≡ some m
      → find_first (is_port_of q.port_id m.id) w.db.ports ≡ some port
      → (port.kind == q.kind) ≡ true
      → is_incomplete q ≡ false
      → is_category (category_of q) ≡ true
      → is_too_long q.purpose ≡ false
      → any (has_name device_id q.name) w.db.peripherals ≡ false
      → any (has_pin device_id port) w.db.peripherals ≡ false
      → any (has_port port) w.db.peripherals ≡ true
      → create_peripheral_handler text device_id user_id (some q) (record w { faults = [] })
        ≡ (respond 409 "port_conflict", record w { faults = [] })
  unfolding create_peripheral_handler create_on_model create_on_port get_by_device_id find_model
      find_ports get_port call
  create_peripheral_handler_blocked device_id user_id q w d m port of_user of_model found kind
        complete category short name pin taken =
      rw
        (
          complete,
          category,
          of_user,
          of_model,
          found,
          kind,
          register_blocked user_id (requested device_id q port) w
              (find_first-any (is_owned device_id user_id) w.db.devices {x = d} of_user) short
              category name pin taken,
        )
        refl
