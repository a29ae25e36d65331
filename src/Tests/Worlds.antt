-- ===== src/Tests/Worlds.antt =====
-- The state that the tests start from: one user with an account, a device and the code of a second
-- one.
use fishhub_server.Prelude.{none, some, List, [], ◌∷◌}
use fishhub_server.Schema.{
  Db, Device, Account, ProvisioningCode, RefreshToken, UpdateRecord, OutboxRow, PeripheralRow,
  DeviceModelRow, PortRow, empty_db,
}
use fishhub_server.World.{World}

abbrev pub pump : Device
pump = record {
  id = "d1";
  user_id = "u1";
  name = "pump";
  firmware_version = none;
  mqtt_username = some "d1";
  mqtt_password = some "secret";
  model_id = "m1";
  deleted_at = none;
}

abbrev pub owner : Account
owner = record {
  id = "a1";
  user_id = "u1";
  email = "u@example.org";
  name = "u";
  timezone = "Europe/Rome";
  created_at = 0;
  updated_at = 0;
}

abbrev pub free_code : ProvisioningCode
free_code = record { code = "ABC123"; user_id = "u1"; device_id = none; used_at = none }

abbrev pub token : RefreshToken
token = record {
  id = "t1";
  user_id = "u1";
  token_hash = "raw";
  expires_at = 9000;
  revoked_at = none;
  created_at = 0;
}

abbrev pub start_db : Db
start_db = record empty_db {
  devices = pump ∷ [];
  accounts = owner ∷ [];
  provisioning_codes = free_code ∷ [];
  refresh_tokens = token ∷ [];
}

abbrev pub start : World
start = record {
  db = start_db;
  faults = [];
  supply = "s1" ∷ "s2" ∷ "s3" ∷ "s4" ∷ "s5" ∷ [];
  now = 1000;
  published = [];
  jobs = [];
}

abbrev pub with_updates : List UpdateRecord → World
with_updates rows = record start { db = record start_db { firmware_updates = rows } }

abbrev pub with_outbox : List OutboxRow → World
with_outbox rows = record start { db = record start_db { outbox = rows } }

abbrev pub relay_port : PortRow
relay_port = record { id = "p1"; model_id = "m1"; kind = "relay"; label = "Relay 1"; pin = 4 }

-- A relay of a device of another user, on the same port of the model.
abbrev pub their_relay : PeripheralRow
their_relay = record {
  id = "r9";
  device_id = "d9";
  name = "light";
  kind = "relay";
  pin = 4;
  port_id = some "p1";
  category = "actuator";
  control_mode = some "automatic";
  purpose = none;
  schedule = none;
  deleted_at = none;
  created_at = 10;
  updated_at = 10;
}

abbrev pub our_relay : PeripheralRow
our_relay = record their_relay { id = "r1"; device_id = "d1" }

abbrev pub basic_model : DeviceModelRow
basic_model = record { id = "m1"; slug = "fishhub-v1"; name = "v1" }

abbrev pub with_peripherals : List PeripheralRow → World
with_peripherals rows = record start {
  db = record start_db {
    device_models = basic_model ∷ [];
    ports = relay_port ∷ [];
    peripherals = rows;
  };
}
