-- ===== src/DeviceModels.antt =====
-- The models of devices and their ports: internal/devicemodel/store.go (but for DefaultModelID,
-- which is in Provisioning), and DeviceModelHandler of internal/api/handler.go.
pub mod Lookups
use fishhub_server.Prelude.{
  ℕ, String, ◌==◌, ◌&&◌, Bool, Option, none, some, List, [], map, select, find_first,
}
use fishhub_server.Schema.{Device, DeviceModelRow, PortRow}
use fishhub_server.World.{
  model_not_found, port_not_found, Result, ok, err, World, Action, Response, respond, pure, call,
  gets, ◌>>=◌,
}
use fishhub_server.Device.{is_owned, or_error}

pub record DeviceModel : Type 0 where
  pub id : String
  pub slug : String
  pub name : String
  pub ports : List PortRow

-- The join of device_models with the device that was found.
abbrev pub model_of : List DeviceModelRow → Option Device → Option DeviceModelRow
model_of models none = none
model_of models (some d) = find_first (λ (m : DeviceModelRow). m.id == d.model_id) models

-- The first statement of GetByDeviceID.
unfoldable pub find_model : String → String → Action DeviceModelRow
unfolding call find_first
find_model device_id user_id = call "get device model" (λ w. (
  or_error model_not_found
      (model_of w.db.device_models (find_first (is_owned device_id user_id) w.db.devices)),
  w,
))

-- The second one, where the table of ports is kept in the order of kind and label.
unfoldable pub find_ports : String → Action (List PortRow)
unfolding call select
find_ports model_id =
    call "get device model ports"
      (gets (λ w. select (λ (p : PortRow). p.model_id == model_id) w.db.ports))

-- postgresStore.GetByDeviceID
unfoldable pub get_by_device_id : String → String → Action DeviceModel
unfolding find_model find_ports
get_by_device_id device_id user_id = do
  m ← find_model device_id user_id
  ports ← find_ports m.id
  pure (record { id = m.id; slug = m.slug; name = m.name; ports = ports })

abbrev pub is_port_of : String → String → PortRow → Bool
is_port_of port_id model_id p = p.id == port_id && p.model_id == model_id

-- postgresStore.GetPort
unfoldable pub get_port : String → String → Action PortRow
unfolding call find_first
get_port port_id model_id =
    call "get port"
      (λ w. (or_error port_not_found (find_first (is_port_of port_id model_id) w.db.ports), w))

-- What the body of an answer holds of a port.
pub record PortView : Type 0 where
  pub id : String
  pub kind : String
  pub label : String
  pub pin : ℕ

abbrev pub port_view : PortRow → PortView
port_view p = record { id = p.id; kind = p.kind; label = p.label; pin = p.pin }

abbrev pub model_response : Result DeviceModel → Response × List PortView
model_response (ok m) = (respond 200 "", map port_view m.ports)
model_response (err model_not_found) = (respond 404 "device_not_found", [])
model_response (err _) = (respond 500 "internal_error", [])

-- DeviceModelHandler.ServeHTTP: the answer, and the ports that its body lists.
unfoldable pub device_model_handler : String → String → World → (Response × List PortView) × World
device_model_handler device_id user_id w =
    let (r, w') = get_by_device_id device_id user_id w in (model_response r, w')
