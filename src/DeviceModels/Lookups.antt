-- ===== src/DeviceModels/Lookups.antt =====
-- What the look-ups of a device's model and of a port find (internal/devicemodel/store.go).
use fishhub_server.Prelude.{
  String, ◌==◌, ◌≡◌, refl, Bool, Option, none, some, List, find_first, select,
}
use fishhub_server.Schema.{Device, DeviceModelRow, PortRow}
use fishhub_server.World.{model_not_found, port_not_found, World, pure, gets, ◌>>=◌}
use fishhub_server.World.Post.{Post, returns, errs, Post-bind, Post-call, Same}
use fishhub_server.Device.{is_owned, or_error}
use fishhub_server.DeviceModels.{
  DeviceModel, model_of, is_port_of, find_model, find_ports, get_by_device_id, get_port,
}

-- What the look-up of a device's model finds.
abbrev pub FoundRow : String → String → World → DeviceModelRow → World → Type 0
FoundRow device_id user_id before m after =
    (d : Device) × (find_first (is_owned device_id user_id) before.db.devices ≡ some d)
    × (find_first (λ (x : DeviceModelRow). x.id == d.model_id) before.db.device_models ≡ some m)
    × Same before after

-- What GetByDeviceID finds.
abbrev pub FoundModel : String → String → World → DeviceModel → World → Type 0
FoundModel device_id user_id before model after =
    (d : Device) × (m : DeviceModelRow) × (find_first (is_owned device_id user_id) before.db.devices
      ≡ some d)
    × (find_first (λ (x : DeviceModelRow). x.id == d.model_id) before.db.device_models ≡ some m)
    × (model.id ≡ m.id)
    × Same before after

find_model-Post :
    (device_id user_id : String) (w : World)
    → Post (FoundRow device_id user_id w) (λ _ w'. w'.db ≡ w.db) (find_model device_id user_id w)
unfolding find_model
find_model-Post device_id user_id w =
    Post-call "get device model"
      (λ x. (
        or_error model_not_found
            (model_of x.db.device_models (find_first (is_owned device_id user_id) x.db.devices)),
        x,
      ))
      w (λ later. go later (find_first (is_owned device_id user_id) w.db.devices) refl) (λ _. refl)
  where
    joined :
        (later : List Bool) (d : Device) (found : Option DeviceModelRow)
        → find_first (is_owned device_id user_id) w.db.devices ≡ some d
        → find_first (λ (x : DeviceModelRow). x.id == d.model_id) w.db.device_models ≡ found
        → Post
            (FoundRow device_id user_id w)
            (λ _ w'. w'.db ≡ w.db)
            (or_error model_not_found found, record w { faults = later })
    joined later d none of_user e = errs _ _ refl refl
    joined later d (some m) of_user e = returns _ _ refl (d, of_user, e, (refl, refl))

    go :
        (later : List Bool) (found : Option Device)
        → find_first (is_owned device_id user_id) w.db.devices ≡ found
        → Post
            (FoundRow device_id user_id w)
            (λ _ w'. w'.db ≡ w.db)
            (
              or_error model_not_found (model_of w.db.device_models found),
              record w { faults = later },
            )
    go later none e = errs _ _ refl refl
    go later (some d) e =
        joined later d (find_first (λ (x : DeviceModelRow). x.id == d.model_id) w.db.device_models)
          e refl

pub get_by_device_id-Post :
    (device_id user_id : String) (w : World)
    → Post
        (FoundModel device_id user_id w)
        (λ _ w'. w'.db ≡ w.db)
        (get_by_device_id device_id user_id w)
unfolding get_by_device_id find_ports
get_by_device_id-Post device_id user_id w =
    Post-bind (find_model device_id user_id w)
      (λ m. do
        ports ← find_ports m.id
        pure (record { id = m.id; slug = m.slug; name = m.name; ports = ports }))
      (find_model-Post device_id user_id w)
      (λ m w1 (d, of_user, of_model, (same, time)).
        Post-bind {Q = λ _ w2. Same w w2} (find_ports m.id w1)
          (λ ports. pure (record { id = m.id; slug = m.slug; name = m.name; ports = ports }))
          (Post-call "get device model ports"
            (gets (λ x. select (λ (p : PortRow). p.model_id == m.id) x.db.ports)) w1
            (λ later. returns _ _ refl (same, time)) (λ _. same))
          (λ ports w2 kept. returns _ _ refl (d, m, of_user, of_model, refl, kept)))

-- What GetPort finds.
pub get_port-Post :
    (port_id model_id : String) (w : World)
    → Post
        (λ port w'. (find_first (is_port_of port_id model_id) w.db.ports ≡ some port) × Same w w')
        (λ _ w'. w'.db ≡ w.db)
        (get_port port_id model_id w)
unfolding get_port
get_port-Post port_id model_id w =
    Post-call "get port"
      (λ x. (or_error port_not_found (find_first (is_port_of port_id model_id) x.db.ports), x)) w
      (λ later. go later (find_first (is_port_of port_id model_id) w.db.ports) refl) (λ _. refl)
  where
    go :
        (later : List Bool) (found : Option PortRow)
        → find_first (is_port_of port_id model_id) w.db.ports ≡ found
        → Post
            (λ port w'.
              (find_first (is_port_of port_id model_id) w.db.ports ≡ some port) × Same w w')
            (λ _ w'. w'.db ≡ w.db)
            (or_error port_not_found found, record w { faults = later })
    go later none e = errs _ _ refl refl
    go later (some port) e = returns _ _ refl (e, (refl, refl))
