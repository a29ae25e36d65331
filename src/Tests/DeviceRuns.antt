-- ===== src/Tests/DeviceRuns.antt =====
-- A device that its user deletes.
use fishhub_server.Prelude.{String, ◌≡◌, refl, none, some, [], any}
use fishhub_server.World.{World, Action, ok, err, respond, device_not_found}
use fishhub_server.Text.{device_id_from_topic}
use fishhub_server.Device.{
  find_by_id_and_user_id, patch_device, activation_status_handler, delete_device, delete,
}
use fishhub_server.Device.Gone.{delete-Gone}
use fishhub_server.Measurements.{handle}
use fishhub_server.Tests.Worlds.{start}

abbrev client : String → Action (Unit {0})
client username w = (ok tt, w)

abbrev after : World
after = (delete client "d1" "u1" start).1

deletes : delete client "d1" "u1" start ≡ (ok tt, after)
unfolding delete delete_device
deletes = refl

abbrev topic : String
topic = "fishhub/d1/readings"

reads_topic : device_id_from_topic "readings" topic ≡ some "d1"
unfolding device_id_from_topic
reads_topic = refl

delete-Gone_example :
    (find_by_id_and_user_id "d1" "u1" (record after { faults = [] })
      ≡ (err device_not_found, record after { faults = [] }))
    × (patch_device "d1" "u1" "pump 2" (record after { faults = [] })
        ≡ (err device_not_found, record after { faults = [] }))
    × (activation_status_handler (some "d1") "d1" (record after { faults = [] })
        ≡ respond 404 "device_not_found")
    × (handle none (λ _. none) topic "[]" (record after { faults = [] })
        ≡ record after { faults = [] })
unfolding any
delete-Gone_example =
    delete-Gone client "d1" "u1" start after (λ username v. refl) deletes "pump 2" topic "[]" none
      (λ _. none) refl reads_topic
