-- ===== src/Tests/BrokerRuns.antt =====
-- A broker that creates a credential, and then refuses to attach the role and to delete it.
use fishhub_server.Prelude.{ℕ, ◌==◌, ◌≡◌, refl, List, [], ◌∷◌, if◌then◌else◌}
use fishhub_server.Schema.{Event, mqtt_provision}
use fishhub_server.World.{World, Message, Result, ok, err, failed}
use fishhub_server.Text.{contains}
use fishhub_server.Provisioning.{provision_device}
use fishhub_server.Brokers.{Send}
use fishhub_server.Brokers.Hivemq.{provision}
use fishhub_server.Brokers.Retry.{not_attached, provision_device_unattached}
use fishhub_server.Tests.Worlds.{start}

abbrev event : Event
event = record {
  id = "e1";
  event_type = "mqtt.provision_device";
  payload = mqtt_provision "d1" "d1" "pw";
  attempts = 0;
}

-- The broker keeps its credentials where the tests keep the messages that were published.
abbrev with_credential : World → World
with_credential w = record w { published = record { topic = "credential"; body = [] } ∷ [] }

abbrev answer : List Message → World → Result ℕ × World
answer [] w = (ok 201, with_credential w)
answer (m ∷ ms) w = (ok 409, w)

abbrev broker : Send
broker method path body w = if method == "POST" then answer w.published w else (ok 500, w)

provision_device_unattached_example :
    (provision_device (provision broker "r") event start
      ≡ (err (failed (not_attached 500)), with_credential start))
    × (provision_device (provision broker "r") event (with_credential start)
        ≡ (ok tt, with_credential start))
unfolding contains
provision_device_unattached_example =
    provision_device_unattached broker "r" "d1" "pw" event 500 201 start (with_credential start)
      (with_credential start) (with_credential start) (with_credential start) (ok 500) refl refl
      refl refl refl refl refl refl
