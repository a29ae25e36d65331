-- ===== src/Peripherals/Pushes.antt =====
-- The address of a peripheral on its device, and the events that tell the device of it:
-- internal/peripheral/outbox_processor.go, and the payload of internal/peripheral/service.go.
use Prim.Native.String
use fishhub_server.Prelude.{
  ℕ, zero, suc, String, ◌==◌, Option, none, some, List, [], ◌∷◌, ◌++◌, ltb, if◌then◌else◌,
}
use fishhub_server.Schema.{
  Payload, mqtt_provision, device_config_push, peripheral_push, trigger_push,
}
use fishhub_server.World.{publish}
use fishhub_server.Outbox.{Processor}

-- The decimal digits of a number, the last one first.
abbrev pub next_digits : List ℕ → List ℕ
next_digits [] = 1 ∷ []
next_digits (d ∷ ds) = let rest = next_digits ds in if ltb d 9 then suc d ∷ ds else 0 ∷ rest

abbrev pub digits : ℕ → List ℕ
digits zero = 0 ∷ []
digits (suc n) = next_digits (digits n)

abbrev pub nth_text : List String → ℕ → String
nth_text [] d = ""
nth_text (t ∷ ts) zero = t
nth_text (t ∷ ts) (suc d) = nth_text ts d

abbrev pub digit_text : ℕ → String
digit_text = nth_text ("0" ∷ "1" ∷ "2" ∷ "3" ∷ "4" ∷ "5" ∷ "6" ∷ "7" ∷ "8" ∷ "9" ∷ [])

abbrev pub digits_text : List ℕ → String
digits_text [] = ""
digits_text (d ∷ ds) = String.◌++◌ (digits_text ds) (digit_text d)

-- fmt's %d
abbrev pub decimal : ℕ → String
decimal n = digits_text (digits n)

-- fmt.Sprintf("%s-%d", kind, pin): the address of a peripheral on its device.
abbrev pub address : String → ℕ → String
address kind pin = String.◌++◌ kind (String.◌++◌ "-" (decimal pin))

abbrev pub push_type : String
push_type = "peripheral.push"

abbrev pub push_timeout : ℕ
push_timeout = 30

-- omitempty
abbrev pub unless_empty : String → String → List (String × String)
unless_empty key value = if value == "" then [] else (key, value) ∷ []

abbrev pub unless_nil : String → Option String → List (String × String)
unless_nil key none = []
unless_nil key (some value) = (key, value) ∷ []

abbrev pub pin_field : ℕ → List (String × String)
pin_field zero = []
pin_field (suc n) = ("pin", decimal (suc n)) ∷ []

-- The device, the name and the message that the processor makes of a payload.
abbrev pub push_fields : Payload → String × String × List (String × String)
push_fields (peripheral_push device_id name op kind pin purpose) = (
  device_id,
  name,
  ("device_id", device_id)
      ∷ ("name", name)
      ∷ ("op", op)
      ∷ (unless_empty "kind" kind ++ pin_field pin ++ unless_nil "purpose" purpose),
)
push_fields (mqtt_provision device_id username password) =
    (device_id, "", ("device_id", device_id) ∷ ("name", "") ∷ ("op", "") ∷ [])
push_fields (device_config_push device_id timezone) =
    (device_id, "", ("device_id", device_id) ∷ ("name", "") ∷ ("op", "") ∷ [])
push_fields (trigger_push op id device_id enabled condition actions cooldown) =
    (device_id, "", ("device_id", device_id) ∷ ("name", "") ∷ ("op", op) ∷ [])

abbrev pub push_topic : String → String → String
push_topic device_id name =
    String.◌++◌ "fishhub/" (String.◌++◌ device_id (String.◌++◌ "/peripherals/" name))

-- PeripheralPushProcessor.Process
unfoldable pub push_peripheral : Processor
push_peripheral event =
    let (device_id, name, body) = push_fields event.payload in
    publish "mqtt publish" (push_topic device_id name) body
