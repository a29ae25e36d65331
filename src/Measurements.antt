-- ===== src/Measurements.antt =====
-- Readings of sensors: internal/measurement/service.go and mqtt_handler.go, with the bridge of main.go
-- in front of the devices, and ReadingsQueryHandler of internal/api/handler.go. What encoding/json
-- reads of a payload and time.Parse are parameters; no client of InfluxDB is none.
pub mod Model
pub mod Influx
pub mod Latest
pub mod Ingest
use fishhub_server.Prelude.{
  ℕ, ◌-◌, String, ◌==◌, Bool, true, false, Option, none, some, List, [], ◌∷◌, if◌then◌else◌,
  find_first,
}
use fishhub_server.Schema.{Device, Seconds}
use fishhub_server.World.{
  Error, device_not_found, influx_write, nil_pointer, Result, ok, err, World, Action, Response,
  respond, pure, raise, lift, ◌>>=◌, ◌>>◌,
}
use fishhub_server.Text.{device_id_from_topic, split_commas}
use fishhub_server.Senml.{SenmlRecord, Measurement, Pack, parse}
use fishhub_server.Device.{find_by_id, find_by_id_and_user_id}
use Model.{Field, SensorReading, Query, Point}
use Influx.{InfluxClient, write_reading, query_readings}

-- deviceFinderBridge.FindByIDAndUserID: every error is that of a device that is not found.
abbrev pub as_not_found : Result Device × World → Result (Unit {0}) × World
as_not_found (ok _, w) = (ok tt, w)
as_not_found (err _, w) = (err device_not_found, w)

abbrev pub query_with : Option InfluxClient → Query → Action (List Point)
query_with none q = raise nil_pointer
query_with (some influx) q = query_readings influx q

-- ReadingsService.Query. A querier that is nil is called.
unfoldable pub query_owned : Option InfluxClient → String → Query → Action (List Point)
query_owned influx user_id q = do
  (λ w. as_not_found (find_by_id_and_user_id q.device_id user_id w))
  query_with influx q

-- fields[m.Name] = m.Value
unfoldable pub set_measurement : String → Field → List (String × Field) → List (String × Field)
set_measurement name value [] = (name, value) ∷ []
set_measurement name value ((k, v) ∷ fields) =
    let later = set_measurement name value fields in
    if k == name then (name, value) ∷ fields else (k, v) ∷ later

-- The loop of Write over the measurements.
unfoldable pub fields_of : List (String × Field) → List Measurement → List (String × Field)
unfolding set_measurement
fields_of fields [] = fields
fields_of fields (m ∷ ms) = fields_of (set_measurement m.name m.value fields) ms

abbrev pub as_influx_write : Result (Unit {0}) × World → Result (Unit {0}) × World
as_influx_write (ok _, w) = (ok tt, w)
as_influx_write (err _, w) = (err influx_write, w)

abbrev pub reading_of : String → String → Pack → SensorReading
reading_of device_id user_id pack = record {
  device_id = device_id;
  user_id = user_id;
  timestamp = pack.base_time;
  measurements = fields_of [] pack.measurements;
}

abbrev pub write_pack : Option InfluxClient → String → String → Pack → Action (Unit {0})
write_pack none device_id user_id pack w = (ok tt, w)
write_pack (some influx) device_id user_id pack w =
    as_influx_write (write_reading influx (reading_of device_id user_id pack) w)

-- ReadingsService.Write
unfoldable pub write :
    Option InfluxClient → String → String → Option (List SenmlRecord) → Action (Unit {0})
write influx device_id user_id records = do
  pack ← lift (parse records)
  write_pack influx device_id user_id pack

abbrev pub write_found :
    Option InfluxClient → Option (List SenmlRecord) → Result Device × World → World
write_found influx records (ok d, w) = (write influx d.id d.user_id records w).1
write_found influx records (err _, w) = w

abbrev pub handle_from :
    Option InfluxClient → Option (List SenmlRecord) → Option String → World → World
handle_from influx records none w = w
handle_from influx records (some device_id) w = write_found influx records (find_by_id device_id w)

-- ReadingsMQTTHandler.Handle, where unmarshal is what json.Unmarshal reads of a payload
unfoldable pub handle :
    Option InfluxClient → (String → Option (List SenmlRecord)) → String → String → World → World
unfolding write
handle influx unmarshal topic payload w =
    handle_from influx (unmarshal payload) (device_id_from_topic "readings" topic) w

-- The query string of a request, with an empty text for a parameter that is missing.
pub record ReadingsRequest : Type 0 where
  pub from : String
  pub to : String
  pub window : String
  pub measurements : String

-- time.Parse of a parameter, which has a default.
abbrev pub parse_or : (String → Option ℕ) → ℕ → String → Option ℕ
parse_or parse_time default text = if text == "" then some default else parse_time text

abbrev pub readings_response : Result (List Point) → Response × List Point
readings_response (ok points) = (respond 200 "", points)
readings_response (err device_not_found) = (respond 404 "device_not_found", [])
-- net/http closes the connection without an answer.
readings_response (err nil_pointer) = (respond 0 "", [])
readings_response (err _) = (respond 500 "internal_error", [])

abbrev pub query_of : String → ReadingsRequest → ℕ → ℕ → Query
query_of device_id q from to = record {
  device_id = device_id;
  from = from;
  to = to;
  window = if q.window == "" then "5m" else q.window;
  measurements = if q.measurements == "" then [] else split_commas q.measurements;
}

abbrev pub readings_between :
    Option InfluxClient
    → String
    → String
    → ReadingsRequest
    → Option ℕ
    → Option ℕ
    → World
    → (Response × List Point) × World
readings_between influx device_id user_id q (some from) (some to) w =
    let (r, w') = query_owned influx user_id (query_of device_id q from to) w in
    (readings_response r, w')
readings_between influx device_id user_id q _ _ w = ((respond 400 "invalid_request", []), w)

-- ReadingsQueryHandler.List: the answer, and the points that its body shows. From is a day before
-- now if it is not given.
unfoldable pub readings_handler :
    Option InfluxClient
    → (String → Option ℕ)
    → String
    → String
    → ReadingsRequest
    → World
    → (Response × List Point) × World
unfolding query_owned
readings_handler influx parse_time device_id user_id q w =
    readings_between influx device_id user_id q (parse_or parse_time (w.now - 86_400) q.from)
      (parse_or parse_time w.now q.to) w
