-- ===== src/Tests/ReadingRuns.antt =====
-- A device that publishes its readings.
use fishhub_server.Prelude.{String, ◌≡◌, refl, true, none, some, List, [], ◌∷◌, find_first}
use fishhub_server.Schema.{seconds}
use fishhub_server.World.{ok}
use fishhub_server.Text.{device_id_from_topic}
use fishhub_server.Senml.{SenmlRecord, Pack, measurements_of, parse}
use fishhub_server.Measurements.{reading_of, handle}
use fishhub_server.Measurements.Model.{number_field, number_value, Point}
use fishhub_server.Measurements.Influx.{
  InfluxClient, Row, field_column, null_column, time_column, reduce_latest, query_last_readings,
}
use fishhub_server.Measurements.Latest.{
  value_at, column_value, last_value, newest_time, values_of, At, reduce_latest-last_value,
}
use fishhub_server.Measurements.Ingest.{row_of, last_named, handle-query_last_readings}
use fishhub_server.Tests.Worlds.{start, pump}

abbrev no_record : SenmlRecord
no_record = record {
  base_name = "";
  base_time = seconds 0;
  name = "";
  unit = "";
  value = none;
  bool_value = none;
  string_value = none;
}

abbrev payload : List SenmlRecord
payload =
    record no_record { base_time = seconds 900 }
    ∷ record no_record { name = "temperature"; value = some "21" }
    ∷ record no_record { name = "relay/state"; bool_value = some true }
    ∷ record no_record { name = "temperature"; value = some "22" }
    ∷ []

abbrev pack : Pack
pack = record { base_time = seconds 900; measurements = measurements_of payload }

-- A client whose newest row is the point that is written.
abbrev client : InfluxClient
client = record {
  write_points = λ r w. (ok tt, w);
  query = λ statement w. (ok (row_of (reading_of "d1" "u1" pack) ∷ []), w);
  rfc3339 = λ t. "";
}

abbrev topic : String
topic = "fishhub/d1/readings"

reads_topic : device_id_from_topic "readings" topic ≡ some "d1"
unfolding device_id_from_topic
reads_topic = refl

handle-query_last_readings_example :
    (p : Point) × (query_last_readings client "d1"
        (handle (some client) (λ _. some payload) topic "" (record start { faults = [] }))
      ≡ (ok (some p), record start { faults = [] }))
    × (value_at "temperature" p.values ≡ some (number_value "22"))
unfolding find_first parse last_named measurements_of
handle-query_last_readings_example =
    handle-query_last_readings client (λ _. some payload) topic "" "d1" payload pack pump start
      (record start { faults = [] }) reads_topic refl refl refl refl []
      (record start { faults = [] }) "temperature" (number_field "22") refl refl refl

abbrev rows : List Row
rows =
    (("time", time_column (seconds 9)) ∷ ("ph", null_column) ∷ [])
    ∷ (("time", time_column (seconds 5)) ∷ ("ph", field_column (number_field "7")) ∷ [])
    ∷ []

reduce_latest-last_value_example :
    (value_at "ph" (values_of (reduce_latest rows)) ≡ last_value "ph" rows)
    × At (reduce_latest rows) (newest_time rows)
reduce_latest-last_value_example = reduce_latest-last_value rows "ph" refl

shows_ph : last_value "ph" rows ≡ some (number_value "7")
unfolding last_value column_value
shows_ph = refl
