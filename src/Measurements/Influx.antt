-- ===== src/Measurements/Influx.antt =====
-- The client of InfluxDB: internal/measurement/store_influx.go. The library behind it is a parameter:
-- what it writes, what it answers to a query, and how time.Format prints a time.
use Prim.Native.String
use fishhub_server.Prelude.{
  ℕ, ◌-◌, String, ◌==◌, ◌||◌, Bool, true, false, Option, none, some, List, [], ◌∷◌, ◌++◌,
  if◌then◌else◌, any, not,
}
use fishhub_server.Schema.{Seconds}
use fishhub_server.World.{ok, Action, pure, ◌>>=◌}
use fishhub_server.Measurements.Model.{
  Field, number_field, bool_field, text_field, SensorReading, Query, Value, number_value,
  text_value, Point,
}

-- A column of a row that the client reads.
pub data Column : Type 0 where
  field_column : Field → Column
  time_column : Seconds → Column
  null_column : Column

-- A row: a map from the names of its columns.
abbrev pub Row : Type 0
Row = List (String × Column)

pub record InfluxClient : Type 0 where
  -- WritePoints, of a point of the table sensors
  pub write_points : SensorReading → Action (Unit {0})
  pub query : String → Action (List Row)
  pub rfc3339 : ℕ → String

-- influxDBClient.WriteReading
unfoldable pub write_reading : InfluxClient → SensorReading → Action (Unit {0})
write_reading influx r = influx.write_points r

-- reservedColumns
abbrev pub is_reserved : String → Bool
is_reserved k = k == "time" || k == "device_id" || k == "user_id"

-- The switch on the type of a column.
abbrev pub shown : Column → Option Value
shown (field_column (number_field v)) = some (number_value v)
shown (field_column (bool_field true)) = some (number_value "1")
shown (field_column (bool_field false)) = some (number_value "0")
shown (field_column (text_field v)) = some (text_value v)
shown (time_column t) = none
shown null_column = none

abbrev pub has_key : String → List (String × Value) → Bool
has_key k values = any (λ (v : String × Value). v.0 == k) values

abbrev pub add_value : String → Option Value → List (String × Value) → List (String × Value)
add_value k none values = values
add_value k (some v) values = values ++ (k, v) ∷ []

-- The body of the inner loop of reduceLatest, for one column.
unfoldable pub capture : List (String × Value) → String × Column → List (String × Value)
unfolding any
capture values (k, c) =
    if is_reserved k || has_key k values then values else add_value k (shown c) values

unfoldable pub capture_row : List (String × Value) → Row → List (String × Value)
unfolding capture
capture_row values [] = values
capture_row values (c ∷ cs) = capture_row (capture values c) cs

-- row["time"].(time.Time)
unfoldable pub time_of : Row → Option Seconds
time_of [] = none
time_of ((k, time_column t) ∷ cs) = let rest = time_of cs in if k == "time" then some t else rest
time_of ((k, field_column f) ∷ cs) = let rest = time_of cs in if k == "time" then none else rest
time_of ((k, null_column) ∷ cs) = let rest = time_of cs in if k == "time" then none else rest

abbrev pub or_first : Option Seconds → Option Seconds → Option Seconds
or_first none t = t
or_first (some t) later = some t

-- The body of the outer loop of reduceLatest, for one row.
abbrev pub add_row : Point → Row → Point
add_row p row = record {
  timestamp = or_first p.timestamp (time_of row);
  values = capture_row p.values row;
}

unfoldable pub reduce_rows : Point → List Row → Point
unfolding capture_row time_of
reduce_rows p [] = p
reduce_rows p (row ∷ rows) = reduce_rows (add_row p row) rows

abbrev pub zero_point : Point
zero_point = record { timestamp = none; values = [] }

abbrev pub unless_no_values : Option Seconds → List (String × Value) → Option Point
unless_no_values t [] = none
unless_no_values t (v ∷ vs) = some (record { timestamp = t; values = v ∷ vs })

-- reduceLatest
unfoldable pub reduce_latest : List Row → Option Point
unfolding reduce_rows
reduce_latest rows = let p = reduce_rows zero_point rows in unless_no_values p.timestamp p.values

abbrev pub quoted : String → String
quoted s = String.◌++◌ "'" (String.◌++◌ s "'")

-- The statement of queryLastWithin
abbrev pub last_statement : String → String → String
last_statement device_id since = String.◌++◌ "SELECT * FROM sensors WHERE device_id = " (
    String.◌++◌ (quoted device_id)
      (String.◌++◌ " AND time >= " (String.◌++◌ (quoted since) " ORDER BY time DESC LIMIT 200")))

-- influxDBClient.queryLastWithin, within a number of seconds
unfoldable pub query_last_within : InfluxClient → String → ℕ → Action (Option Point)
query_last_within influx device_id lookback w =
    (do
      rows ← influx.query (last_statement device_id (influx.rfc3339 (w.now - lookback)))
      pure (reduce_latest rows))
      w

abbrev pub or_later : Option Point → Action (Option Point) → Action (Option Point)
or_later none later w = later w
or_later (some p) later w = (ok (some p), w)

unfoldable pub query_tiers : InfluxClient → String → List ℕ → Action (Option Point)
unfolding query_last_within
query_tiers influx device_id [] = pure none
query_tiers influx device_id (lookback ∷ wider) = do
  p ← query_last_within influx device_id lookback
  or_later p (query_tiers influx device_id wider)

-- influxDBClient.QueryLastReadings: within 30 minutes, and then within 7 days
unfoldable pub query_last_readings : InfluxClient → String → Action (Option Point)
query_last_readings influx device_id = query_tiers influx device_id (1_800 ∷ 604_800 ∷ [])

-- The statement of QueryReadings
abbrev pub readings_statement : String → String → String → String
readings_statement device_id from to = String.◌++◌ "SELECT * FROM sensors WHERE device_id = " (
    String.◌++◌ (quoted device_id) (
      String.◌++◌ " AND time >= " (
        String.◌++◌ (quoted from)
          (String.◌++◌ " AND time < " (String.◌++◌ (quoted to) " ORDER BY time ASC")))))

abbrev pub is_wanted : List String → String → Bool
is_wanted [] k = true
is_wanted (m ∷ ms) k = any (λ n. n == k) (m ∷ ms)

-- The columns of a row that a point shows.
unfoldable pub wanted_values : List String → Row → List (String × Value)
unfolding any
wanted_values measurements [] = []
wanted_values measurements ((k, c) ∷ cs) =
    let rest = wanted_values measurements cs in
    if is_reserved k || not (is_wanted measurements k)
    then rest
    else add_value k (shown c) [] ++ rest

abbrev pub add_point : Option Point → List Point → List Point
add_point none rest = rest
add_point (some p) rest = p ∷ rest

-- The loop of QueryReadings. A row without values is left out.
unfoldable pub points_of : List String → List Row → List Point
unfolding wanted_values time_of
points_of measurements [] = []
points_of measurements (row ∷ rows) =
    add_point (unless_no_values (time_of row) (wanted_values measurements row))
      (points_of measurements rows)

-- influxDBClient.QueryReadings, whose statement does not use the window
unfoldable pub query_readings : InfluxClient → Query → Action (List Point)
unfolding points_of
query_readings influx q = do
  rows ← influx.query (readings_statement q.device_id (influx.rfc3339 q.from) (influx.rfc3339 q.to))
  pure (points_of q.measurements rows)
