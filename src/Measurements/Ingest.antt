-- ===== src/Measurements/Ingest.antt =====
-- A payload that a device publishes, and the last readings that are then shown of the device
-- (internal/measurement/mqtt_handler.go, service.go and store_influx.go).
use fishhub_server.Prelude.{
  ◌-◌, String, ◌==◌, ◌≡◌, refl, sym, ap, ◌∙◌, Bool, Bool-cases, inl, inr, true, false, Option, none,
  some, List, [], ◌∷◌, map, if◌then◌else◌, find_first, arith, eq_iff,
}
use fishhub_server.Schema.{Device}
use fishhub_server.World.{ok, World, call}
use fishhub_server.Text.{device_id_from_topic}
use fishhub_server.Senml.{SenmlRecord, Measurement, Pack, parse}
use fishhub_server.Device.{is_live, find_by_id}
use fishhub_server.Measurements.{set_measurement, fields_of, reading_of, write, write_found, handle}
use fishhub_server.Measurements.Model.{
  Field, number_field, bool_field, text_field, SensorReading, Value, number_value, text_value,
  Point,
}
use fishhub_server.Measurements.Influx.{
  InfluxClient, Column, field_column, time_column, Row, is_reserved, shown, write_reading,
  reduce_latest, last_statement, query_last_within, query_tiers, query_last_readings,
}
use fishhub_server.Measurements.Latest.{
  value_at, or_value, column_value, last_value, values_of, reduce_latest-last_value,
}

abbrev or_field : Option Field → Option Field → Option Field
or_field none f = f
or_field (some e) f = some e

-- The value of the last measurement with a name.
unfoldable pub last_named : String → List Measurement → Option Field
last_named k [] = none
last_named k (m ∷ ms) = or_field (last_named k ms) (if m.name == k then some m.value else none)

unfoldable field_at : String → List (String × Field) → Option Field
field_at k [] = none
field_at k ((j, f) ∷ fields) = let rest = field_at k fields in if j == k then some f else rest

or_field_assoc : (a b c : Option Field) → or_field (or_field a b) c ≡ or_field a (or_field b c)
or_field_assoc none b c = refl
or_field_assoc (some u) b c = refl

-- The row of a point that was written: its time, its tags and its fields.
abbrev field_entry : String × Field → String × Column
field_entry (k, f) = (k, field_column f)

abbrev pub row_of : SensorReading → Row
row_of r =
    ("time", time_column r.timestamp)
    ∷ ("device_id", field_column (text_field r.device_id))
    ∷ ("user_id", field_column (text_field r.user_id))
    ∷ map field_entry r.measurements

abbrev pub shown_field : Option Field → Option Value
shown_field none = none
shown_field (some f) = shown (field_column f)

field_at-set_measurement :
    (k name : String) (f : Field) (fields : List (String × Field))
    → field_at k (set_measurement name f fields)
      ≡ or_field (if name == k then some f else none) (field_at k fields)
unfolding field_at set_measurement
field_at-set_measurement k name f [] = only (name == k)
  where
    only : (b : Bool) → (if b then some f else none) ≡ or_field (if b then some f else none) none
    only true = refl
    only false = refl
field_at-set_measurement k name f ((j, v) ∷ fields) = elim (Bool-cases (j == name)) [
  | inl here ↦ rw here (replaced (name == k) (j == k) (ground (arith, eq_iff j name)))
  | inr other ↦ elim (Bool-cases (j == k)) [
    | inl found ↦ elim (Bool-cases (name == k)) [
      | inl same ↦ ground (arith, eq_iff j name, eq_iff j k, eq_iff name k)
      | inr differs ↦ rw (other, found, differs) refl
    ]
    | inr missed ↦ rw (other, missed) (field_at-set_measurement k name f fields)
  ]
]
  where
    replaced :
        (b c : Bool)
        → b ≡ c
        → (if b then some f else field_at k fields)
          ≡ or_field (if b then some f else none) (if c then some v else field_at k fields)
    replaced true c e = refl
    replaced false true e = ground arith
    replaced false false e = refl

field_at-fields_of :
    (k : String) (fields : List (String × Field)) (ms : List Measurement)
    → field_at k (fields_of fields ms) ≡ or_field (last_named k ms) (field_at k fields)
unfolding last_named fields_of
field_at-fields_of k fields [] = refl
field_at-fields_of k fields (m ∷ ms) =
    field_at-fields_of k (set_measurement m.name m.value fields) ms
    ∙ ap (or_field (last_named k ms)) (field_at-set_measurement k m.name m.value fields)
    ∙ sym (
        or_field_assoc (last_named k ms) (if m.name == k then some m.value else none)
          (field_at k fields))

shown-some : (f : Field) → (v : Value) × (shown (field_column f) ≡ some v)
shown-some (number_field n) = (number_value n, refl)
shown-some (bool_field true) = (number_value "1", refl)
shown-some (bool_field false) = (number_value "0", refl)
shown-some (text_field t) = (text_value t, refl)

column_value-fields :
    (k : String) (fields : List (String × Field))
    → column_value k (map field_entry fields) ≡ shown_field (field_at k fields)
unfolding column_value field_at
column_value-fields k [] = refl
column_value-fields k ((j, f) ∷ fields) = elim (Bool-cases (j == k)) [
  | inl here ↦ rw here (first (shown (field_column f)) (shown-some f).0 (shown-some f).1)
  | inr other ↦ rw other (column_value-fields k fields)
]
  where
    first :
        (o : Option Value) (v : Value)
        → o ≡ some v
        → or_value o (column_value k (map field_entry fields)) ≡ o
    first none v e = ground arith
    first (some u) v e = refl

-- The column of a row that was written, where the payload has a measurement with the name.
column_value-row_of :
    (k device_id user_id : String) (pack : Pack) (f : Field)
    → is_reserved k ≡ false
    → last_named k pack.measurements ≡ some f
    → column_value k (row_of (reading_of device_id user_id pack)) ≡ shown (field_column f)
unfolding column_value field_at
column_value-row_of k device_id user_id pack f free named =
    rw
      (
        eq_false "time" k (ground (arith, free)),
        eq_false "device_id" k (ground (arith, free)),
        eq_false "user_id" k (ground (arith, free)),
      )
      (column_value-fields k (fields_of [] pack.measurements)
        ∙ ap shown_field
            (field_at-fields_of k [] pack.measurements ∙ ap (λ o. or_field o none) named))
  where
    eq_false : (j k : String) → (k == j) ≡ false → (j == k) ≡ false
    eq_false j k h = ground (arith, eq_iff j k, eq_iff k j)

module _ (influx : InfluxClient) (unmarshal : String → Option (List SenmlRecord))
    (topic payload : String) (device_id : String) (records : List SenmlRecord) (pack : Pack)
    (d : Device) (w w' : World)
    (from_device : device_id_from_topic "readings" topic ≡ some device_id)
    (found : find_first (is_live device_id) w.db.devices ≡ some d)
    (reads : unmarshal payload ≡ some records) (parsed : parse (some records) ≡ ok pack)
    (writes : influx.write_points (reading_of d.id d.user_id pack) (record w { faults = [] })
      ≡ (ok tt, w')) where
  write-ok :
      write (some influx) d.id d.user_id (some records) (record w { faults = [] }) ≡ (ok tt, w')
  unfolding write write_reading
  write-ok = rw (parsed, writes) refl

  found-ok : find_by_id device_id (record w { faults = [] }) ≡ (ok d, record w { faults = [] })
  unfolding find_by_id call
  found-ok = rw found refl

  handle-writes : handle (some influx) unmarshal topic payload (record w { faults = [] }) ≡ w'
  unfolding handle
  handle-writes =
      rw (reads, from_device)
        (ap (write_found (some influx) (some records)) found-ok ∙ ap (λ o. o.1) write-ok)

  query_last_readings-newest :
      (older : List Row) (w2 : World) (v : Value)
      → influx.query (last_statement d.id (influx.rfc3339 (w'.now - 1_800))) w'
        ≡ (ok (row_of (reading_of d.id d.user_id pack) ∷ older), w2)
      → (k : String) → is_reserved k ≡ false
      → column_value k (row_of (reading_of d.id d.user_id pack)) ≡ some v
      → (p : Point) × (query_last_readings influx d.id w' ≡ (ok (some p), w2))
        × (value_at k p.values ≡ some v)
  unfolding query_last_readings query_tiers query_last_within last_value value_at
  query_last_readings-newest older w2 v queried k free column =
      go (reduce_latest rows) refl (
        (reduce_latest-last_value rows k free).0 ∙ ap (λ o. or_value o (last_value k older)) column)
    where
      rows : List Row
      rows = row_of (reading_of d.id d.user_id pack) ∷ older

      go :
          (o : Option Point)
          → reduce_latest rows ≡ o
          → value_at k (values_of o) ≡ some v
          → (p : Point) × (query_last_readings influx d.id w' ≡ (ok (some p), w2))
            × (value_at k p.values ≡ some v)
      go none e shows = ground arith
      go (some p) e shows = (p, rw (queried, e) refl, shows)

  -- If no call fails and the client of InfluxDB answers the query for the last half hour with the
  -- row of the point that was just written, before older rows, then a payload that a device publishes,
  -- which parses, is shown by the query for the last readings of the device: at every name that is
  -- not a reserved column and that the payload has a measurement for, the value of the last such
  -- measurement.
  pub handle-query_last_readings :
      (older : List Row) (w2 : World) (k : String) (f : Field)
      → influx.query (last_statement d.id (influx.rfc3339 (w'.now - 1_800))) w'
        ≡ (ok (row_of (reading_of d.id d.user_id pack) ∷ older), w2)
      → is_reserved k ≡ false
      → last_named k pack.measurements ≡ some f
      → (p : Point) × (query_last_readings influx d.id
            (handle (some influx) unmarshal topic payload (record w { faults = [] }))
          ≡ (ok (some p), w2))
        × (value_at k p.values ≡ shown (field_column f))
  handle-query_last_readings older w2 k f queried free named =
      let (v, is) = shown-some f in
      let (p, asked, shows) =
        query_last_readings-newest older w2 v queried k free
          (column_value-row_of k d.id d.user_id pack f free named ∙ is) in
      (p, ap (query_last_readings influx d.id) handle-writes ∙ asked, shows ∙ sym is)
