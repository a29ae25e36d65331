-- ===== src/Measurements/Model.antt =====
-- Readings and points: internal/measurement/model.go, and what internal/senml/senml.go reads of a
-- payload. The text of a number is that of its JSON.
use fishhub_server.Prelude.{ℕ, String, Bool, Option, List}
use fishhub_server.Schema.{Seconds}

-- A value of a measurement: float64, bool or string.
pub data Field : Type 0 where
  number_field : String → Field
  bool_field : Bool → Field
  text_field : String → Field

-- measurement.Reading
pub record SensorReading : Type 0 where
  pub device_id : String
  pub user_id : String
  pub timestamp : Seconds
  pub measurements : List (String × Field)

-- measurement.Query
pub record Query : Type 0 where
  pub device_id : String
  pub from : ℕ
  pub to : ℕ
  pub window : String
  pub measurements : List String

-- A value that a point shows, where a bool is the number 1 or 0.
pub data Value : Type 0 where
  number_value : String → Value
  text_value : String → Value

-- measurement.Point. The zero time is none.
pub record Point : Type 0 where
  pub timestamp : Option Seconds
  pub values : List (String × Value)
