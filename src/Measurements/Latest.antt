-- ===== src/Measurements/Latest.antt =====
-- What the last readings of a device show (reduceLatest of internal/measurement/store_influx.go).
use fishhub_server.Prelude.{
  String, ◌==◌, ◌≡◌, refl, sym, ap, ◌∙◌, Bool, Bool-cases, inl, inr, true, false, ◌||◌, Option,
  none, some, List, [], ◌∷◌, ◌++◌, if◌then◌else◌, any, arith, eq_iff,
}
use fishhub_server.Schema.{Seconds}
use fishhub_server.Measurements.Model.{Value, Point}
use fishhub_server.Measurements.Influx.{
  Column, Row, is_reserved, shown, has_key, add_value, capture, capture_row, time_of, or_first,
  add_row, reduce_rows, zero_point, unless_no_values, reduce_latest,
}

-- The value of a map at a key.
unfoldable pub value_at : String → List (String × Value) → Option Value
value_at k [] = none
value_at k ((j, v) ∷ values) = let rest = value_at k values in if j == k then some v else rest

abbrev pub or_value : Option Value → Option Value → Option Value
or_value none v = v
or_value (some u) v = some u

-- LAST_VALUE(k IGNORE NULLS): the value of a column in a row, none where it is null, and that of the
-- newest row that has one, for rows the newest first.
unfoldable pub column_value : String → Row → Option Value
column_value k [] = none
column_value k ((j, c) ∷ cs) =
    let rest = column_value k cs in if j == k then or_value (shown c) rest else rest

unfoldable pub last_value : String → List Row → Option Value
unfolding column_value
last_value k [] = none
last_value k (row ∷ rows) = or_value (column_value k row) (last_value k rows)

unfoldable pub newest_time : List Row → Option Seconds
newest_time [] = none
newest_time (row ∷ rows) = or_first (time_of row) (newest_time rows)

or_value_assoc : (a b c : Option Value) → or_value (or_value a b) c ≡ or_value a (or_value b c)
or_value_assoc none b c = refl
or_value_assoc (some u) b c = refl

or_first_assoc : (a b c : Option Seconds) → or_first (or_first a b) c ≡ or_first a (or_first b c)
or_first_assoc none b c = refl
or_first_assoc (some u) b c = refl

value_at-append :
    (k : String) (xs ys : List (String × Value))
    → value_at k (xs ++ ys) ≡ or_value (value_at k xs) (value_at k ys)
unfolding value_at
value_at-append k [] ys = refl
value_at-append k ((j, v) ∷ xs) ys = elim (Bool-cases (j == k)) [
  | inl here ↦ rw here refl
  | inr other ↦ rw other (value_at-append k xs ys)
]

or_value-none : (v : Option Value) → or_value v none ≡ v
or_value-none none = refl
or_value-none (some v) = refl

-- A value behind one that is there does not count.
value_at-has_key :
    (k : String) (xs : List (String × Value)) (later : Option Value)
    → has_key k xs ≡ true
    → or_value (value_at k xs) later ≡ value_at k xs
unfolding value_at any
value_at-has_key k [] later h = ground arith
value_at-has_key k ((j, v) ∷ xs) later h = elim (Bool-cases (j == k)) [
  | inl here ↦ rw here refl
  | inr other ↦ rw other (value_at-has_key k xs later (ground arith))
]

value_at-add_value :
    (k j : String) (o : Option Value) (xs : List (String × Value))
    → value_at k (add_value j o xs) ≡ or_value (value_at k xs) (if j == k then o else none)
unfolding value_at
value_at-add_value k j none xs = elim (Bool-cases (j == k)) [
  | inl here ↦ rw here (sym (or_value-none (value_at k xs)))
  | inr other ↦ rw other (sym (or_value-none (value_at k xs)))
]
value_at-add_value k j (some v) xs = value_at-append k xs ((j, v) ∷ [])

module _ (k : String) (free : is_reserved k ≡ false) where
  capture-value_at :
      (values : List (String × Value)) (j : String) (c : Column)
      → value_at k (capture values (j, c))
        ≡ or_value (value_at k values) (if j == k then shown c else none)
  unfolding capture
  capture-value_at values j c = elim (Bool-cases (is_reserved j || has_key j values)) [
    | inl skip ↦ rw skip (elim (Bool-cases (j == k)) [
      | inl here ↦
          rw here (sym (value_at-has_key k values (shown c) (has j ((eq_iff j k).0 here) skip)))
      | inr other ↦ rw other (sym (or_value-none (value_at k values)))
    ])
    | inr take ↦ rw take (value_at-add_value k j (shown c) values)
  ]
    where
      has :
          (j : String)
          → j ≡ k
          → (is_reserved j || has_key j values) ≡ true
          → has_key k values ≡ true
      has j e h = ground arith

  capture_row-value_at :
      (values : List (String × Value)) (row : Row)
      → value_at k (capture_row values row) ≡ or_value (value_at k values) (column_value k row)
  unfolding capture_row column_value
  capture_row-value_at values [] = sym (or_value-none (value_at k values))
  capture_row-value_at values ((j, c) ∷ cs) =
      capture_row-value_at (capture values (j, c)) cs
      ∙ ap (λ v. or_value v (column_value k cs)) (capture-value_at values j c)
      ∙ or_value_assoc (value_at k values) (if j == k then shown c else none) (column_value k cs)
      ∙ ap (or_value (value_at k values)) (split (j == k))
    where
      split :
          (b : Bool)
          → or_value (if b then shown c else none) (column_value k cs)
            ≡ (if b then or_value (shown c) (column_value k cs) else column_value k cs)
      split true = refl
      split false = refl

  reduce_rows-value_at :
      (p : Point) (rows : List Row)
      → value_at k (reduce_rows p rows).values ≡ or_value (value_at k p.values) (last_value k rows)
  unfolding reduce_rows last_value
  reduce_rows-value_at p [] = sym (or_value-none (value_at k p.values))
  reduce_rows-value_at p (row ∷ rows) =
      reduce_rows-value_at (add_row p row) rows
      ∙ ap (λ v. or_value v (last_value k rows)) (capture_row-value_at p.values row)
      ∙ or_value_assoc (value_at k p.values) (column_value k row) (last_value k rows)

reduce_rows-time :
    (p : Point) (rows : List Row)
    → (reduce_rows p rows).timestamp ≡ or_first p.timestamp (newest_time rows)
unfolding reduce_rows newest_time
reduce_rows-time p [] = none_last p.timestamp
  where
    none_last : (t : Option Seconds) → t ≡ or_first t none
    none_last none = refl
    none_last (some t) = refl
reduce_rows-time p (row ∷ rows) =
    reduce_rows-time (add_row p row) rows
    ∙ or_first_assoc p.timestamp (time_of row) (newest_time rows)

-- The values of a point, where there is one.
abbrev pub values_of : Option Point → List (String × Value)
values_of none = []
values_of (some p) = p.values

abbrev pub At : Option Point → Option Seconds → Type 0
At none t = Unit {0}
At (some p) t = p.timestamp ≡ t

-- For rows that are sorted with the newest first: at every key that is not a reserved column, the
-- point of the last readings shows the last value that is not null, and none where there is none;
-- and its time is that of the newest row that has one.
pub reduce_latest-last_value :
    (rows : List Row) (k : String)
    → is_reserved k ≡ false
    → (value_at k (values_of (reduce_latest rows)) ≡ last_value k rows)
      × At (reduce_latest rows) (newest_time rows)
unfolding reduce_latest value_at
reduce_latest-last_value rows k free =
    go (reduce_rows zero_point rows).values (reduce_rows zero_point rows).timestamp
      (reduce_rows-value_at k free zero_point rows) (reduce_rows-time zero_point rows)
  where
    go :
        (values : List (String × Value)) (time : Option Seconds)
        → value_at k values ≡ last_value k rows
        → time ≡ newest_time rows
        → (value_at k (values_of (unless_no_values time values)) ≡ last_value k rows)
          × At (unless_no_values time values) (newest_time rows)
    go [] time v t = (v, tt)
    go (u ∷ us) time v t = (v, t)
