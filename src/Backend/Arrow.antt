-- ===== src/Backend/Arrow.antt =====
-- `record_batch_to_json` of src/backend/mod.rs: Arrow columns to JSON rows.
pub mod Hex
use fluss_gateway.Base.{
  ℕ, zero, suc, ◌+◌, ◌-◌, ◌/◌, ◌%◌, ℤ, pos, Bool, Text, text, text_eq, Option, none, some, List, [],
  ◌∷◌, ltb, if◌then◌else◌,
}
use fluss_gateway.Types.Json.{Number, Json, Fields, end, field, number, string, object}
use fluss_gateway.Fluss.{
  Externals, Array, Values, RecordBatch, booleans, int8s, int16s, int32s, int64s, float32s,
  float64s, utf8s, large_utf8s, binaries, large_binaries, others,
}

abbrev hex_digit : ℕ → ℕ
hex_digit d = if ltb d 10 then b'0' + d else b'a' + (d - 10)

-- `{:02x}` of each byte.
unfoldable pub hex_encode : Text → Text
hex_encode [] = []
hex_encode (b ∷ bytes) = hex_digit (b / 16) ∷ hex_digit (b % 16) ∷ hex_encode bytes

-- `serde_json::Map::insert`: a name that is there keeps its place and gets the new value. The order
-- of the names is not read.
unfoldable pub insert_field : Text → Json → Fields → Fields
unfolding text_eq
insert_field name v end = field name v end
insert_field name v (field j u m) =
    let later = field j u (insert_field name v m) in
    if text_eq j name then field name v m else later

module _ (x : Externals) where
  -- A float that JSON has no number for (NaN, an infinity) becomes 0.
  abbrev float_number : ℕ → Json
  float_number bits = elim (x.number_of_f64 bits) [
    | none ↦ number (x.number_of_i64 (pos 0))
    | some n ↦ number n
  ]

  abbrev value_at : Text → ℕ → Values → Json
  value_at debug idx (booleans v) = Json.bool (v idx)
  value_at debug idx (int8s v) = number (x.number_of_i64 (v idx))
  value_at debug idx (int16s v) = number (x.number_of_i64 (v idx))
  value_at debug idx (int32s v) = number (x.number_of_i64 (v idx))
  value_at debug idx (int64s v) = number (x.number_of_i64 (v idx))
  value_at debug idx (float32s v) = float_number (x.f32_to_f64 (v idx))
  value_at debug idx (float64s v) = float_number (v idx)
  value_at debug idx (utf8s v) = string (v idx)
  value_at debug idx (large_utf8s v) = string (v idx)
  value_at debug idx (binaries v) = string (hex_encode (v idx))
  value_at debug idx (large_binaries v) = string (hex_encode (v idx))
  value_at debug idx others = string debug

  unfoldable pub arrow_value_to_json : Array → ℕ → Json
  unfolding hex_encode
  arrow_value_to_json array idx =
      if array.is_null idx then Json.null else value_at array.debug idx array.values

  -- The columns of one row, in order.
  unfoldable pub row_fields : ℕ → List (Text × Array) → Fields → Fields
  unfolding arrow_value_to_json insert_field
  row_fields idx [] m = m
  row_fields idx ((name, array) ∷ columns) m =
      row_fields idx columns (insert_field name (arrow_value_to_json array idx) m)

  -- The rows from `idx` on, `n` of them.
  unfoldable pub rows_from : List (Text × Array) → ℕ → ℕ → List Json
  unfolding row_fields
  rows_from columns idx zero = []
  rows_from columns idx (suc n) =
      object (row_fields idx columns end) ∷ rows_from columns (idx + 1) n

  unfoldable pub record_batch_to_json : RecordBatch → List Json
  unfolding rows_from
  record_batch_to_json batch = rows_from batch.columns 0 batch.num_rows
