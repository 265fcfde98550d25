-- ===== src/Backend/Read.antt =====
-- `lookup` and `scan` of src/backend/mod.rs.
pub mod Keys
pub mod Filled
pub mod Lookup
pub mod Limits
use fluss_gateway.Base.{
  ℕ, zero, suc, ◌+◌, ℤ, pos, negsuc, Bool, true, false, Text, text, text_eq, Option, none, some,
  List, [], ◌∷◌, ◌++◌, Result, ok, err, ok_or, length, set, replicate, take, if◌then◌else◌,
}
use fluss_gateway.Types.Errors.{GatewayError, bad_request, invalid_operation}
use fluss_gateway.Types.Json.{Json}
use fluss_gateway.Types.Datum.{DataType, Datum, Formats, json_to_datum}
use fluss_gateway.Types.Requests.{LookupParams, ScanParams, get_param}
use fluss_gateway.Fluss.{
  Call, Externals, Column, Row, RecordBatch, new_lookup, create_lookuper, to_record_batch, project,
  create_scanner, subscribe, poll,
}
use fluss_gateway.Gateway.{World, Run, pure, fail, panic, lift, call, ◌>>=◌, ◌>>◌}
use fluss_gateway.Backend.{table}
use fluss_gateway.Backend.Admin.{path_of}
use fluss_gateway.Backend.Arrow.{record_batch_to_json}
use fluss_gateway.Server.Auth.{BasicAuthCredentials}

-- `columns.iter().find(|c| c.name() == name)`, and `position`.
unfoldable pub find_column : Text → List Column → Option Column
unfolding text_eq
find_column name [] = none
find_column name (c ∷ columns) =
    let later = find_column name columns in if text_eq c.name name then some c else later

unfoldable pub column_position : Text → List Column → Option ℕ
unfolding text_eq
column_position name [] = none
column_position name (c ∷ columns) =
    let later = column_position name columns in
    if text_eq c.name name then some 0 else elim later [ none ↦ none | some i ↦ some (suc i) ]

-- `position(…).unwrap()`.
abbrev pub unwrap : Option ℕ → Run ℕ
unwrap (some i) = pure i
unwrap none = panic (text "called `Option::unwrap()` on a `None` value")

abbrev pub bad_datum : Result Datum Text → Result Datum GatewayError
bad_datum (ok d) = ok d
bad_datum (err e) = err (bad_request e)

module _ (f : Formats) (columns : List Column) (params : LookupParams) where
  -- The loop over the columns of the primary key.
  unfoldable pub key_row : List Text → Row → Run Row
  unfolding get_param find_column column_position
  key_row [] row = pure row
  key_row (col_name ∷ names) row = do
    value ←
        lift
          (ok_or (get_param params col_name) (bad_request (text "missing pk column: " ++ col_name)))
    col ←
        lift
          (ok_or (find_column col_name columns) (bad_request (text "unknown column: " ++ col_name)))
    datum ← lift (bad_datum (json_to_datum f (Json.string value) col.data_type))
    field_idx ← unwrap (column_position col_name columns)
    key_row names (set row field_idx datum)

abbrev pub null_row : List Column → Row
null_row columns = replicate (length columns) Datum.null

module _ (x : Externals) (creds : Option BasicAuthCredentials) (db name : Text) where
  unfoldable pub lookup : LookupParams → Run (List Json)
  unfolding record_batch_to_json
  lookup params = do
    t ← table x (path_of db name) creds
    if x.client.has_primary_key t
        then pure tt
        else fail (invalid_operation (text "lookup requires a primary key table"))
    let columns = (x.client.table_info t).schema.columns
    pk ← lift (
        ok_or (x.client.table_info t).schema.primary_key
          (invalid_operation (text "no primary key defined")))
    row ← key_row x.formats columns params pk (null_row columns)
    l ← call x.client.opens (new_lookup t)
    lookuper ← call x.client.opens (create_lookuper l)
    result ← call x.client.opens (Call.lookup lookuper row)
    batch ← call x.client.batch (to_record_batch result)
    pure (record_batch_to_json x batch)

  -- `if let Some(projection)`.
  unfoldable pub projected : Option (List ℕ) → ℕ → Run ℕ
  projected none s = pure s
  projected (some projection) s = call x.client.opens (project s projection)

  -- The buckets from `bucket_id` on, `n` of them.
  unfoldable pub subscribe_all : ℕ → ℕ → ℕ → Run (Unit {0})
  subscribe_all scanner bucket_id zero = pure tt
  subscribe_all scanner bucket_id (suc n) = do
    call x.client.runs (subscribe scanner bucket_id)
    subscribe_all scanner (bucket_id + 1) n

  unfoldable pub all_rows : List RecordBatch → List Json
  unfolding record_batch_to_json
  all_rows [] = []
  all_rows (batch ∷ batches) = record_batch_to_json x batch ++ all_rows batches

  -- `Vec::truncate`.
  unfoldable pub truncated : Option ℕ → List Json → List Json
  truncated none rows = rows
  truncated (some limit) rows = take limit rows

  -- `0..num_buckets` is empty for a negative number.
  abbrev bucket_count : ℤ → ℕ
  bucket_count (pos n) = n
  bucket_count (negsuc n) = 0

  abbrev pub timeout_of : Option ℕ → ℕ
  timeout_of none = 5000
  timeout_of (some ms) = ms

  unfoldable pub scan : ScanParams → Run (List Json)
  unfolding all_rows truncated
  scan params = do
    t ← table x (path_of db name) creds
    s ← projected params.projection (x.client.new_scan t)
    scanner ← call x.client.opens (create_scanner s)
    subscribe_all scanner 0 (bucket_count (x.client.table_info t).num_buckets)
    batches ← call x.client.batches (poll scanner (timeout_of params.timeout_ms))
    pure (truncated params.limit (all_rows batches))
