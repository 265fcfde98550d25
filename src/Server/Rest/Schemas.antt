-- ===== src/Server/Rest/Schemas.antt =====
-- `create_table` of src/server/rest/mod.rs: the schema that is built from a request.
use fluss_gateway.Base.{
  Bool, Text, text, text_eq, is_empty, Option, none, some, List, [], ◌∷◌, ◌++◌, Result, ok, err,
  ◌>>=◌ as and_then, if◌then◌else◌, any,
}
use fluss_gateway.Config.{AuthType}
use fluss_gateway.Types.Errors.{GatewayError, bad_request}
use fluss_gateway.Types.Datum.{
  DataType, boolean, tinyint, smallint, int, bigint, float, double, bytes,
}
use fluss_gateway.Types.Requests.{Dict, insert, ColumnSpec, PrimaryKeySpec, CreateTableRequest}
use fluss_gateway.Fluss.{Externals, NewColumn, NewSchema}
use fluss_gateway.Gateway.{Run, fail, lift, fluss_err, ◌>>=◌}
use fluss_gateway.Backend.Admin
use fluss_gateway.Server.Auth.{BasicAuthCredentials}
use fluss_gateway.Server.Rest.{extract_creds, or_default}

-- The alternatives of one arm.
abbrev among : Text → List Text → Bool
among s names = any (text_eq s) names

-- The match, on the name in lower case.
unfoldable pub data_type_of : Text → Result DataType GatewayError
unfolding text_eq
data_type_of s =
    if among s (text "boolean" ∷ text "bool" ∷ [])
    then ok boolean
    else if among s (text "tinyint" ∷ text "i8" ∷ [])
    then ok tinyint
    else if among s (text "smallint" ∷ text "i16" ∷ [])
    then ok smallint
    else if among s (text "int" ∷ text "integer" ∷ text "i32" ∷ [])
    then ok int
    else if among s (text "bigint" ∷ text "long" ∷ text "i64" ∷ [])
    then ok bigint
    else if among s (text "float" ∷ text "f32" ∷ [])
    then ok float
    else if among s (text "double" ∷ text "f64" ∷ [])
    then ok double
    else if among s (text "string" ∷ text "varchar" ∷ [])
    then ok DataType.string
    else if among s (text "bytes" ∷ text "binary" ∷ text "blob" ∷ [])
    then ok bytes
    else err (bad_request (text "unsupported data type: " ++ s))

module _ (x : Externals) where
  unfoldable pub parse_data_type : Text → Result DataType GatewayError
  unfolding data_type_of
  parse_data_type type_str = data_type_of (x.to_lowercase type_str)

  -- The loop over the columns.
  unfoldable pub build_columns : List ColumnSpec → Result (List NewColumn) GatewayError
  unfolding parse_data_type
  build_columns [] = ok []
  build_columns (col ∷ cols) = and_then (parse_data_type col.data_type) λ data_type.
      and_then (build_columns cols) λ rest. ok (
        record { column = record { name = col.name; data_type = data_type }; comment = col.comment }
        ∷ rest)

  abbrev pub key_of : Option PrimaryKeySpec → Option (Option Text × List Text)
  key_of none = none
  key_of (some pk) = some (pk.constraint_name, pk.column_names)

  -- The comment is a property too.
  abbrev pub properties_of : CreateTableRequest → Dict
  properties_of req = elim (req.comment) [
    | none ↦ or_default [] req.properties
    | some c ↦ insert (text "table.comment") c (or_default [] req.properties)
  ]

  unfoldable pub create_table :
      AuthType → Option BasicAuthCredentials → Text → CreateTableRequest → Run (Unit {0})
  unfolding extract_creds is_empty build_columns insert
  create_table auth_type ext db req = do
    creds ← lift (extract_creds auth_type ext)
    if is_empty req.table_name
        then fail (bad_request (text "table_name is required in request body"))
        else do
          columns ← lift (build_columns req.schema)
          let description : NewSchema = record {
            columns = columns;
            primary_key = key_of req.primary_key;
          }
          schema ← lift (fluss_err (x.client.build_schema description))
          Admin.create_table x creds db req.table_name schema (or_default [] req.partition_keys)
              req.bucket_count (or_default [] req.bucket_keys) (properties_of req) req.comment
              req.ignore_if_exists
