-- ===== src/Server/Rest.antt =====
-- The handlers of src/server/rest/mod.rs. The bodies and parameters of a request are parsed by axum
-- and serde before a handler runs; `ext` are the credentials that the middleware found.
pub mod Schemas
pub mod Produce
pub mod Health
pub mod Api
pub mod Access
pub mod Isolation
pub mod Asked
pub mod Confined
pub mod Effects
use fluss_gateway.Base.{
  ℕ, ℤ, pos, Bool, true, false, Text, text, text_eq, is_empty, Option, none, some, List, [], ◌∷◌,
  ◌++◌, map, Result, ok, err, ok_or, if◌then◌else◌,
}
use fluss_gateway.Config.{AuthType, passthrough}
use fluss_gateway.Types.Errors.{GatewayError, bad_request, unauthorized, internal}
use fluss_gateway.Types.Json.{Json}
use fluss_gateway.Types.Requests.{
  Dict, LookupParams, ScanParams, CreateDatabaseRequest, DropDatabaseRequest, DropTableRequest,
  BucketOffset, ListOffsetsResponse, PartitionInfo, ListPartitionsResponse,
}
use fluss_gateway.Fluss.{Externals, Column, Partition, OffsetSpec, earliest, latest, timestamp}
use fluss_gateway.Gateway.{World, Run, pure, fail, lift, ◌>>=◌, ◌>>◌}
use fluss_gateway.Backend.Admin
use fluss_gateway.Backend.Read
use fluss_gateway.Server.Auth.{BasicAuthCredentials}

-- `extract_creds`.
unfoldable pub extract_creds :
    AuthType → Option BasicAuthCredentials → Result (Option BasicAuthCredentials) GatewayError
extract_creds AuthType.none ext = ok none
extract_creds passthrough none = err (unauthorized (text "authentication required"))
extract_creds passthrough (some ext) = ok (some ext)

pub record ColumnInfo : Type 0 where
  pub name : Text
  pub data_type : Text

pub record TableInfoResponse : Type 0 where
  pub table_id : ℤ
  pub database : Text
  pub table : Text
  pub columns : List ColumnInfo
  pub has_primary_key : Bool
  pub num_buckets : ℤ

abbrev pub is_some {ℓ} : {A : Type ℓ} → Option A → Bool
is_some none = false
is_some (some a) = true

abbrev pub or_default {ℓ} : {A : Type ℓ} → A → Option A → A
or_default d none = d
or_default d (some a) = a

pub record BatchLookupRequest : Type 0 where
  pub keys : List Dict

pub record ListOffsetsRequest : Type 0 where
  pub buckets : Option (List ℤ)
  pub spec : Option Text
  pub timestamp : Option ℤ

-- The match on the name of the specification.
unfoldable pub offset_spec : ListOffsetsRequest → Result OffsetSpec GatewayError
unfolding text_eq
offset_spec req =
    let name = or_default (text "earliest") req.spec in
    if text_eq name (text "earliest")
    then ok earliest
    else if text_eq name (text "latest")
    then ok latest
    else if text_eq name (text "timestamp")
    then elim (req.timestamp) [
      | none ↦ err (bad_request (text "timestamp is required when spec=timestamp"))
      | some ts ↦ ok (OffsetSpec.timestamp ts)
    ]
    else err (bad_request (text "invalid offset spec: " ++ name))

abbrev table_path : Text → Text → Text
table_path db name = db ++ (text "/" ++ name)

abbrev bucket_offset : ℤ × ℤ → BucketOffset
bucket_offset (bucket_id, offset) = record { bucket_id = bucket_id; offset = offset }

abbrev partition_info : Partition → PartitionInfo
partition_info p = record { partition_id = p.id; partition_name = p.name; partition_spec = p.spec }

module _ (x : Externals) where
  -- The loop over the keys, with the rows that were found so far.
  unfoldable pub lookup_keys :
      Option BasicAuthCredentials → Text → Text → List Dict → List Json → Run (List Json)
  lookup_keys creds db name [] results = pure results
  lookup_keys creds db name (key ∷ keys) results = do
    rows ← Read.lookup x creds db name (record { params = key })
    lookup_keys creds db name keys (results ++ rows)

module _ (x : Externals) (auth_type : AuthType) (ext : Option BasicAuthCredentials) where
  unfoldable pub list_databases : Run (List Text)
  unfolding extract_creds
  list_databases = do creds ← lift (extract_creds auth_type ext); Admin.list_databases x creds

  unfoldable pub create_database : CreateDatabaseRequest → Run (Unit {0})
  unfolding extract_creds is_empty
  create_database req = do
    creds ← lift (extract_creds auth_type ext)
    if is_empty req.database_name
        then fail (bad_request (text "database_name is required in request body"))
        else Admin.create_database x creds req.database_name req.comment req.custom_properties
            req.ignore_if_exists

  unfoldable pub drop_database : Text → DropDatabaseRequest → Run (Unit {0})
  unfolding extract_creds
  drop_database db req = do
    creds ← lift (extract_creds auth_type ext)
    Admin.drop_database x creds db req.ignore_if_not_exists req.cascade

  unfoldable pub list_tables : Text → Run (List Text)
  unfolding extract_creds
  list_tables db = do creds ← lift (extract_creds auth_type ext); Admin.list_tables x creds db

  unfoldable pub drop_table : Text → Text → DropTableRequest → Run (Unit {0})
  unfolding extract_creds
  drop_table db name req = do
    creds ← lift (extract_creds auth_type ext)
    Admin.drop_table x creds db name req.ignore_if_not_exists

  abbrev column_info : Column → ColumnInfo
  column_info c = record { name = c.name; data_type = x.formats.debug_type c.data_type }

  unfoldable pub table_info_inner : Text → Text → Run TableInfoResponse
  unfolding extract_creds
  table_info_inner db name = do
    creds ← lift (extract_creds auth_type ext)
    info ← Admin.get_table_info x creds db name
    pure (record {
      table_id = info.table_id;
      database = db;
      table = name;
      columns = map column_info info.schema.columns;
      has_primary_key = is_some info.schema.primary_key;
      num_buckets = info.num_buckets;
    })

  unfoldable pub table_info_put : Text → Text → Run TableInfoResponse
  table_info_put db name = table_info_inner db name

  unfoldable pub table_info_get : Text → Text → Run TableInfoResponse
  table_info_get db name = table_info_inner db name

  unfoldable pub lookup : Text → Text → Dict → Run (List Json)
  unfolding extract_creds
  lookup db name params = do
    creds ← lift (extract_creds auth_type ext)
    Read.lookup x creds db name (record { params = params })

  unfoldable pub batch_lookup : Text → Text → BatchLookupRequest → Run (List Json)
  unfolding extract_creds
  batch_lookup db name req = do
    creds ← lift (extract_creds auth_type ext)
    lookup_keys x creds db name req.keys []

  unfoldable pub scan : Text → Text → ScanParams → Run (List Json)
  unfolding extract_creds
  scan db name params = do
    creds ← lift (extract_creds auth_type ext)
    Read.scan x creds db name params

  unfoldable pub list_offsets : Text → Text → ListOffsetsRequest → Run ListOffsetsResponse
  unfolding extract_creds offset_spec
  list_offsets db name req = do
    creds ← lift (extract_creds auth_type ext)
    spec ← lift (offset_spec req)
    offsets ← Admin.list_offsets x creds db name (or_default (pos 0 ∷ []) req.buckets) spec
    pure (record {
      table_path = table_path db name;
      spec = or_default (text "earliest") req.spec;
      offsets = map bucket_offset offsets;
    })

  unfoldable pub list_partitions : Text → Text → Run ListPartitionsResponse
  unfolding extract_creds
  list_partitions db name = do
    creds ← lift (extract_creds auth_type ext)
    partitions ← Admin.list_partitions x creds db name
    pure (record { table_path = table_path db name; partitions = map partition_info partitions })

-- Not implemented, and without a check of credentials.
unfoldable pub prefix_scan : Run (List Json)
prefix_scan = fail (internal (text "prefix scan not yet implemented"))
