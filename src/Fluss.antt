-- ===== src/Fluss.antt =====
-- What the gateway takes from other crates, as parameters: the Fluss client, the connection cache,
-- the hash, and the conversions of numbers. Nothing of this is under the repository; the code sees
-- it through the functions of `Externals` alone.
--
-- A handle (a connection, an admin, a table, a writer, …) is a number that the client hands out. What
-- a call answers may depend on every call before it, so the answers are functions of that history:
-- any cluster, with its failures and its timing, is such a function.
use fluss_gateway.Base.{ℕ, ℤ, Bool, Option, Text, List, Result}
use fluss_gateway.Types.Json.{Number}
use fluss_gateway.Types.Datum.{DataType, Datum, Formats}
use fluss_gateway.Types.Requests.{Dict}

-- `fluss::config::Config`, the fields that the pool sets; the others keep their defaults.
pub record ConnConfig : Type 0 where
  pub bootstrap_servers : Text
  pub security_protocol : Text
  pub security_sasl_mechanism : Text
  pub security_sasl_username : Text
  pub security_sasl_password : Text

pub record TablePath : Type 0 where
  pub database : Text
  pub table : Text

pub record Column : Type 0 where
  pub name : Text
  pub data_type : DataType

-- What the getters of a schema return: its columns, and the column names of its primary key.
pub record Schema : Type 0 where
  pub columns : List Column
  pub primary_key : Option (List Text)

pub record TableInfo : Type 0 where
  pub table_id : ℤ
  pub schema : Schema
  pub num_buckets : ℤ

-- What a schema, a table descriptor and a database descriptor are built from.
pub record NewColumn : Type 0 where
  pub column : Column
  pub comment : Option Text

pub record NewSchema : Type 0 where
  pub columns : List NewColumn
  pub primary_key : Option (Option Text × List Text)

pub record NewTable : Type 0 where
  pub schema : Schema
  pub properties : Dict
  pub partitioned_by : Option (List Text)
  pub bucket_count : Option ℤ
  pub bucket_keys : List Text
  pub comment : Option Text

pub record NewDatabase : Type 0 where
  pub comment : Option Text
  pub custom_properties : Option Dict

pub data OffsetSpec : Type 0 where
  earliest latest : OffsetSpec
  timestamp : ℤ → OffsetSpec

pub record Partition : Type 0 where
  pub id : ℤ
  pub name : Text
  pub spec : Dict

-- A `GenericRow` holds a datum for each column.
abbrev pub Row : Type 0
Row = List Datum

-- An Arrow array, through its getters; a float is its bit pattern.
pub data Values : Type 0 where
  booleans : (ℕ → Bool) → Values
  int8s int16s int32s int64s : (ℕ → ℤ) → Values
  float32s float64s : (ℕ → ℕ) → Values
  utf8s large_utf8s : (ℕ → Text) → Values
  binaries large_binaries : (ℕ → Text) → Values
  others : Values

pub record Array : Type 0 where
  pub is_null : ℕ → Bool
  pub values : Values
  -- `format!("{:?}", array)`.
  pub debug : Text

pub record RecordBatch : Type 0 where
  pub columns : List (Text × Array)
  pub num_rows : ℕ

-- The calls of the client.
pub data Call : Type 0 where
  connect : ConnConfig → Call
  get_admin : ℕ → Call
  get_table : ℕ → TablePath → Call
  list_databases : ℕ → Call
  list_tables : ℕ → Text → Call
  create_database : ℕ → Text → NewDatabase → Bool → Call
  drop_database : ℕ → Text → Bool → Bool → Call
  create_table : ℕ → TablePath → NewTable → Bool → Call
  drop_table : ℕ → TablePath → Bool → Call
  list_offsets : ℕ → TablePath → List ℤ → OffsetSpec → Call
  list_partition_infos : ℕ → TablePath → Call
  new_lookup create_lookuper : ℕ → Call
  lookup : ℕ → Row → Call
  to_record_batch : ℕ → Call
  project : ℕ → List ℕ → Call
  create_scanner : ℕ → Call
  subscribe : ℕ → ℕ → Call
  poll : ℕ → ℕ → Call
  new_append create_append_writer : ℕ → Call
  append : ℕ → Row → Call
  flush_append : ℕ → Call
  new_upsert create_upsert_writer : ℕ → Call
  upsert delete : ℕ → Row → Call
  flush_upsert : ℕ → Call

-- The answers to a call after the calls before it, by what they hold; an error is its text.
pub record Client : Type 0 where
  pub opens : List Call → Call → Result ℕ Text
  pub runs : List Call → Call → Result (Unit {0}) Text
  pub names : List Call → Call → Result (List Text) Text
  pub offsets : List Call → Call → Result (List (ℤ × ℤ)) Text
  pub partitions : List Call → Call → Result (List Partition) Text
  pub batch : List Call → Call → Result RecordBatch Text
  pub batches : List Call → Call → Result (List RecordBatch) Text
  pub table_info : ℕ → TableInfo
  pub has_primary_key : ℕ → Bool
  pub new_scan : ℕ → ℕ
  pub build_schema : NewSchema → Result Schema Text
  pub build_table : NewTable → Result (Unit {0}) Text

-- The user and the hash.
abbrev pub CredentialKey : Type 0
CredentialKey = Text × Text

-- What the cache was built with.
pub record CacheSpec : Type 0 where
  pub max_capacity : ℕ
  pub time_to_idle : ℕ

pub record Externals : Type 0 where
  pub client : Client
  pub formats : Formats
  pub sha256 : Text → Text
  -- Whether the cache still holds the entry of a key that was inserted: it may drop any entry at any
  -- time, for its capacity or its idle time.
  pub holds : CacheSpec → List (CredentialKey × ℕ) → List Call → CredentialKey → Bool
  pub to_lowercase : Text → Text
  pub number_of_i64 : ℤ → Number
  pub number_of_f64 : ℕ → Option Number
  pub f32_to_f64 : ℕ → ℕ
