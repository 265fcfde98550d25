-- ===== src/Examples.antt =====
-- A concrete cluster, and runs of the theorems on concrete inputs.
mod Pools
pub mod Requests
mod Conversions
mod Protection
pub mod Settings
mod Effects
mod Interleaving
mod Description
mod Lifecycle
use fluss_gateway.Base.{
  ℕ, ℤ, pos, Bool, true, false, Text, text, Option, none, some, List, [], ◌∷◌, length, Result, ok,
  err,
}
use fluss_gateway.Config.{AuthType, AuthConfig, PoolConfig, default_auth, default_pool}
use fluss_gateway.Types.Json.{Json, Number}
use fluss_gateway.Types.Datum.{DataType, Formats, int, string}
use fluss_gateway.Types.Requests.{ProduceRow, ProduceRequest}
use fluss_gateway.Fluss.{
  Call, Client, Externals, Column, Schema, TableInfo, RecordBatch, Array, Values, int32s, CacheSpec,
  CredentialKey,
}
use fluss_gateway.Gateway.{World}
use fluss_gateway.Pool
use fluss_gateway.Server.Auth.{BasicAuthCredentials}

abbrev pub formats : Formats
formats = record {
  f64_to_f32 = λ w. w;
  parse_f32 = λ s. err (text "invalid float literal");
  parse_f64 = λ s. err (text "invalid float literal");
  debug_value = λ v. text "value";
  debug_type = λ t. text "type";
}

abbrev pub seven : Number
seven = record { as_i64 = some (pos 7); as_f64 = none; display = text "7" }

-- Every table has the columns `id` and `name` and the key `id`.
abbrev pub columns : List Column
columns =
    record { name = text "id"; data_type = int }
    ∷ record { name = text "name"; data_type = DataType.string }
    ∷ []

abbrev pub users : TableInfo
users = record {
  table_id = pos 1;
  schema = record { columns = columns; primary_key = some (text "id" ∷ []) };
  num_buckets = pos 1;
}

abbrev pub two_rows : RecordBatch
two_rows = record {
  columns =
      (text "id", record { is_null = λ i. false; values = int32s (λ i. pos i); debug = text "ids" })
      ∷ [];
  num_rows = 2;
}

-- A client to which every call succeeds; a handle is the number of calls before it.
abbrev pub client : Client
client = record {
  opens = λ trace c. ok (length trace);
  runs = λ trace c. ok tt;
  names = λ trace c. ok (text "shop" ∷ []);
  offsets = λ trace c. ok [];
  partitions = λ trace c. ok [];
  batch = λ trace c. ok two_rows;
  batches = λ trace c. ok (two_rows ∷ []);
  table_info = λ t. users;
  has_primary_key = λ t. true;
  new_scan = λ t. t;
  build_schema = λ d. ok users.schema;
  build_table = λ d. ok tt;
}

-- The hash keeps its input, and the cache keeps its entries.
abbrev pub cluster : Externals
cluster = record {
  client = client;
  formats = formats;
  sha256 = λ s. s;
  holds = λ spec entries trace key. true;
  to_lowercase = λ s. s;
  number_of_i64 = λ z. record { as_i64 = some z; as_f64 = none; display = text "n" };
  number_of_f64 = λ w. none;
  f32_to_f64 = λ w. w;
}

abbrev pub start : World
start = record {
  backend = record {
    pool = Pool.new (text "localhost:9123") default_auth default_pool;
    auth = default_auth;
  };
  trace = [];
}

abbrev pub ann : BasicAuthCredentials
ann = record { username = text "ann"; password = text "pw" }

abbrev pub row_of : List Json → ProduceRow
row_of values = record { values = values; change_type = none }

abbrev pub two_produced : List ProduceRow
two_produced =
    row_of (Json.number seven ∷ Json.string (text "a") ∷ []) ∷ row_of (Json.number seven ∷ []) ∷ []

abbrev pub produced : ProduceRequest
produced = record { format = none; rows = two_produced }
