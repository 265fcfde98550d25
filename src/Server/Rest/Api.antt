-- ===== src/Server/Rest/Api.antt =====
-- The routes inside the layers of `app` in src/server/mod.rs, from a parsed request to the handler's
-- reply. The health check and the metrics lie outside (Server/Arrivals, Server/Lifecycle).
use fluss_gateway.Base.{ℕ, Text, Option, List}
use fluss_gateway.Config.{AuthType}
use fluss_gateway.Types.Json.{Json}
use fluss_gateway.Types.Requests.{
  Dict, ScanParams, WriteResult, ProduceRequest, CreateDatabaseRequest, DropDatabaseRequest,
  CreateTableRequest, DropTableRequest, ListOffsetsResponse, ListPartitionsResponse,
}
use fluss_gateway.Fluss.{Externals}
use fluss_gateway.Gateway.{Run, pure, ◌>>=◌}
use fluss_gateway.Server.Auth.{BasicAuthCredentials}
use fluss_gateway.Server.Rest
use fluss_gateway.Server.Rest.{TableInfoResponse, BatchLookupRequest, ListOffsetsRequest}
use fluss_gateway.Server.Rest.Health.{HealthBody}
use fluss_gateway.Server.Rest.Schemas
use fluss_gateway.Server.Rest.Produce

-- A constructor for each route inside the layers, with what the handler extracts.
pub data Api : Type 0 where
  list_databases : Api
  create_database : CreateDatabaseRequest → Api
  drop_database : Text → DropDatabaseRequest → Api
  list_tables : Text → Api
  create_table : Text → CreateTableRequest → Api
  table_info_put : Text → Text → Api
  drop_table : Text → Text → DropTableRequest → Api
  table_info_get : Text → Text → Api
  lookup : Text → Text → Dict → Api
  prefix_scan : Text → Text → Dict → Api
  batch_lookup : Text → Text → BatchLookupRequest → Api
  scan : Text → Text → ScanParams → Api
  produce : Text → Text → ProduceRequest → Api
  list_offsets : Text → Text → ListOffsetsRequest → Api
  list_partitions : Text → Text → Api

pub data Reply : Type 0 where
  names : List Text → Reply
  created no_content : Reply
  table_info : TableInfoResponse → Reply
  rows : List Json → Reply
  written : WriteResult → Reply
  offsets : ListOffsetsResponse → Reply
  partitions : ListPartitionsResponse → Reply
  -- The status and the body of the health check.
  checked : ℕ → HealthBody → Reply

abbrev pub reply {ℓ} : {A : Type ℓ} → (A → Reply) → Run A → Run Reply
reply f m = m >>= λ a. pure (f a)

module _ (x : Externals) (auth_type : AuthType) (ext : Option BasicAuthCredentials) where
  unfoldable pub handle : Api → Run Reply
  handle list_databases = reply names (Rest.list_databases x auth_type ext)
  handle (create_database req) = reply (λ u. created) (Rest.create_database x auth_type ext req)
  handle (drop_database db req) =
      reply (λ u. no_content) (Rest.drop_database x auth_type ext db req)
  handle (list_tables db) = reply names (Rest.list_tables x auth_type ext db)
  handle (create_table db req) = reply (λ u. created) (Schemas.create_table x auth_type ext db req)
  handle (table_info_put db name) = reply table_info (Rest.table_info_put x auth_type ext db name)
  handle (drop_table db name req) =
      reply (λ u. no_content) (Rest.drop_table x auth_type ext db name req)
  handle (table_info_get db name) = reply table_info (Rest.table_info_get x auth_type ext db name)
  handle (lookup db name params) = reply rows (Rest.lookup x auth_type ext db name params)
  handle (prefix_scan db name params) = reply rows Rest.prefix_scan
  handle (batch_lookup db name req) = reply rows (Rest.batch_lookup x auth_type ext db name req)
  handle (scan db name params) = reply rows (Rest.scan x auth_type ext db name params)
  handle (produce db name req) = reply written (Produce.produce x auth_type ext db name req)
  handle (list_offsets db name req) = reply offsets (Rest.list_offsets x auth_type ext db name req)
  handle (list_partitions db name) = reply partitions (Rest.list_partitions x auth_type ext db name)
