-- ===== src/Server/ApiDoc.antt =====
-- The description of the gateway's interface: the annotations of the handlers in
-- src/server/rest/mod.rs, and the list of them in src/api_doc.rs. Summaries, descriptions and
-- examples are left out.
pub mod Documented
pub mod Document
pub mod Secured
pub mod Statuses
pub mod Answers
use fluss_gateway.Base.{ℕ, Bool, true, false, Text, text, Option, none, some, List, [], ◌∷◌}
use fluss_gateway.Server.Routes.{Method, get, post, put, delete, Handler}

-- `#[utoipa::path(…)]`.
pub record Annotation : Type 0 where
  pub handler : Handler
  pub method : Method
  pub path : Text
  pub tag : Text
  -- The names of the parameters in the path, and of those in the query.
  pub path_params : List Text
  pub query_params : List Text
  -- The name of the type of the body.
  pub request_body : Option Text
  pub responses : List ℕ
  -- The types of the answers that have a schema of their own.
  pub response_bodies : List Text
  -- `security(("basic_auth" = []))`.
  pub basic_auth : Bool

abbrev pub health : Annotation
health = record {
  handler = Handler.health;
  method = get;
  path = text "/health";
  tag = text "health";
  path_params = [];
  query_params = text "deep" ∷ [];
  request_body = none;
  responses = 200 ∷ [];
  response_bodies = [];
  basic_auth = false;
}

abbrev pub list_databases : Annotation
list_databases = record {
  handler = Handler.list_databases;
  method = get;
  path = text "/v1/_databases";
  tag = text "databases";
  path_params = [];
  query_params = [];
  request_body = none;
  responses = 200 ∷ 401 ∷ 500 ∷ [];
  response_bodies = [];
  basic_auth = true;
}

abbrev pub create_database : Annotation
create_database = record {
  handler = Handler.create_database;
  method = post;
  path = text "/v1/_databases";
  tag = text "databases";
  path_params = [];
  query_params = [];
  request_body = some (text "CreateDatabaseRequest");
  responses = 201 ∷ 400 ∷ 401 ∷ 500 ∷ [];
  response_bodies = [];
  basic_auth = true;
}

abbrev pub drop_database : Annotation
drop_database = record {
  handler = Handler.drop_database;
  method = delete;
  path = text "/v1/_databases/{db}";
  tag = text "databases";
  path_params = text "db" ∷ [];
  query_params = [];
  request_body = some (text "DropDatabaseRequest");
  responses = 204 ∷ 400 ∷ 401 ∷ 500 ∷ [];
  response_bodies = [];
  basic_auth = true;
}

abbrev pub list_tables : Annotation
list_tables = record {
  handler = Handler.list_tables;
  method = get;
  path = text "/v1/{db}/_tables";
  tag = text "tables";
  path_params = text "db" ∷ [];
  query_params = [];
  request_body = none;
  responses = 200 ∷ 401 ∷ 500 ∷ [];
  response_bodies = [];
  basic_auth = true;
}

abbrev pub create_table : Annotation
create_table = record {
  handler = Handler.create_table;
  method = post;
  path = text "/v1/{db}/_tables";
  tag = text "tables";
  path_params = text "db" ∷ [];
  query_params = [];
  request_body = some (text "CreateTableRequest");
  responses = 201 ∷ 400 ∷ 401 ∷ 500 ∷ [];
  response_bodies = [];
  basic_auth = true;
}

abbrev pub table_info_put : Annotation
table_info_put = record {
  handler = Handler.table_info_put;
  method = put;
  path = text "/v1/{db}/_tables/{table}";
  tag = text "tables";
  path_params = text "db" ∷ text "table" ∷ [];
  query_params = [];
  request_body = none;
  responses = 200 ∷ 401 ∷ 500 ∷ [];
  response_bodies = text "TableInfoResponse" ∷ [];
  basic_auth = true;
}

abbrev pub table_info_get : Annotation
table_info_get = record {
  handler = Handler.table_info_get;
  method = get;
  path = text "/v1/{db}/{table}/_info";
  tag = text "tables";
  path_params = text "db" ∷ text "table" ∷ [];
  query_params = [];
  request_body = none;
  responses = 200 ∷ 401 ∷ 500 ∷ [];
  response_bodies = text "TableInfoResponse" ∷ [];
  basic_auth = true;
}

abbrev pub lookup : Annotation
lookup = record {
  handler = Handler.lookup;
  method = get;
  path = text "/v1/{db}/{table}";
  tag = text "lookup";
  path_params = text "db" ∷ text "table" ∷ [];
  query_params = [];
  request_body = none;
  responses = 200 ∷ 400 ∷ 401 ∷ 500 ∷ [];
  response_bodies = [];
  basic_auth = true;
}

abbrev pub prefix_scan : Annotation
prefix_scan = record {
  handler = Handler.prefix_scan;
  method = get;
  path = text "/v1/{db}/{table}/prefix";
  tag = text "scan";
  path_params = text "db" ∷ text "table" ∷ [];
  query_params = [];
  request_body = none;
  responses = 500 ∷ [];
  response_bodies = [];
  basic_auth = false;
}

abbrev pub batch_lookup : Annotation
batch_lookup = record {
  handler = Handler.batch_lookup;
  method = post;
  path = text "/v1/{db}/{table}/batch";
  tag = text "lookup";
  path_params = text "db" ∷ text "table" ∷ [];
  query_params = [];
  request_body = some (text "BatchLookupRequest");
  responses = 200 ∷ 400 ∷ 401 ∷ 500 ∷ [];
  response_bodies = [];
  basic_auth = true;
}

abbrev pub scan : Annotation
scan = record {
  handler = Handler.scan;
  method = post;
  path = text "/v1/{db}/{table}/scan";
  tag = text "scan";
  path_params = text "db" ∷ text "table" ∷ [];
  query_params = [];
  request_body = some (text "ScanParams");
  responses = 200 ∷ 400 ∷ 401 ∷ 500 ∷ [];
  response_bodies = [];
  basic_auth = true;
}

abbrev pub produce : Annotation
produce = record {
  handler = Handler.produce;
  method = post;
  path = text "/v1/{db}/{table}/rows";
  tag = text "produce";
  path_params = text "db" ∷ text "table" ∷ [];
  query_params = [];
  request_body = some (text "ProduceRequest");
  responses = 200 ∷ 400 ∷ 401 ∷ 500 ∷ [];
  response_bodies = text "WriteResult" ∷ [];
  basic_auth = true;
}

abbrev pub list_offsets : Annotation
list_offsets = record {
  handler = Handler.list_offsets;
  method = post;
  path = text "/v1/{db}/{table}/offsets";
  tag = text "metadata";
  path_params = text "db" ∷ text "table" ∷ [];
  query_params = [];
  request_body = some (text "ListOffsetsRequest");
  responses = 200 ∷ 400 ∷ 401 ∷ 500 ∷ [];
  response_bodies = text "ListOffsetsResponse" ∷ [];
  basic_auth = true;
}

abbrev pub list_partitions : Annotation
list_partitions = record {
  handler = Handler.list_partitions;
  method = get;
  path = text "/v1/{db}/{table}/partitions";
  tag = text "metadata";
  path_params = text "db" ∷ text "table" ∷ [];
  query_params = [];
  request_body = none;
  responses = 200 ∷ 401 ∷ 500 ∷ [];
  response_bodies = text "ListPartitionsResponse" ∷ [];
  basic_auth = true;
}

abbrev pub drop_table : Annotation
drop_table = record {
  handler = Handler.drop_table;
  method = delete;
  path = text "/v1/{db}/_tables/{table}";
  tag = text "tables";
  path_params = text "db" ∷ text "table" ∷ [];
  query_params = [];
  request_body = some (text "DropTableRequest");
  responses = 204 ∷ 400 ∷ 401 ∷ 500 ∷ [];
  response_bodies = [];
  basic_auth = true;
}

-- `paths(…)` of `ApiDoc`.
abbrev pub paths : List Annotation
paths =
    health ∷ list_databases ∷ create_database ∷ drop_database ∷ list_tables ∷ create_table
    ∷ table_info_put ∷ table_info_get ∷ lookup ∷ prefix_scan ∷ batch_lookup ∷ scan ∷ produce
    ∷ list_offsets ∷ list_partitions ∷ drop_table ∷ []

-- `tags(…)`.
abbrev pub tags : List Text
tags =
    text "health"
    ∷ text "databases"
    ∷ text "tables"
    ∷ text "lookup"
    ∷ text "scan"
    ∷ text "produce"
    ∷ text "metadata"
    ∷ []
