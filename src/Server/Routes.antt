-- ===== src/Server/Routes.antt =====
-- The table of routes that `app` of src/server/mod.rs builds, and the statuses of its answers.
use fluss_gateway.Base.{ℕ, Text, text, Option, none, some, List, [], ◌∷◌, Result, ok, err}
use fluss_gateway.Types.Errors.{status_code}
use fluss_gateway.Gateway.{Fault, fails, panics}
use fluss_gateway.Server.Rest.Api.{Api, Reply, created, no_content, checked}

pub data Method : Type 0 where
  get post put delete : Method

-- The functions that answer.
pub data Handler : Type 0 where
  health metrics_handler : Handler
  list_databases create_database drop_database : Handler
  list_tables create_table table_info_put drop_table table_info_get : Handler
  lookup prefix_scan batch_lookup scan produce list_offsets list_partitions : Handler

pub record Route : Type 0 where
  pub method : Method
  pub path : Text
  pub handler : Handler

abbrev route : Text → Method → Handler → Route
route path method handler = record { method = method; path = path; handler = handler }

-- The routes inside the layers.
abbrev pub api : List Route
api =
    route (text "/v1/_databases") get Handler.list_databases
    ∷ route (text "/v1/_databases") post Handler.create_database
    ∷ route (text "/v1/_databases/{db}") delete Handler.drop_database
    ∷ route (text "/v1/{db}/_tables") get Handler.list_tables
    ∷ route (text "/v1/{db}/_tables") post Handler.create_table
    ∷ route (text "/v1/{db}/_tables/{table}") put Handler.table_info_put
    ∷ route (text "/v1/{db}/_tables/{table}") delete Handler.drop_table
    ∷ route (text "/v1/{db}/{table}/_info") get Handler.table_info_get
    ∷ route (text "/v1/{db}/{table}") get Handler.lookup
    ∷ route (text "/v1/{db}/{table}/prefix") get Handler.prefix_scan
    ∷ route (text "/v1/{db}/{table}/batch") post Handler.batch_lookup
    ∷ route (text "/v1/{db}/{table}/scan") post Handler.scan
    ∷ route (text "/v1/{db}/{table}/rows") post Handler.produce
    ∷ route (text "/v1/{db}/{table}/offsets") post Handler.list_offsets
    ∷ route (text "/v1/{db}/{table}/partitions") get Handler.list_partitions
    ∷ []

-- All routes, without the files of the Swagger UI.
abbrev pub app : List Route
app = route (text "/health") get health ∷ route (text "/metrics") get metrics_handler ∷ api

-- The function that a request is routed to.
abbrev pub handler_of : Api → Handler
handler_of Api.list_databases = Handler.list_databases
handler_of (Api.create_database req) = Handler.create_database
handler_of (Api.drop_database db req) = Handler.drop_database
handler_of (Api.list_tables db) = Handler.list_tables
handler_of (Api.create_table db req) = Handler.create_table
handler_of (Api.table_info_put db name) = Handler.table_info_put
handler_of (Api.drop_table db name req) = Handler.drop_table
handler_of (Api.table_info_get db name) = Handler.table_info_get
handler_of (Api.lookup db name params) = Handler.lookup
handler_of (Api.prefix_scan db name params) = Handler.prefix_scan
handler_of (Api.batch_lookup db name req) = Handler.batch_lookup
handler_of (Api.scan db name params) = Handler.scan
handler_of (Api.produce db name req) = Handler.produce
handler_of (Api.list_offsets db name req) = Handler.list_offsets
handler_of (Api.list_partitions db name) = Handler.list_partitions

-- The status of a reply.
abbrev pub reply_status : Reply → ℕ
reply_status created = 201
reply_status no_content = 204
reply_status (checked n body) = n
reply_status _ = 200

-- The status of an answer; a panic has none.
unfoldable pub answer_status : Result Reply Fault → Option ℕ
unfolding status_code
answer_status (ok reply) = some (reply_status reply)
answer_status (err (fails e)) = some (status_code e)
answer_status (err (panics m)) = none
