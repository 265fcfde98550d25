-- ===== src/Server/Rest/Asked.antt =====
-- The changes that a request asks for.
use fluss_gateway.Base.{ℕ, ◌≡◌, Text, List, [], ◌∷◌, ok}
use fluss_gateway.Types.Requests.{CreateTableRequest, ProduceRequest}
use fluss_gateway.Fluss.{
  Call, Externals, Row, NewColumn, Schema, new_append, new_upsert, create_append_writer,
  create_upsert_writer,
}
use fluss_gateway.Backend.Tables.{IsTable}
use fluss_gateway.Backend.Confined.Operations.{Wrote}
use fluss_gateway.Gateway.Writes.{
  Write, appended, upserted, deleted, created_database, dropped_database, created_table,
  dropped_table,
}
use fluss_gateway.Backend.Admin.{path_of, nonempty}
use fluss_gateway.Server.Rest.{or_default}
use fluss_gateway.Server.Rest.Schemas.{build_columns, key_of, properties_of}
use fluss_gateway.Server.Rest.Produce.{Target, appends, upserts, deletes, target, convert_rows}
use fluss_gateway.Server.Rest.Api.{Api}

-- The write that a target makes of a row with a writer, and the calls that lead to the writer.
abbrev pub as_write : Target → ℕ → Row → Write
as_write appends writer row = appended writer row
as_write upserts writer row = upserted writer row
as_write deletes writer row = deleted writer row

abbrev pub begin_of : Target → ℕ → Call
begin_of appends t = new_append t
begin_of upserts t = new_upsert t
begin_of deletes t = new_upsert t

abbrev pub writer_of : Target → ℕ → Call
writer_of appends o = create_append_writer o
writer_of upserts o = create_upsert_writer o
writer_of deletes o = create_upsert_writer o

-- The rows of the request, as the columns of the table of the request convert them, each written
-- with the same writer of this table.
pub record Converted (x : Externals) (db name : Text) (req : ProduceRequest) (ws : List Write)
    : Type 0 where
  pub t : ℕ
  pub on_table : IsTable x db name t
  pub rows : List Row
  pub converted : convert_rows x.formats (x.client.table_info t).schema.columns 0 req.rows ≡ ok rows
  pub wrote :
      let kind = target (x.client.table_info t).schema req.rows in
      Wrote x db name (begin_of kind) (writer_of kind) (as_write kind) rows ws

module _ (x : Externals) where
  -- The table that a request describes: its columns have the types that the request names, and the
  -- client made the schema of them.
  pub record TableAsked (db : Text) (req : CreateTableRequest) (ws : List Write) : Type 0 where
    pub columns : List NewColumn
    pub schema : Schema
    pub typed : build_columns x req.schema ≡ ok columns
    pub built :
        x.client.build_schema (record { columns = columns; primary_key = key_of x req.primary_key })
        ≡ ok schema
    pub made :
        ws
        ≡ created_table
            (path_of db req.table_name)
            (record {
              schema = schema;
              properties = properties_of x req;
              partitioned_by = nonempty (or_default [] req.partition_keys);
              bucket_count = req.bucket_count;
              bucket_keys = or_default [] req.bucket_keys;
              comment = req.comment;
            })
            req.ignore_if_exists
          ∷ []

  -- The changes that a request asks for.
  abbrev pub Asked : Api → List Write → Type 0
  Asked (Api.create_database req) ws =
      ws
      ≡ created_database req.database_name
          (record { comment = req.comment; custom_properties = nonempty req.custom_properties })
          req.ignore_if_exists
        ∷ []
  Asked (Api.drop_database db req) ws =
      ws ≡ dropped_database db req.ignore_if_not_exists req.cascade ∷ []
  Asked (Api.create_table db req) ws = TableAsked db req ws
  Asked (Api.drop_table db name req) ws =
      ws ≡ dropped_table (path_of db name) req.ignore_if_not_exists ∷ []
  Asked (Api.produce db name req) ws = Converted x db name req ws
  Asked _ ws = ws ≡ []
