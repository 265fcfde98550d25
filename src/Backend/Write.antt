-- ===== src/Backend/Write.antt =====
-- The write operations of src/backend/mod.rs.
use fluss_gateway.Base.{Bool, true, false, Text, text, Option, List, [], ◌∷◌, length, not}
use fluss_gateway.Types.Errors.{GatewayError, invalid_operation}
use fluss_gateway.Types.Requests.{WriteResult}
use fluss_gateway.Fluss.{
  Call, Externals, Row, append, flush_append, new_append, create_append_writer, new_upsert,
  create_upsert_writer, upsert, delete, flush_upsert,
}
use fluss_gateway.Gateway.{Run, pure, fail, call, ◌>>=◌, ◌>>◌}
use fluss_gateway.Backend.{table}
use fluss_gateway.Backend.Admin.{path_of}
use fluss_gateway.Server.Auth.{BasicAuthCredentials}

abbrev pub require : Bool → GatewayError → Run (Unit {0})
require true e = pure tt
require false e = fail e

module _ (x : Externals) where
  -- `for row in &rows`, one call a row.
  unfoldable pub write_all : (Row → Call) → List Row → Run (Unit {0})
  write_all write [] = pure tt
  write_all write (row ∷ rows) = do call x.client.runs (write row); write_all write rows

  module _ (creds : Option BasicAuthCredentials) (db name : Text) (rows : List Row) where
    unfoldable pub append_rows : Run WriteResult
    append_rows = do
      t ← table x (path_of db name) creds
      require (not (x.client.has_primary_key t))
          (invalid_operation (text "cannot append to a primary key table, use upsert instead"))
      a ← call x.client.opens (new_append t)
      appender ← call x.client.opens (create_append_writer a)
      write_all (append appender) rows
      call x.client.runs (flush_append appender)
      pure (record { row_count = length rows })

    unfoldable pub upsert_rows : Run WriteResult
    upsert_rows = do
      t ← table x (path_of db name) creds
      require (x.client.has_primary_key t)
          (invalid_operation (text "cannot upsert to a log table, use append instead"))
      u ← call x.client.opens (new_upsert t)
      upserter ← call x.client.opens (create_upsert_writer u)
      write_all (upsert upserter) rows
      call x.client.runs (flush_upsert upserter)
      pure (record { row_count = length rows })

    unfoldable pub delete_rows : Run WriteResult
    delete_rows = do
      t ← table x (path_of db name) creds
      require (x.client.has_primary_key t)
          (invalid_operation (text "cannot delete from a log table"))
      u ← call x.client.opens (new_upsert t)
      upserter ← call x.client.opens (create_upsert_writer u)
      write_all (delete upserter) rows
      call x.client.runs (flush_upsert upserter)
      pure (record { row_count = length rows })
