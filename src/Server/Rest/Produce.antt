-- ===== src/Server/Rest/Produce.antt =====
-- `produce` of src/server/rest/mod.rs: JSON rows to typed rows, and the choice of the write.
pub mod Rows
pub mod Written
use fluss_gateway.Base.{
  ℕ, suc, ◌+◌, Bool, true, false, Text, text, text_eq, show, Option, none, some, List, [], ◌∷◌,
  ◌++◌, Result, ok, err, ◌>>=◌ as and_then, length, get_elem?, set, replicate, any, if◌then◌else◌,
}
use fluss_gateway.Config.{AuthType}
use fluss_gateway.Types.Errors.{GatewayError, bad_request}
use fluss_gateway.Types.Json.{Json}
use fluss_gateway.Types.Datum.{Datum, Formats, json_to_datum}
use fluss_gateway.Types.Requests.{WriteResult, ProduceRow, ProduceRequest}
use fluss_gateway.Fluss.{Externals, Column, Row, Schema}
use fluss_gateway.Gateway.{World, Run, lift, ◌>>=◌}
use fluss_gateway.Backend.Admin.{get_table_info}
use fluss_gateway.Backend.Write.{append_rows, upsert_rows, delete_rows}
use fluss_gateway.Server.Auth.{BasicAuthCredentials}
use fluss_gateway.Server.Rest.{extract_creds, is_some}

-- `map_err(|e| BadRequest(format!("row[{i}] field[{j}]: {e}")))`.
abbrev pub at_field : ℕ → ℕ → Result Datum Text → Result Datum GatewayError
at_field i j (ok d) = ok d
at_field i j (err e) =
    err
      (bad_request (text "row[" ++ (show i ++ (text "] field[" ++ (show j ++ (text "]: " ++ e))))))

module _ (f : Formats) (columns : List Column) where
  -- The inner loop, from the field `j` on; values past the last column are not read.
  unfoldable pub fill_row : ℕ → ℕ → List Json → Row → Result Row GatewayError
  fill_row i j [] row = ok row
  fill_row i j (value ∷ values) row = elim (get_elem? columns j) [
    | none ↦ ok row
    | some column ↦
        and_then (at_field i j (json_to_datum f value column.data_type))
          λ datum. fill_row i (j + 1) values (set row j datum)
  ]

  -- The outer loop, from the row `i` on.
  unfoldable pub convert_rows : ℕ → List ProduceRow → Result (List Row) GatewayError
  unfolding fill_row
  convert_rows i [] = ok []
  convert_rows i (prow ∷ prows) =
      and_then (fill_row i 0 prow.values (replicate (length columns) Datum.null))
        λ row. and_then (convert_rows (i + 1) prows) λ rows. ok (row ∷ rows)

abbrev pub is_delete : ProduceRow → Bool
is_delete r = elim (r.change_type) [ none ↦ false | some t ↦ text_eq t (text "Delete") ]

pub data Target : Type 0 where
  appends upserts deletes : Target

-- The two tests that choose the write.
unfoldable pub target : Schema → List ProduceRow → Target
target schema rows =
    if is_some schema.primary_key
    then (if any is_delete rows then deletes else upserts)
    else appends

module _ (x : Externals) where
  unfoldable pub write :
      Target → Option BasicAuthCredentials → Text → Text → List Row → Run WriteResult
  write appends creds db name rows = append_rows x creds db name rows
  write upserts creds db name rows = upsert_rows x creds db name rows
  write deletes creds db name rows = delete_rows x creds db name rows

  unfoldable pub produce :
      AuthType → Option BasicAuthCredentials → Text → Text → ProduceRequest → Run WriteResult
  unfolding extract_creds convert_rows
  produce auth_type ext db name req = do
    creds ← lift (extract_creds auth_type ext)
    info ← get_table_info x creds db name
    rows ← lift (convert_rows x.formats info.schema.columns 0 req.rows)
    write (target info.schema req.rows) creds db name rows
