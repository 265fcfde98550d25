-- ===== src/Backend/Read/Limits.antt =====
-- How many rows a scan returns.
use fluss_gateway.Base.{
  ℕ, ◌+◌, ◌≡◌, min, Text, Option, none, some, List, [], ◌∷◌, length, take, map, ◌++◌, ok,
}
use fluss_gateway.Types.Json.{Json}
use fluss_gateway.Types.Requests.{ScanParams}
use fluss_gateway.Fluss.{Call, Externals, RecordBatch, poll, project, create_scanner}
use fluss_gateway.Gateway.Returns.{Returns}
use fluss_gateway.Backend.Tables.{IsTable}
use fluss_gateway.Config.Load.{unwrap_or}
use fluss_gateway.Backend.Arrow.{record_batch_to_json}

-- The rows of all batches together.
unfoldable pub total_rows : List RecordBatch → ℕ
total_rows [] = 0
total_rows (batch ∷ batches) = batch.num_rows + total_rows batches

-- Lists one after another.
unfoldable pub joined : List (List Json) → List Json
joined [] = []
joined (xs ∷ xss) = xs ++ joined xss

-- A number of rows, under a limit if there is one.
unfoldable pub limited : Option ℕ → ℕ → ℕ
limited none n = n
limited (some limit) n = min limit n

module _ (x : Externals) where
  -- The handle that is scanned: a scan of the table, or its projection.
  pub data IsScan (t : ℕ) : Option (List ℕ) → ℕ → Type 0 where
    whole : IsScan t none (x.client.new_scan t)
    columns :
        (ids : List ℕ) (s : ℕ) (history : List Call)
        → x.client.opens history (project (x.client.new_scan t) ids) ≡ ok s
        → IsScan t (some ids) s

  -- The rows of the batches, in their order, up to the limit.
  abbrev pub rows_of : Option ℕ → List RecordBatch → List Json
  rows_of none batches = joined (map (record_batch_to_json x) batches)
  rows_of (some limit) batches = take limit (joined (map (record_batch_to_json x) batches))

  -- What a scan returned, against the answers of the client.
  pub record Polled (db name : Text) (params : ScanParams) (rows : List Json) : Type 0 where
    pub t : ℕ
    pub on_table : IsTable x db name t
    pub s : ℕ
    pub scanned : IsScan t params.projection s
    pub first : List Call
    pub scanner : ℕ
    pub made : x.client.opens first (create_scanner s) ≡ ok scanner
    pub history : List Call
    pub batches : List RecordBatch
    pub answered :
        x.client.batches history (poll scanner (unwrap_or params.timeout_ms 5000)) ≡ ok batches
    pub contents : rows ≡ rows_of params.limit batches
    pub counted : length rows ≡ limited params.limit (total_rows batches)
