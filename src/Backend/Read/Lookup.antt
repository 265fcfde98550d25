-- ===== src/Backend/Read/Lookup.antt =====
-- What a lookup returns.
use fluss_gateway.Base.{
  ℕ, ◌≡◌, refl, Text, Option, some, List, [], length, length-replicate, ok, All,
}
use fluss_gateway.Types.Json.{Json}
use fluss_gateway.Types.Datum.{Datum}
use fluss_gateway.Types.Requests.{LookupParams}
use fluss_gateway.Fluss.{
  Call, Externals, RecordBatch, to_record_batch, new_lookup, create_lookuper, Row,
}
use fluss_gateway.Gateway.{World}
use fluss_gateway.Gateway.Returns.{
  Returns, Returns-pure, Returns-bind, Returns-call, Returns-lift, Returns-chain,
}
use fluss_gateway.Backend.Tables.{IsTable, table-Returns}
use fluss_gateway.Backend.Read.{null_row, lookup}
use fluss_gateway.Backend.Arrow.{record_batch_to_json}
use fluss_gateway.Server.Auth.{BasicAuthCredentials}
use fluss_gateway.Backend.Read.Keys.{ok_or-eq-ok}
use fluss_gateway.Backend.Read.Filled.{IsFilled, fills}

module _ (x : Externals) (db name : Text) where
  -- What a lookup returned, against the answers of the client.
  pub record Found (params : LookupParams) (rows : List Json) : Type 0 where
    pub t : ℕ
    pub on_table : IsTable x db name t
    pub primary_key : List Text
    pub keyed : (x.client.table_info t).schema.primary_key ≡ some primary_key
    pub row : Row
    pub key : All (IsFilled x.formats (x.client.table_info t).schema.columns params row) primary_key
    pub first : List Call
    pub l : ℕ
    pub begun : x.client.opens first (new_lookup t) ≡ ok l
    pub second : List Call
    pub lookuper : ℕ
    pub made : x.client.opens second (create_lookuper l) ≡ ok lookuper
    pub history : List Call
    pub result : ℕ
    pub asked : x.client.opens history (Call.lookup lookuper row) ≡ ok result
    pub later : List Call
    pub batch : RecordBatch
    pub answered : x.client.batch later (to_record_batch result) ≡ ok batch
    pub rows_of : rows ≡ record_batch_to_json x batch

  -- A lookup that is answered returns the rows of the batch that the client gave when it was asked, on
  -- the table of the request, for a row in which, for every column of the primary key, the parameter
  -- with the name of the column, converted to its type, stands at the place of the column.
  pub lookup-Found :
      (creds : Option BasicAuthCredentials) (params : LookupParams) (w : World) (rows : List Json)
      → (lookup x creds db name params w).0 ≡ ok rows
      → Found params rows
  unfolding lookup
  lookup-Found creds params w rows h =
      let all : Returns (Found params) (lookup x creds db name params) =
        Returns-chain _ _ (table-Returns x creds db name) λ t on_table. Returns-bind _ _ λ u.
          Returns-lift _ _ λ pk keyed.
            let columns = (x.client.table_info t).schema.columns in
            Returns-chain _ _
              (fills x.formats columns params pk [] (null_row columns)
                (length-replicate (length columns) Datum.null) tt)
              λ row filled. Returns-call x.client.opens (new_lookup t) _ λ l first begun.
                Returns-call x.client.opens (create_lookuper l) _ λ lookuper second made.
                  Returns-call x.client.opens (Call.lookup lookuper row) _ λ result history asked.
                    Returns-call x.client.batch (to_record_batch result) _ λ batch later answered.
                      Returns-pure _ (record {
                        t = t;
                        on_table = on_table;
                        primary_key = pk;
                        keyed = ok_or-eq-ok _ _ keyed;
                        row = row;
                        key = filled.1;
                        first = first;
                        l = l;
                        begun = begun;
                        second = second;
                        lookuper = lookuper;
                        made = made;
                        history = history;
                        result = result;
                        asked = asked;
                        later = later;
                        batch = batch;
                        answered = answered;
                        rows_of = refl;
                      }) in
      all.at w rows h
