-- ===== src/Server/ApiDoc/Statuses.antt =====
-- The statuses of the answers against the description.
use fluss_gateway.Base.{
  ℕ, ◌+◌, get_elem?, Option-cases, ◌≡◌, refl, Bool, true, false, Text, Option, none, some, List, [],
  ◌∷◌, ◌++◌, inl, inr, Result, ok, err, if◌then◌else◌,
}
use fluss_gateway.Config.{AuthType, passthrough}
use fluss_gateway.Types.Errors.{status_code}
use fluss_gateway.Types.Json.{Json}
use fluss_gateway.Types.Datum.{Datum, Formats}
use fluss_gateway.Types.Requests.{Dict, ColumnSpec, ProduceRow}
use fluss_gateway.Fluss.{Externals, Column, Row}
use fluss_gateway.Gateway.Fails.{
  lists, FailsIn, ErrsIn, ErrsIn-ok, ErrsIn-err, ErrsIn-then, FailsIn-pure, FailsIn-bind,
  fails_rules, errs_rules,
}
use fluss_gateway.Backend.Fails.{
  list_databases-FailsIn, list_tables-FailsIn, get_table_info-FailsIn, create_database-FailsIn,
  drop_database-FailsIn, create_table-FailsIn, drop_table-FailsIn, list_offsets-FailsIn,
  list_partitions-FailsIn, scan-FailsIn, append_rows-FailsIn, upsert_rows-FailsIn,
  delete_rows-FailsIn, lookup-FailsIn,
}
use fluss_gateway.Server.Auth.{BasicAuthCredentials}
use fluss_gateway.Server.Rest
use fluss_gateway.Server.Rest.{extract_creds, lookup_keys, offset_spec, ListOffsetsRequest}
use fluss_gateway.Server.Rest.Schemas
use fluss_gateway.Server.Rest.Schemas.{build_columns, parse_data_type, data_type_of}
use fluss_gateway.Server.Rest.Produce
use fluss_gateway.Server.Rest.Produce.{
  Target, write, appends, upserts, deletes, convert_rows, fill_row, at_field,
}
use fluss_gateway.Server.Rest.Api.{Api, handle}
use fluss_gateway.Server.ApiDoc
use fluss_gateway.Server.ApiDoc.{Annotation, paths}

-- The errors of the pure steps of handlers.
module _ (x : Externals) (ss : List ℕ) where
  extract_creds-ErrsIn :
      (auth_type : AuthType) (ext : Option BasicAuthCredentials)
      → lists ss 401 ≡ true
      → ErrsIn ss (extract_creds auth_type ext)
  unfolding extract_creds status_code
  extract_creds-ErrsIn AuthType.none ext p = ErrsIn-ok ss none
  extract_creds-ErrsIn passthrough (some c) p = ErrsIn-ok ss (some c)
  extract_creds-ErrsIn passthrough none p = ErrsIn-err ss _ p

  module _ (bad : lists ss 400 ≡ true) where
    offset_spec-ErrsIn : (req : ListOffsetsRequest) → ErrsIn ss (offset_spec req)
    unfolding offset_spec status_code
    offset_spec-ErrsIn req = elim (Option-cases (req.timestamp)) [
      | inl missing ↦ rw missing (search errs_rules)
      | inr (ts, given) ↦ rw given (search errs_rules)
    ]

    data_type_of-ErrsIn : (s : Text) → ErrsIn ss (data_type_of s)
    unfolding data_type_of status_code
    data_type_of-ErrsIn s = search errs_rules depth 30

    build_columns-ErrsIn : (specs : List ColumnSpec) → ErrsIn ss (build_columns x specs)
    unfolding build_columns parse_data_type
    build_columns-ErrsIn [] = ErrsIn-ok ss []
    build_columns-ErrsIn (spec ∷ specs) =
        ErrsIn-then ss _ _ (data_type_of-ErrsIn (x.to_lowercase spec.data_type)) λ t.
          ErrsIn-then ss _ _ (build_columns-ErrsIn specs) λ rest. ErrsIn-ok ss (
            record { column = record { name = spec.name; data_type = t }; comment = spec.comment }
            ∷ rest)

    at_field-ErrsIn : (i j : ℕ) (r : Result Datum Text) → ErrsIn ss (at_field i j r)
    unfolding status_code
    at_field-ErrsIn i j (ok d) = ErrsIn-ok ss d
    at_field-ErrsIn i j (err m) = ErrsIn-err ss _ bad

    fill_row-ErrsIn :
        (f : Formats) (columns : List Column) (i j : ℕ) (values : List Json) (row : Row)
        → ErrsIn ss (fill_row f columns i j values row)
    unfolding fill_row
    fill_row-ErrsIn f columns i j [] row = ErrsIn-ok ss row
    fill_row-ErrsIn f columns i j (value ∷ values) row = elim (Option-cases (get_elem? columns j)) [
      | inl past ↦ rw (past, fill_row) (ErrsIn-ok ss row)
      | inr (column, there) ↦
          rw (there, fill_row)
            (ErrsIn-then ss _ _ (at_field-ErrsIn i j _)
              (λ d. fill_row-ErrsIn f columns i (j + 1) values _))
    ]

    convert_rows-ErrsIn :
        (f : Formats) (columns : List Column) (i : ℕ) (rows : List ProduceRow)
        → ErrsIn ss (convert_rows f columns i rows)
    unfolding convert_rows
    convert_rows-ErrsIn f columns i [] = ErrsIn-ok ss []
    convert_rows-ErrsIn f columns i (row ∷ rows) =
        ErrsIn-then ss _ _ (fill_row-ErrsIn f columns i 0 _ _) λ r.
          ErrsIn-then ss _ _ (convert_rows-ErrsIn f columns (i + 1) rows)
            λ rs. ErrsIn-ok ss (r ∷ rs)

module _ (x : Externals) (ss : List ℕ) (fluss : lists ss 500 ≡ true)
    (invalid : lists ss 422 ≡ true) where
  write-FailsIn :
      (t : Target) (creds : Option BasicAuthCredentials) (db name : Text) (rows : List Row)
      → FailsIn ss (write x t creds db name rows)
  unfolding write
  write-FailsIn appends creds db name rows =
      append_rows-FailsIn x ss creds fluss invalid db name rows
  write-FailsIn upserts creds db name rows =
      upsert_rows-FailsIn x ss creds fluss invalid db name rows
  write-FailsIn deletes creds db name rows =
      delete_rows-FailsIn x ss creds fluss invalid db name rows

  lookup_keys-FailsIn :
      (bad : lists ss 400 ≡ true) (creds : Option BasicAuthCredentials) (db name : Text)
      (keys : List Dict) (found : List Json)
      → FailsIn ss (lookup_keys x creds db name keys found)
  unfolding lookup_keys
  lookup_keys-FailsIn bad creds db name [] found = FailsIn-pure ss found
  lookup_keys-FailsIn bad creds db name (key ∷ keys) found =
      FailsIn-bind ss _ _ (lookup-FailsIn x ss creds fluss invalid bad db name _)
        (λ rows. lookup_keys-FailsIn bad creds db name keys (found ++ rows))

-- What describes the function that a request is routed to.
abbrev pub annotation_of : Api → Annotation
annotation_of Api.list_databases = ApiDoc.list_databases
annotation_of (Api.create_database req) = ApiDoc.create_database
annotation_of (Api.drop_database db req) = ApiDoc.drop_database
annotation_of (Api.list_tables db) = ApiDoc.list_tables
annotation_of (Api.create_table db req) = ApiDoc.create_table
annotation_of (Api.table_info_put db name) = ApiDoc.table_info_put
annotation_of (Api.drop_table db name req) = ApiDoc.drop_table
annotation_of (Api.table_info_get db name) = ApiDoc.table_info_get
annotation_of (Api.lookup db name params) = ApiDoc.lookup
annotation_of (Api.prefix_scan db name params) = ApiDoc.prefix_scan
annotation_of (Api.batch_lookup db name req) = ApiDoc.batch_lookup
annotation_of (Api.scan db name params) = ApiDoc.scan
annotation_of (Api.produce db name req) = ApiDoc.produce
annotation_of (Api.list_offsets db name req) = ApiDoc.list_offsets
annotation_of (Api.list_partitions db name) = ApiDoc.list_partitions

-- The requests that depend on whether the table has a primary key.
abbrev pub needs_kind : Api → Bool
needs_kind (Api.lookup db name params) = true
needs_kind (Api.batch_lookup db name req) = true
needs_kind (Api.produce db name req) = true
needs_kind _ = false

-- The statuses of errors: those described, and 422 for a table of the wrong kind.
abbrev pub statuses : Api → List ℕ
statuses req =
    if needs_kind req then 422 ∷ (annotation_of req).responses else (annotation_of req).responses

ruleset handler_rules = (
  fails_rules, refl, extract_creds-ErrsIn, offset_spec-ErrsIn, build_columns-ErrsIn,
  convert_rows-ErrsIn, write-FailsIn, lookup_keys-FailsIn, list_databases-FailsIn,
  list_tables-FailsIn, get_table_info-FailsIn, create_database-FailsIn, drop_database-FailsIn,
  create_table-FailsIn, drop_table-FailsIn, list_offsets-FailsIn, list_partitions-FailsIn,
  scan-FailsIn, lookup-FailsIn,
)

module _ (x : Externals) (auth_type : AuthType) (ext : Option BasicAuthCredentials) where
  pub handle-FailsIn : (req : Api) → FailsIn (statuses req) (handle x auth_type ext req)
  unfolding handle Rest.list_databases Rest.create_database Rest.drop_database Rest.list_tables
      Schemas.create_table Rest.table_info_put Rest.table_info_get Rest.drop_table Rest.lookup
      Rest.batch_lookup Rest.scan Produce.produce Rest.list_offsets Rest.list_partitions
      Rest.table_info_inner Rest.prefix_scan status_code
  handle-FailsIn Api.list_databases = search handler_rules depth 20
  handle-FailsIn _ = search handler_rules depth 20
