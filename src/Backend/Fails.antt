-- ===== src/Backend/Fails.antt =====
-- The statuses with which the operations of the backend fail.
use fluss_gateway.Types.Errors.{GatewayError, status_code, bad_request}
use fluss_gateway.Base.{
  ◌≡◌, Bool, true, false, Result, ok, err, ℕ, zero, suc, ◌+◌, ℤ, Text, Option, none, some, List, [],
  ◌∷◌, Result-cases, Bool-cases, Option-cases, inl, inr,
}
use fluss_gateway.Types.Datum.{Datum, Formats}
use fluss_gateway.Types.Requests.{LookupParams, ScanParams, Dict}
use fluss_gateway.Fluss.{Call, Externals, Column, Row, TablePath, Schema, OffsetSpec, CredentialKey}
use fluss_gateway.Gateway.Fails.{
  lists, FailsIn, ErrsIn, FailsIn-pure, FailsIn-fail, FailsIn-panic, FailsIn-bind, FailsIn-call,
  ErrsIn-ok, ErrsIn-err, fails_rules,
}
use fluss_gateway.Pool.{get_or_create, get_with, create_and_insert, inserted}
use fluss_gateway.Pool.Connect.{connecting, create_and_insert-ok, create_and_insert-err}
use fluss_gateway.Backend.{conn, admin, table}
use fluss_gateway.Backend.Admin
use fluss_gateway.Backend.Admin.{infos_or_none, means_unpartitioned}
use fluss_gateway.Backend.Read
use fluss_gateway.Backend.Read.{key_row, unwrap, projected, subscribe_all, bad_datum}
use fluss_gateway.Backend.Write
use fluss_gateway.Backend.Write.{write_all, require}
use fluss_gateway.Server.Auth.{BasicAuthCredentials}

-- Whether a request may fail with a status; an error of Fluss is a 500.
module _ (x : Externals) (ss : List ℕ) (creds : Option BasicAuthCredentials)
    (fluss : lists ss 500 ≡ true) where
  create_and_insert-FailsIn :
      (u p : Text) (key : CredentialKey) → FailsIn ss (create_and_insert x u p key)
  create_and_insert-FailsIn u p key = record {
    at = λ w e h. elim (Result-cases (x.client.opens w.trace (connecting x u p w))) [
      | inl (c, done) ↦ let made = create_and_insert-ok x u p w key c done in cc
      | inr (m, failed) ↦ let made = create_and_insert-err x u p w key m failed in cc
    ];
  }

  get_with-FailsIn : (u p : Text) (key : CredentialKey) → FailsIn ss (get_with x u p key)
  unfolding get_with
  get_with-FailsIn u p key = record {
    at = λ w e.
        elim (Bool-cases (x.holds w.backend.pool.cache w.backend.pool.entries w.trace key)) [
          | inl held ↦ rw held (elim (Option-cases (inserted key w.backend.pool.entries)) [
            | inl missing ↦ rw missing ((create_and_insert-FailsIn u p key).at w e)
            | inr (c, found) ↦ rw found (λ h. cc)
          ])
          | inr dropped ↦ rw dropped ((create_and_insert-FailsIn u p key).at w e)
        ];
  }

  conn-FailsIn : FailsIn ss (conn x creds)
  unfolding conn get_or_create
  conn-FailsIn = record { at = λ w. (get_with-FailsIn _ _ _).at w }

  admin-FailsIn : FailsIn ss (admin x creds)
  unfolding admin
  admin-FailsIn = FailsIn-bind ss _ _ conn-FailsIn (λ c. FailsIn-call ss _ _ fluss)

  table-FailsIn : (path : TablePath) → FailsIn ss (table x path creds)
  unfolding table
  table-FailsIn path = FailsIn-bind ss _ _ conn-FailsIn (λ c. FailsIn-call ss _ _ fluss)

  require-FailsIn :
      (b : Bool) (e : GatewayError) → lists ss (status_code e) ≡ true → FailsIn ss (require b e)
  require-FailsIn true e p = FailsIn-pure ss tt
  require-FailsIn false e p = FailsIn-fail ss e p

  write_all-FailsIn : (write : Row → Call) (rows : List Row) → FailsIn ss (write_all x write rows)
  unfolding write_all
  write_all-FailsIn write [] = FailsIn-pure ss tt
  write_all-FailsIn write (row ∷ rows) =
      FailsIn-bind ss _ _ (FailsIn-call ss _ _ fluss) (λ u. write_all-FailsIn write rows)

  unwrap-FailsIn : (o : Option ℕ) → FailsIn ss (unwrap o)
  unwrap-FailsIn none = FailsIn-panic ss _
  unwrap-FailsIn (some i) = FailsIn-pure ss i

  projected-FailsIn :
      (db name : Text) (p : Option (List ℕ)) (s : ℕ) → FailsIn ss (projected x creds db name p s)
  unfolding projected
  projected-FailsIn db name none s = FailsIn-pure ss s
  projected-FailsIn db name (some p) s = FailsIn-call ss _ _ fluss

  subscribe_all-FailsIn :
      (db name : Text) (scanner i n : ℕ) → FailsIn ss (subscribe_all x creds db name scanner i n)
  unfolding subscribe_all
  subscribe_all-FailsIn db name scanner i zero = FailsIn-pure ss tt
  subscribe_all-FailsIn db name scanner i (suc n) =
      FailsIn-bind ss _ _ (FailsIn-call ss _ _ fluss)
        (λ u. subscribe_all-FailsIn db name scanner (i + 1) n)

  infos_or_none-FailsIn : (c : Call) → FailsIn ss (infos_or_none x creds c)
  unfolding infos_or_none
  infos_or_none-FailsIn c =
      let asked = FailsIn-call ss x.client.partitions c fluss in
      record {
        at = λ w err'. elim (Result-cases (x.client.partitions w.trace c)) [
          | inl (parts, done) ↦ rw (done, infos_or_none) (asked.at w err')
          | inr (m, failed) ↦
              rw (failed, infos_or_none)
                (elim (Bool-cases (means_unpartitioned m)) [
                  | inl t ↦ rw t (λ h. cc)
                  | inr t ↦ rw t (asked.at w err')
                ])
        ];
      }

  ruleset steps = (
    fails_rules, admin-FailsIn, table-FailsIn, write_all-FailsIn, projected-FailsIn,
    subscribe_all-FailsIn, infos_or_none-FailsIn, require-FailsIn,
  )

  pub list_databases-FailsIn : FailsIn ss (Admin.list_databases x creds)
  unfolding Admin.list_databases
  list_databases-FailsIn = search steps

  pub list_tables-FailsIn : (db : Text) → FailsIn ss (Admin.list_tables x creds db)
  unfolding Admin.list_tables
  list_tables-FailsIn db = search steps

  pub get_table_info-FailsIn : (db name : Text) → FailsIn ss (Admin.get_table_info x creds db name)
  unfolding Admin.get_table_info
  get_table_info-FailsIn db name = search steps

  pub create_database-FailsIn :
      (db : Text) (comment : Option Text) (props : Dict) (b : Bool)
      → FailsIn ss (Admin.create_database x creds db comment props b)
  unfolding Admin.create_database
  create_database-FailsIn db comment props b = search steps

  pub drop_database-FailsIn :
      (db : Text) (b c : Bool) → FailsIn ss (Admin.drop_database x creds db b c)
  unfolding Admin.drop_database
  drop_database-FailsIn db b c = search steps

  pub create_table-FailsIn :
      (db name : Text) (schema : Schema) (partition_keys : List Text) (n : Option ℤ)
      (bucket_keys : List Text) (props : Dict) (comment : Option Text) (b : Bool)
      → FailsIn ss
          (Admin.create_table x creds db name schema partition_keys n bucket_keys props comment b)
  unfolding Admin.create_table
  create_table-FailsIn db name schema partition_keys n bucket_keys props comment b = search steps

  pub drop_table-FailsIn :
      (db name : Text) (b : Bool) → FailsIn ss (Admin.drop_table x creds db name b)
  unfolding Admin.drop_table
  drop_table-FailsIn db name b = search steps

  pub list_offsets-FailsIn :
      (db name : Text) (buckets : List ℤ) (spec : OffsetSpec)
      → FailsIn ss (Admin.list_offsets x creds db name buckets spec)
  unfolding Admin.list_offsets
  list_offsets-FailsIn db name buckets spec = search steps

  pub list_partitions-FailsIn :
      (db name : Text) → FailsIn ss (Admin.list_partitions x creds db name)
  unfolding Admin.list_partitions
  list_partitions-FailsIn db name = search steps

  pub scan-FailsIn :
      (db name : Text) (params : ScanParams) → FailsIn ss (Read.scan x creds db name params)
  unfolding Read.scan
  scan-FailsIn db name params = search steps depth 20

  -- A table of the wrong kind is a 422, and a key that does not fit is a 400.
  module _ (invalid : lists ss 422 ≡ true) where
    module _ (db name : Text) (rows : List Row) where
      pub append_rows-FailsIn : FailsIn ss (Write.append_rows x creds db name rows)
      unfolding Write.append_rows status_code
      append_rows-FailsIn = search steps depth 20

      pub upsert_rows-FailsIn : FailsIn ss (Write.upsert_rows x creds db name rows)
      unfolding Write.upsert_rows status_code
      upsert_rows-FailsIn = search steps depth 20

      pub delete_rows-FailsIn : FailsIn ss (Write.delete_rows x creds db name rows)
      unfolding Write.delete_rows status_code
      delete_rows-FailsIn = search steps depth 20

    module _ (bad : lists ss 400 ≡ true) where
      bad_datum-ErrsIn : (r : Result Datum Text) → ErrsIn ss (bad_datum r)
      unfolding status_code
      bad_datum-ErrsIn (ok d) = ErrsIn-ok ss d
      bad_datum-ErrsIn (err m) = ErrsIn-err ss (bad_request m) bad

      key_row-FailsIn :
          (f : Formats) (columns : List Column) (params : LookupParams) (pk : List Text) (row : Row)
          → FailsIn ss (key_row f columns params pk row)
      unfolding key_row status_code
      key_row-FailsIn f columns params [] row = FailsIn-pure ss row
      key_row-FailsIn f columns params (name ∷ pk) row =
          search
            (fails_rules, unwrap-FailsIn, bad_datum-ErrsIn, key_row-FailsIn f columns params pk)
            depth 12

      pub lookup-FailsIn :
          (db name : Text) (params : LookupParams) → FailsIn ss (Read.lookup x creds db name params)
      unfolding Read.lookup status_code
      lookup-FailsIn db name params = search (steps, key_row-FailsIn) depth 20
