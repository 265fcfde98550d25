-- ===== src/Backend/Confined/Operations.antt =====
-- The operations of the backend stay within the handles of the user they act for.
use fluss_gateway.Base.{◌≡◌, refl, Bool, ℕ, ℤ, Text, Option, some, List, [], ◌∷◌, map, ok}
use fluss_gateway.Types.Requests.{LookupParams, ScanParams, Dict}
use fluss_gateway.Fluss.{
  Externals, Row, Schema, OffsetSpec, Call, append, upsert, delete, new_append, new_upsert,
  create_append_writer, create_upsert_writer, flush_append, flush_upsert,
}
use fluss_gateway.Types.Errors.{GatewayError}
use fluss_gateway.Gateway.{◌>>=◌, ◌>>◌, call, pure}
use fluss_gateway.Backend.{table}
use fluss_gateway.Backend.Tables.{IsTable, IsWriterOf}
use fluss_gateway.Backend.Program.Safe.{newest-From}
use fluss_gateway.Backend.Program.Emits.{MayGive}
use fluss_gateway.Backend.Program.Stays.Gives.{
  take-MayRun, after-MayRun, whole-MayRun, opens-Gives, made-Gives,
}
use fluss_gateway.Backend.Program.Stays.{Acts, MayRun, Runs, Runs-after, Runs-lift, runs_rules}
use fluss_gateway.Backend.Program.Stays.Takes.{take-Runs}
use fluss_gateway.Pool.Confined.{handle_of}
use fluss_gateway.Backend.Admin
use fluss_gateway.Backend.Admin.{path_of, nonempty}
use fluss_gateway.Backend.Read
use fluss_gateway.Backend.Read.{key_row, unwrap, projected, subscribe_all}
use fluss_gateway.Backend.Write
use fluss_gateway.Backend.Write.{write_all, require}
use fluss_gateway.Server.Auth.{BasicAuthCredentials}
use fluss_gateway.Backend.Confined.{
  step_rules, changes, newest, admin-Takes, table-Gives, require-Runs, finish-Runs,
}
use fluss_gateway.Gateway.Writes.{
  Write, written, appended, upserted, deleted, created_database, dropped_database, created_table,
  dropped_table,
}

-- The calls of a writer: each is made on the handle that the one before returned, and only a row is a
-- change.
record IsWriter (begin_write get_writer flush : ℕ → Call) (write : ℕ → Row → Call)
    (made : ℕ → Row → Write) : Type 0 where
  opened : (h : ℕ) → handle_of (begin_write h) ≡ some h
  begun : (h : ℕ) → handle_of (get_writer h) ≡ some h
  on : (h : ℕ) (r : Row) → handle_of (write h r) ≡ some h
  flushed : (h : ℕ) → handle_of (flush h) ≡ some h
  open_quiet : (h : ℕ) → written (begin_write h ∷ []) ≡ []
  begin_quiet : (h : ℕ) → written (get_writer h ∷ []) ≡ []
  asked : (h : ℕ) (r : Row) → written (write h r ∷ []) ≡ made h r ∷ []
  flush_quiet : (h : ℕ) → written (flush h ∷ []) ≡ []

appends_rows : IsWriter new_append create_append_writer flush_append append appended
unfolding handle_of written
appends_rows = record {
  opened = λ h. refl;
  begun = λ h. refl;
  on = λ h r. refl;
  flushed = λ h. refl;
  open_quiet = λ h. refl;
  begin_quiet = λ h. refl;
  asked = λ h r. refl;
  flush_quiet = λ h. refl;
}

upserts_rows : IsWriter new_upsert create_upsert_writer flush_upsert upsert upserted
unfolding handle_of written
upserts_rows = record {
  opened = λ h. refl;
  begun = λ h. refl;
  on = λ h r. refl;
  flushed = λ h. refl;
  open_quiet = λ h. refl;
  begin_quiet = λ h. refl;
  asked = λ h r. refl;
  flush_quiet = λ h. refl;
}

deletes_rows : IsWriter new_upsert create_upsert_writer flush_upsert delete deleted
unfolding handle_of written
deletes_rows = record {
  opened = λ h. refl;
  begun = λ h. refl;
  on = λ h r. refl;
  flushed = λ h. refl;
  open_quiet = λ h. refl;
  begin_quiet = λ h. refl;
  asked = λ h r. refl;
  flush_quiet = λ h. refl;
}

-- The rows, each as a write of a writer of this table.
pub record Wrote (x : Externals) (db name : Text) (begin_write get_writer : ℕ → Call)
    (made : ℕ → Row → Write) (rows : List Row) (ws : List Write) : Type 0 where
  pub writer : ℕ
  pub on_writer : IsWriterOf x db name begin_write get_writer writer
  pub one_each : ws ≡ map (made writer) rows

module _ (x : Externals) (creds : Option BasicAuthCredentials) (Let : Type 0) (l : Let) where
  pub list_databases-Runs : Runs x creds Let [] [] (Admin.list_databases x creds)
  unfolding Admin.list_databases handle_of written
  list_databases-Runs = search step_rules

  pub list_tables-Runs : (db : Text) → Runs x creds Let [] [] (Admin.list_tables x creds db)
  unfolding Admin.list_tables handle_of written
  list_tables-Runs db = search step_rules

  pub get_table_info-Runs :
      (db name : Text) → Runs x creds Let [] [] (Admin.get_table_info x creds db name)
  unfolding Admin.get_table_info handle_of written
  get_table_info-Runs db name = search step_rules

  -- The description is that of the table of this name.
  pub get_table_info-Gives :
      (db name : Text)
      → Acts x creds Let
          (MayGive (λ info. (t : ℕ) × IsTable x db name t × (info ≡ x.client.table_info t)))
          []
          (Admin.get_table_info x creds db name)
  unfolding Admin.get_table_info
  get_table_info-Gives db name =
      made-Gives x creds Let (IsTable x db name) _ [] _ x.client.table_info
        (λ t on_table. (t, on_table, refl)) (table-Gives x creds Let db name [] l)

  pub create_database-Runs :
      (db : Text) (comment : Option Text) (props : Dict) (b : Bool)
      → Runs x creds Let []
          (created_database db (record { comment = comment; custom_properties = nonempty props }) b
            ∷ [])
          (Admin.create_database x creds db comment props b)
  unfolding Admin.create_database handle_of written
  create_database-Runs db comment props b =
      take-Runs x creds Let [] _ _ _ (admin-Takes x creds Let [] l)
        λ a. changes x creds Let x.client.runs _ (a ∷ []) (newest a [])

  pub drop_database-Runs :
      (db : Text) (b c : Bool)
      → Runs x creds Let [] (dropped_database db b c ∷ []) (Admin.drop_database x creds db b c)
  unfolding Admin.drop_database handle_of written
  drop_database-Runs db b c =
      take-Runs x creds Let [] _ _ _ (admin-Takes x creds Let [] l)
        λ a. changes x creds Let x.client.runs _ (a ∷ []) (newest a [])

  pub create_table-Runs :
      (db name : Text) (schema : Schema) (partition_keys : List Text) (n : Option ℤ)
      (bucket_keys : List Text) (props : Dict) (comment : Option Text) (b : Bool)
      → Runs x creds Let []
          (created_table
              (path_of db name)
              (record {
                schema = schema;
                properties = props;
                partitioned_by = nonempty partition_keys;
                bucket_count = n;
                bucket_keys = bucket_keys;
                comment = comment;
              })
              b
            ∷ [])
          (Admin.create_table x creds db name schema partition_keys n bucket_keys props comment b)
  unfolding Admin.create_table handle_of written
  create_table-Runs db name schema partition_keys n bucket_keys props comment b =
      take-Runs x creds Let [] _ _ _ (admin-Takes x creds Let [] l) λ a.
        Runs-after x creds Let (a ∷ []) _ _ _ (Runs-lift x creds Let (a ∷ []) _)
          λ u. changes x creds Let x.client.runs _ (a ∷ []) (newest a [])

  pub drop_table-Runs :
      (db name : Text) (b : Bool)
      → Runs x creds Let []
          (dropped_table (path_of db name) b ∷ [])
          (Admin.drop_table x creds db name b)
  unfolding Admin.drop_table handle_of written
  drop_table-Runs db name b =
      take-Runs x creds Let [] _ _ _ (admin-Takes x creds Let [] l)
        λ a. changes x creds Let x.client.runs _ (a ∷ []) (newest a [])

  pub list_offsets-Runs :
      (db name : Text) (buckets : List ℤ) (spec : OffsetSpec)
      → Runs x creds Let [] [] (Admin.list_offsets x creds db name buckets spec)
  unfolding Admin.list_offsets handle_of written
  list_offsets-Runs db name buckets spec = search step_rules

  pub list_partitions-Runs :
      (db name : Text) → Runs x creds Let [] [] (Admin.list_partitions x creds db name)
  unfolding Admin.list_partitions handle_of written
  list_partitions-Runs db name = search step_rules

  pub lookup-Runs :
      (db name : Text) (params : LookupParams)
      → Runs x creds Let [] [] (Read.lookup x creds db name params)
  unfolding Read.lookup handle_of written
  lookup-Runs db name params = search step_rules depth 24

  pub scan-Runs :
      (db name : Text) (params : ScanParams)
      → Runs x creds Let [] [] (Read.scan x creds db name params)
  unfolding Read.scan handle_of written
  scan-Runs db name params = search step_rules depth 24

  -- The writers: a table, a test of its kind, two handles, and the loop over the rows.
  module _ (db name : Text) (rows : List Row) where
    -- What is known of the changes once writing has begun, and once the table is opened.
    abbrev AfterBegin : (ℕ → Call) → (ℕ → Row → Write) → ℕ → List Write → Type 0
    AfterBegin get_writer made o ws =
        (writer : ℕ) × (second : List Call) × (x.client.opens second (get_writer o) ≡ ok writer)
        × (ws ≡ map (made writer) rows)

    abbrev AfterTable : (ℕ → Call) → (ℕ → Call) → (ℕ → Row → Write) → ℕ → List Write → Type 0
    AfterTable begin_write get_writer made t ws =
        (o : ℕ) × (first : List Call) × (x.client.opens first (begin_write t) ≡ ok o)
        × AfterBegin get_writer made o ws

    writer-MayRun :
        {A : Type 0} (begin_write get_writer flush : ℕ → Call) (write : ℕ → Row → Call)
        (made : ℕ → Row → Write) (test : ℕ → Bool) (e : GatewayError) (a : A)
        → IsWriter begin_write get_writer flush write made
        → MayRun x creds Let (Wrote x db name begin_write get_writer made rows) (
            table x (path_of db name) creds >>= λ t.
            require (test t) e
            >> (call x.client.opens (begin_write t) >>= λ o.
                call x.client.opens (get_writer o) >>= λ writer.
                write_all x (write writer) rows >> (call x.client.runs (flush writer) >> pure a)))
    writer-MayRun begin_write get_writer flush write made test e a is =
        take-MayRun x creds Let (IsTable x db name) (AfterTable begin_write get_writer made)
          (Wrote x db name begin_write get_writer made rows) [] _ _
          (λ t ws on_table (o, first, opened, (writer, second, begun, one)). record {
            writer = writer;
            on_writer = record {
              t = t;
              on_table = on_table;
              o = o;
              first = first;
              opened = opened;
              second = second;
              begun = begun;
            };
            one_each = one;
          })
          (table-Gives x creds Let db name [] l)
          λ t.
            after-MayRun x creds Let (AfterTable begin_write get_writer made t) (t ∷ []) _ _
              (require-Runs x creds Let (t ∷ []) _ _)
              λ u.
                take-MayRun x creds Let _ (AfterBegin get_writer made) _ (t ∷ []) _ _
                  (λ o ws (first, opened) after. (o, first, opened, after))
                  (opens-Gives x creds Let (t ∷ []) (begin_write t) t (is.opened t)
                    (newest-From x t []) (is.open_quiet t))
                  λ o.
                    take-MayRun x creds Let _ (λ writer ws. ws ≡ map (made writer) rows) _
                      (o ∷ t ∷ []) _ _
                      (λ writer ws (second, begun) one. (writer, second, begun, one))
                      (opens-Gives x creds Let (o ∷ t ∷ []) (get_writer o) o (is.begun o)
                        (newest-From x o (t ∷ [])) (is.begin_quiet o))
                      λ writer.
                        let on = newest writer (o ∷ t ∷ []) in
                        whole-MayRun x creds Let _ (writer ∷ o ∷ t ∷ []) _ _ refl (
                          finish-Runs x creds Let (writer ∷ o ∷ t ∷ []) (write writer) (made writer)
                            rows _ a (λ r. rw (is.on writer r) on) (is.asked writer)
                            (rw (is.flushed writer) on) (is.flush_quiet writer))

    pub append_rows-MayRun :
        MayRun x creds Let
          (Wrote x db name new_append create_append_writer appended rows)
          (Write.append_rows x creds db name rows)
    unfolding Write.append_rows
    append_rows-MayRun = writer-MayRun _ _ _ append appended _ _ _ appends_rows

    pub upsert_rows-MayRun :
        MayRun x creds Let
          (Wrote x db name new_upsert create_upsert_writer upserted rows)
          (Write.upsert_rows x creds db name rows)
    unfolding Write.upsert_rows
    upsert_rows-MayRun = writer-MayRun _ _ _ upsert upserted _ _ _ upserts_rows

    pub delete_rows-MayRun :
        MayRun x creds Let
          (Wrote x db name new_upsert create_upsert_writer deleted rows)
          (Write.delete_rows x creds db name rows)
    unfolding Write.delete_rows
    delete_rows-MayRun = writer-MayRun _ _ _ delete deleted _ _ _ deletes_rows

  pub ruleset operation_rules = (
    runs_rules, list_databases-Runs, list_tables-Runs, get_table_info-Runs, create_database-Runs,
    drop_database-Runs, create_table-Runs, drop_table-Runs, list_offsets-Runs, list_partitions-Runs,
    lookup-Runs, scan-Runs,
  )
