-- ===== src/Server/Rest/Confined.antt =====
-- Every route stays within the handles of the user that it acts for.
use fluss_gateway.Base.{
  ◌≡◌, refl, Text, text, Option, none, some, List, [], ◌∷◌, ◌++◌, ok, err, ℕ, subst,
}
use fluss_gateway.Config.{AuthType, AuthConfig, passthrough}
use fluss_gateway.Types.Errors.{unauthorized}
use fluss_gateway.Types.Json.{Json}
use fluss_gateway.Types.Requests.{Dict, ProduceRequest}
use fluss_gateway.Fluss.{Externals, Row, TableInfo}
use fluss_gateway.Gateway.{FlussBackend, World, Run, fails, lift, fluss_err, ◌>>=◌}
use fluss_gateway.Gateway.Keeps.{Keeps}
use fluss_gateway.Gateway.Writes.{Write}
use fluss_gateway.Gateway.Returns.{fluss_err-ok}
use fluss_gateway.Server.Rest.Schemas.{build_columns}
use fluss_gateway.Pool.Owned.{IsSound}
use fluss_gateway.Pool.Confined.{Grows}
use fluss_gateway.Backend.{account}
use fluss_gateway.Backend.Program.{ends, returns, Does-run}
use fluss_gateway.Backend.Program.Stays.{Runs, MayRun, Runs-after, Acts-if, runs_rules}
use fluss_gateway.Backend.Program.Stays.Changes.{
  MayRun-fail, MayRun-whole, MayRun-lift, MayRun-reply,
}
use fluss_gateway.Backend.Program.Alone.{Within, starts, run-Within}
use fluss_gateway.Backend.Confined.Operations.{
  operation_rules, lookup-Runs, create_database-Runs, drop_database-Runs, create_table-Runs,
  drop_table-Runs, append_rows-MayRun, upsert_rows-MayRun, delete_rows-MayRun, get_table_info-Gives,
  Wrote,
}
use fluss_gateway.Server.Auth.{BasicAuthCredentials}
use fluss_gateway.Server.Rest
use fluss_gateway.Server.Rest.{extract_creds, lookup_keys}
use fluss_gateway.Server.Rest.Schemas
use fluss_gateway.Server.Rest.Produce
use fluss_gateway.Server.Rest.Produce.{
  Target, write, appends, upserts, deletes, target, convert_rows,
}
use fluss_gateway.Server.Rest.Api.{Api, Reply, reply, handle}
use fluss_gateway.Server.Rest.Asked.{as_write, begin_of, writer_of, Converted, Asked}
use fluss_gateway.Backend.Tables.{IsTable}
use fluss_gateway.Backend.Program.Stays.Gives.{given-MayRun, weaken-MayRun}

-- The credentials that a request acts with: in mode "none" it acts for the account of the start, with
-- or without credentials of its own.
abbrev pub acting : AuthType → Option BasicAuthCredentials → Option BasicAuthCredentials
acting AuthType.none ext = none
acting passthrough ext = ext

-- The user and the password of that account.
abbrev pub acts_as : AuthType → Option BasicAuthCredentials → AuthConfig → Text × Text
acts_as passthrough (some c) auth = (c.username, c.password)
acts_as _ _ auth = (auth.startup_username, auth.startup_password)

-- Whether a request is let in.
abbrev pub LetIn : AuthType → Option BasicAuthCredentials → Type 0
LetIn passthrough none = ⊥
LetIn _ _ = Unit {0}

module _ (x : Externals) (creds : Option BasicAuthCredentials) (Let : Type 0) (l : Let) where
  lookup_keys-Runs :
      (db name : Text) (keys : List Dict) (found : List Json)
      → Runs x creds Let [] [] (lookup_keys x creds db name keys found)
  unfolding lookup_keys
  lookup_keys-Runs db name [] found = search runs_rules
  lookup_keys-Runs db name (key ∷ keys) found =
      Runs-after x creds Let [] [] _ _ (lookup-Runs x creds Let l db name _)
        (λ rows. lookup_keys-Runs db name keys (found ++ rows))

  write-MayRun :
      (t : Target) (db name : Text) (rows : List Row)
      → MayRun x creds Let
          (Wrote x db name (begin_of t) (writer_of t) (as_write t) rows)
          (write x t creds db name rows)
  unfolding write
  write-MayRun appends db name rows = append_rows-MayRun x creds Let l db name rows
  write-MayRun upserts db name rows = upsert_rows-MayRun x creds Let l db name rows
  write-MayRun deletes db name rows = delete_rows-MayRun x creds Let l db name rows

pub account-acting :
    (auth_type : AuthType) (ext : Option BasicAuthCredentials) (b : FlussBackend)
    → account (acting auth_type ext) b ≡ acts_as auth_type ext b.auth
account-acting AuthType.none ext b = refl
account-acting passthrough none b = refl
account-acting passthrough (some c) b = refl

module _ (x : Externals) (auth_type : AuthType) (ext : Option BasicAuthCredentials) where
  -- What a request may change, and what it may do so with.
  abbrev pub May : {A : Type 0} → (List Write → Type 0) → Run A → Type 1
  May = MayRun x (acting auth_type ext) (LetIn auth_type ext)

-- A request that is let in acts for `acting`.
granted :
    {A : Type 0} (x : Externals) (auth_type : AuthType) (ext : Option BasicAuthCredentials)
    (C : List Write → Type 0) (f : Option BasicAuthCredentials → Run A)
    → (LetIn auth_type ext → May x auth_type ext C (f (acting auth_type ext)))
    → May x auth_type ext C (lift (extract_creds auth_type ext) >>= f)
unfolding extract_creds ◌>>=◌ lift
granted x AuthType.none ext C f k = k tt
granted x passthrough none C f k = record {
  prog = ends (err (fails (unauthorized (text "authentication required"))));
  does = returns _ _ (λ w. refl);
  safe = tt;
  emits = record { part = tt };
}
granted x passthrough (some ext) C f k = k tt

module _ (x : Externals) (auth_type : AuthType) (ext : Option BasicAuthCredentials) where
  -- A request that asks for one change, and one that asks for none.
  asks_for :
      {A : Type 0} (ws : List Write) (m : Run A)
      → Runs x (acting auth_type ext) (LetIn auth_type ext) [] ws m
      → May x auth_type ext (λ vs. vs ≡ ws) m
  asks_for ws m k = MayRun-whole x _ _ (λ vs. vs ≡ ws) m ws refl k

  reads :
      {A : Type 0} (m : Run A)
      → Runs x (acting auth_type ext) (LetIn auth_type ext) [] [] m
      → May x auth_type ext (λ vs. vs ≡ []) m
  reads m = asks_for [] m

  replied :
      {A : Type 0} (C : List Write → Type 0) (f : A → Reply) (m : Run A)
      → May x auth_type ext C m
      → May x auth_type ext C (reply f m)
  replied C f m k = MayRun-reply x _ _ C f m k

  -- What is known of the changes once the table is described.
  abbrev Described : Text → Text → ProduceRequest → TableInfo → List Write → Type 0
  Described db name req info ws =
      let kind = target info.schema req.rows in
      (rows : List Row) × (convert_rows x.formats info.schema.columns 0 req.rows ≡ ok rows)
      × Wrote x db name (begin_of kind) (writer_of kind) (as_write kind) rows ws

  of_table :
      (db name : Text) (req : ProduceRequest) (info : TableInfo) (ws : List Write) (t : ℕ)
      → IsTable x db name t
      → info ≡ x.client.table_info t
      → Described db name req info ws
      → Converted x db name req ws
  of_table db name req info ws t on_table e d =
      let (rows, converted, wrote) = subst (λ i. Described db name req i ws) e d in
      record { t = t; on_table = on_table; rows = rows; converted = converted; wrote = wrote }

  pub produce-Runs :
      (db name : Text) (req : ProduceRequest)
      → May x auth_type ext (Converted x db name req) (Produce.produce x auth_type ext db name req)
  unfolding Produce.produce
  produce-Runs db name req = granted x auth_type ext (Converted x db name req) _ λ l.
      given-MayRun x _ _ _ (Described db name req) (Converted x db name req) [] _ _
        (λ info ws (t, on_table, e) d. of_table db name req info ws t on_table e d)
        (get_table_info-Gives x _ _ l db name)
        λ (info : TableInfo).
          MayRun-lift x _ _ _ (convert_rows x.formats info.schema.columns 0 req.rows) _ λ rows e.
            weaken-MayRun x _ _ _ _ [] _ (λ ws wrote. (rows, e, wrote))
              (write-MayRun x _ _ l (target info.schema req.rows) db name rows)

  -- Every route has a program that stays within the handles of the user that it acts for, and
  -- changes what the request asks for; a request that is not let in takes no handle.
  pub handle-Runs : (req : Api) → May x auth_type ext (Asked x req) (handle x auth_type ext req)
  unfolding handle Rest.list_databases Rest.create_database Rest.drop_database Rest.list_tables
      Schemas.create_table Rest.table_info_put Rest.table_info_get Rest.drop_table Rest.lookup
      Rest.batch_lookup Rest.scan Rest.list_offsets Rest.list_partitions Rest.table_info_inner
      Rest.prefix_scan
  handle-Runs (Api.create_database req) = replied _ _ _ (
      granted x auth_type ext _ _ λ l.
        Acts-if x _ _ [] _ _ _ (MayRun-fail x _ _ _ _)
          (asks_for _ _ (create_database-Runs x _ _ l _ _ _ _)))
  handle-Runs (Api.drop_database db req) =
      replied _ _ _
        (granted x auth_type ext _ _ λ l. asks_for _ _ (drop_database-Runs x _ _ l _ _ _))
  handle-Runs (Api.create_table db req) = replied _ _ _ (
      granted x auth_type ext _ _ λ l. Acts-if x _ _ [] _ _ _ (MayRun-fail x _ _ _ _) (
        MayRun-lift x _ _ _ (build_columns x req.schema) _ λ columns typed.
          MayRun-lift x _ _ _ (fluss_err (x.client.build_schema _)) _ λ schema built.
            MayRun-whole x _ _ _ _ _
              (record {
                columns = columns;
                schema = schema;
                typed = typed;
                built = fluss_err-ok _ built;
                made = refl;
              })
              (create_table-Runs x _ _ l _ _ _ _ _ _ _ _ _)))
  handle-Runs (Api.drop_table db name req) =
      replied _ _ _ (granted x auth_type ext _ _ λ l. asks_for _ _ (drop_table-Runs x _ _ l _ _ _))
  handle-Runs (Api.produce db name req) = replied _ _ _ (produce-Runs db name req)
  handle-Runs Api.list_databases =
      search (replied, granted, reads, lookup_keys-Runs, operation_rules, runs_rules) depth 20
  handle-Runs _ =
      search (replied, granted, reads, lookup_keys-Runs, operation_rules, runs_rules) depth 20

  pub handle-Within :
      (start : World) (req : Api)
      → Keeps (Within x (acting auth_type ext) start []) (handle x auth_type ext req)
  handle-Within start req = record {
    at = λ w k.
        let r = handle-Runs req in
        rw (← Does-run x r.does w)
          (run-Within x (acting auth_type ext) start (LetIn auth_type ext) _ r.prog [] w r.safe k);
  }

  pub handle-Grows :
      (req : Api) (w : World)
      → IsSound x w
      → let (username, password) = acts_as auth_type ext w.backend.auth in
        Grows x w.backend.pool.coordinator username password w.trace
          (handle x auth_type ext req w).1.trace
  handle-Grows req w s =
      rw (← account-acting auth_type ext w.backend)
        ((handle-Within w req).at w (starts x (acting auth_type ext) w s)).grown
