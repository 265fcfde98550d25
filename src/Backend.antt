-- ===== src/Backend.antt =====
-- src/backend/mod.rs: the operations of the gateway on a Fluss cluster.
pub mod Admin
pub mod Arrow
pub mod Fits
pub mod Tables
pub mod Read
pub mod Write
pub mod Confined
pub mod Written
pub mod Fails
pub mod Program
use fluss_gateway.Base.{ℕ, Text, Option, none, some, List, [], Result, ok, err}
use fluss_gateway.Config.{AuthConfig, PoolConfig}
use fluss_gateway.Fluss.{Call, Externals, TablePath, get_admin, get_table, list_databases}
use fluss_gateway.Gateway.{FlussBackend, Fault, World, Run, pure, call, ◌>>=◌, ◌>>◌}
use fluss_gateway.Pool
use fluss_gateway.Pool.{get_or_create}
use fluss_gateway.Server.Auth.{BasicAuthCredentials}

-- The user and the password of a request, or those of the start.
abbrev pub account : Option BasicAuthCredentials → FlussBackend → Text × Text
account (some c) b = (c.username, c.password)
account none b = (b.auth.startup_username, b.auth.startup_password)

module _ (x : Externals) where
  -- `FlussBackend::new`: the default connection is opened at once; `trace` is the history before.
  unfoldable pub new : Text → AuthConfig → PoolConfig → List Call → Result ℕ Fault × World
  new coordinator auth pool_config trace = get_or_create x none (record {
    backend = record { pool = Pool.new coordinator auth pool_config; auth = auth };
    trace = trace;
  })

  unfoldable pub conn : Option BasicAuthCredentials → Run ℕ
  conn creds w = get_or_create x (some (account creds w.backend)) w

  -- The two ways in which an operation starts.
  unfoldable pub admin : Option BasicAuthCredentials → Run ℕ
  admin creds = do c ← conn creds; call x.client.opens (get_admin c)

  unfoldable pub table : TablePath → Option BasicAuthCredentials → Run ℕ
  table path creds = do c ← conn creds; call x.client.opens (get_table c path)

  unfoldable pub check_health : Run (Unit {0})
  check_health = do a ← admin none; databases ← call x.client.names (list_databases a); pure tt
