-- ===== src/Pool.antt =====
-- src/pool.rs: one Fluss connection for each pair of credentials.
pub mod Connect
pub mod Owned
pub mod Closed
pub mod Isolation
pub mod Confined
use fluss_gateway.Base.{
  ℕ, Bool, true, false, Text, text, text_eq, is_empty, not, ◌&&◌, Option, none, some, List, [], ◌∷◌,
  ◌++◌, Result, ok, err, if◌then◌else◌,
}
use fluss_gateway.Config.{AuthConfig, PoolConfig}
use fluss_gateway.Fluss.{Call, ConnConfig, CacheSpec, CredentialKey, Externals, connect}
use fluss_gateway.Gateway.{ConnectionPool, FlussBackend, World, Run, panics}

-- `ConnectionPool::new`; `max_connections as u64` keeps the value.
unfoldable pub new : Text → AuthConfig → PoolConfig → ConnectionPool
new coordinator auth pool = record {
  cache = record { max_capacity = pool.max_connections; time_to_idle = pool.idle_timeout_secs };
  entries = [];
  coordinator = coordinator;
  auth = auth;
}

-- The pool of the state, given anew.
abbrev pub with_entries : List (CredentialKey × ℕ) → World → World
with_entries entries w = record w {
  backend = record w.backend { pool = record w.backend.pool { entries = entries } };
}

-- `close`.
unfoldable pub close : World → World
close w = with_entries [] w

unfoldable pub key_eq : CredentialKey → CredentialKey → Bool
unfolding text_eq
key_eq (u, h) (u', h') = text_eq u u' && text_eq h h'

-- The connection that was last inserted under a key.
unfoldable pub inserted : CredentialKey → List (CredentialKey × ℕ) → Option ℕ
unfolding key_eq
inserted key [] = none
inserted key ((k, conn) ∷ entries) =
    let earlier = inserted key entries in if key_eq k key then some conn else earlier

-- The configuration of a new connection.
unfoldable pub conn_config : Text → Text → Text → ConnConfig
unfolding is_empty
conn_config coordinator username password =
    let sasl = not (is_empty username) && not (is_empty password) in
    record {
      bootstrap_servers = coordinator;
      security_protocol = if sasl then text "sasl" else [];
      security_sasl_mechanism = if sasl then text "PLAIN" else [];
      security_sasl_username = username;
      security_sasl_password = password;
    }

module _ (x : Externals) where
  unfoldable pub hash_credentials : Text → Text → CredentialKey
  hash_credentials username password = (username, x.sha256 (username ++ (text ":" ++ password)))

  -- A failure to connect is a panic.
  unfoldable pub create_connection : Text → Text → Text → Run ℕ
  unfolding conn_config
  create_connection coordinator username password w =
      let config = conn_config coordinator username password in
      let w' = record w { trace = w.trace ++ connect config ∷ [] } in
      elim (x.client.opens w.trace (connect config)) [
        | ok conn ↦ (ok conn, w')
        | err e ↦ (
          err (
              panics (
                text "failed to connect to Fluss coordinator "
                ++ (coordinator ++ (text ": " ++ e)))),
          w',
        )
      ]

  -- The future of `get_with`, and the insertion of its value; a panic inserts nothing.
  unfoldable pub create_and_insert : Text → Text → CredentialKey → Run ℕ
  unfolding create_connection
  create_and_insert username password key w =
      let (conn, w') = create_connection w.backend.pool.coordinator username password w in
      elim conn [
        | ok c ↦ (ok c, with_entries ((key, c) ∷ w'.backend.pool.entries) w')
        | err e ↦ (err e, w')
      ]

  -- `Cache::get_with`: the value that the cache still holds, or a new connection.
  unfoldable pub get_with : Text → Text → CredentialKey → Run ℕ
  unfolding create_and_insert inserted
  get_with username password key w =
      let pool = w.backend.pool in
      let made = create_and_insert username password key w in
      if x.holds pool.cache pool.entries w.trace key
      then elim (inserted key pool.entries) [ none ↦ made | some conn ↦ (ok conn, w) ]
      else made

  -- Without credentials those of the start are used.
  unfoldable pub get_or_create : Option (Text × Text) → Run ℕ
  unfolding get_with hash_credentials
  get_or_create (some (username, password)) w =
      get_with username password (hash_credentials username password) w
  get_or_create none w =
      let username = w.backend.pool.auth.startup_username in
      let password = w.backend.pool.auth.startup_password in
      get_with username password (hash_credentials username password) w
