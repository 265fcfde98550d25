-- ===== src/Config.antt =====
-- src/config.rs, and the command line of src/main.rs.
pub mod Load
use fluss_gateway.Base.{ℕ, ◌*◌, Text, text, Option, [], Result}

pub data AuthType : Type 0 where
  none passthrough : AuthType

pub record ServerConfig : Type 0 where
  pub host : Text
  pub port : ℕ
  pub max_body_size : ℕ

pub record FlussConfig : Type 0 where
  pub coordinator : Text

pub record AuthConfig : Type 0 where
  pub auth_type : AuthType
  pub startup_username : Text
  pub startup_password : Text

pub record PoolConfig : Type 0 where
  pub max_connections : ℕ
  pub idle_timeout_secs : ℕ

pub record LogConfig : Type 0 where
  pub level : Text

pub record GatewayConfig : Type 0 where
  pub server : ServerConfig
  pub fluss : FlussConfig
  pub auth : AuthConfig
  pub pool : PoolConfig
  pub log : LogConfig

-- The `Default` of each part.
abbrev pub default_server : ServerConfig
default_server = record { host = text "0.0.0.0"; port = 8080; max_body_size = 16 * 1024 * 1024 }

abbrev pub default_fluss : FlussConfig
default_fluss = record { coordinator = text "localhost:9123" }

abbrev pub default_auth : AuthConfig
default_auth = record { auth_type = none; startup_username = []; startup_password = [] }

abbrev pub default_pool : PoolConfig
default_pool = record { max_connections = 500; idle_timeout_secs = 600 }

abbrev pub default_log : LogConfig
default_log = record { level = text "info" }

abbrev pub default_config : GatewayConfig
default_config = record {
  server = default_server;
  fluss = default_fluss;
  auth = default_auth;
  pool = default_pool;
  log = default_log;
}
