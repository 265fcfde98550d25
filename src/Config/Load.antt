-- ===== src/Config/Load.antt =====
-- `GatewayConfig::from_file` of src/config.rs and `ServeArgs::load_config` of src/main.rs.
pub mod Priority
use fluss_gateway.Base.{
  ℕ, ◌*◌, Bool, true, false, Text, text, text_eq, ◌++◌, Option, none, some, [], Result, ok, err,
  map_err, ◌>>=◌, if◌then◌else◌,
}
use fluss_gateway.Config.{
  AuthType, passthrough, ServerConfig, FlussConfig, AuthConfig, PoolConfig, LogConfig,
  GatewayConfig, default_config,
}

pub record FileServerConfig : Type 0 where
  pub host : Option Text
  pub port : Option ℕ
  pub max_body_size : Option ℕ

pub record FileFlussConfig : Type 0 where
  pub coordinator : Option Text

pub record FileAuthConfig : Type 0 where
  pub auth_type : Option Text
  pub startup_username : Option Text
  pub startup_password : Option Text

pub record FilePoolConfig : Type 0 where
  pub max_connections : Option ℕ
  pub idle_timeout_secs : Option ℕ

pub record FileLogConfig : Type 0 where
  pub level : Option Text

pub record FileConfig : Type 0 where
  pub server : Option FileServerConfig
  pub fluss : Option FileFlussConfig
  pub auth : Option FileAuthConfig
  pub pool : Option FilePoolConfig
  pub log : Option FileLogConfig

-- `Option::and_then` and `Option::unwrap_or`.
abbrev pub and_then {ℓ κ} : {A : Type ℓ} {B : Type κ} → Option A → (A → Option B) → Option B
and_then none f = none
and_then (some a) f = f a

abbrev pub unwrap_or {ℓ} : {A : Type ℓ} → Option A → A → A
unwrap_or none d = d
unwrap_or (some a) d = a

-- The match on the name of the mode.
unfoldable pub file_auth_type : FileConfig → Result AuthType Text
unfolding text_eq
file_auth_type file = elim (and_then file.auth (λ a. a.auth_type)) [
  | none ↦ ok AuthType.none
  | some other ↦
      if text_eq other (text "none")
      then ok AuthType.none
      else if text_eq other (text "passthrough")
      then ok passthrough
      else err (text "invalid auth type: " ++ other)
]

-- The values of a file; `unwrap_or_default` is the empty text, or 0.
unfoldable pub from_values : AuthType → FileConfig → GatewayConfig
from_values auth_type file = record {
  server = record {
    host = unwrap_or (and_then file.server (λ s. s.host)) [];
    port = unwrap_or (and_then file.server (λ s. s.port)) 0;
    max_body_size = unwrap_or (and_then file.server (λ s. s.max_body_size)) (16 * 1024 * 1024);
  };
  fluss = record { coordinator = unwrap_or (and_then file.fluss (λ f. f.coordinator)) [] };
  auth = record {
    auth_type = auth_type;
    startup_username = unwrap_or (and_then file.auth (λ a. a.startup_username)) [];
    startup_password = unwrap_or (and_then file.auth (λ a. a.startup_password)) [];
  };
  pool = record {
    max_connections = unwrap_or (and_then file.pool (λ p. p.max_connections)) 500;
    idle_timeout_secs = unwrap_or (and_then file.pool (λ p. p.idle_timeout_secs)) 600;
  };
  log = record { level = unwrap_or (and_then file.log (λ l. l.level)) [] };
}

-- The file system and the TOML parser: the content of a path that exists, read or not, and what
-- the parser makes of a content.
pub record Files : Type 0 where
  pub read : Text → Option (Result Text Text)
  pub parse_toml : Text → Result FileConfig Text

-- The text of an I/O error stands for it.
unfoldable pub from_file : Files → Text → Result GatewayConfig Text
unfolding file_auth_type from_values
from_file fs path = elim (fs.read path) [
  | none ↦ ok default_config
  | some read ↦ do
    content ← read
    file ← map_err (λ e. text "invalid TOML: " ++ e) (fs.parse_toml content)
    auth_type ← file_auth_type file
    ok (from_values auth_type file)
]

pub record ServeArgs : Type 0 where
  pub host : Option Text
  pub port : Option ℕ
  pub fluss_coordinator : Option Text
  pub auth_type : Option Text
  pub sasl_username : Option Text
  pub sasl_password : Option Text
  pub config : Option Text
  pub pool_max_connections : Option ℕ
  pub pool_idle_timeout_secs : Option ℕ
  pub log_level : Option Text

-- The mode that the command line leaves; a name that is unknown changes nothing.
unfoldable pub args_auth_type : Option Text → AuthType → AuthType
unfolding text_eq
args_auth_type none old = old
args_auth_type (some v) old =
    if text_eq v (text "none")
    then AuthType.none
    else if text_eq v (text "passthrough")
    then passthrough
    else old

-- The overrides.
unfoldable pub overridden : ServeArgs → GatewayConfig → GatewayConfig
unfolding args_auth_type
overridden args config = record {
  server = record {
    host = unwrap_or args.host config.server.host;
    port = unwrap_or args.port config.server.port;
    max_body_size = config.server.max_body_size;
  };
  fluss = record { coordinator = unwrap_or args.fluss_coordinator config.fluss.coordinator };
  auth = record {
    auth_type = args_auth_type args.auth_type config.auth.auth_type;
    startup_username = unwrap_or args.sasl_username config.auth.startup_username;
    startup_password = unwrap_or args.sasl_password config.auth.startup_password;
  };
  pool = record {
    max_connections = unwrap_or args.pool_max_connections config.pool.max_connections;
    idle_timeout_secs = unwrap_or args.pool_idle_timeout_secs config.pool.idle_timeout_secs;
  };
  log = record { level = unwrap_or args.log_level config.log.level };
}

-- `unwrap_or_default` on the configuration of the default path.
abbrev or_defaults : Result GatewayConfig Text → GatewayConfig
or_defaults (ok config) = config
or_defaults (err e) = default_config

unfoldable pub load_config : Files → ServeArgs → Result GatewayConfig Text
unfolding from_file overridden
load_config fs args = elim (args.config) [
  | some path ↦ from_file fs path >>= λ config. ok (overridden args config)
  | none ↦ ok (overridden args (or_defaults (from_file fs (text "gateway.toml"))))
]
