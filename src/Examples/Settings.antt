-- ===== src/Examples/Settings.antt =====
-- The configuration at a concrete file and command line.
use fluss_gateway.Base.{◌*◌, ◌≡◌, ◌↔◌, Text, text, none, some, [], ◌∷◌, ok, err}
use fluss_gateway.Config.{passthrough, GatewayConfig}
use fluss_gateway.Config.Load.{FileConfig, Files, ServeArgs, and_then, from_file, load_config}
use fluss_gateway.Config.Load.Priority.{first_of, mode_named, load_config_err_iff}

abbrev pub file : FileConfig
file = record {
  server = some (record { host = some (text "10.0.0.1"); port = none; max_body_size = none });
  fluss = none;
  auth = some (record {
    auth_type = some (text "passthrough");
    startup_username = none;
    startup_password = none;
  });
  pool = none;
  log = none;
}

abbrev pub files : Files
files = record { read = λ path. some (ok []); parse_toml = λ content. ok file }

abbrev pub args : ServeArgs
args = record {
  host = none;
  port = some 9090;
  fluss_coordinator = none;
  auth_type = none;
  sasl_username = none;
  sasl_password = none;
  config = some (text "my.toml");
  pool_max_connections = none;
  pool_idle_timeout_secs = none;
  log_level = none;
}

abbrev pub loaded : GatewayConfig
loaded = record {
  server = record { host = text "10.0.0.1"; port = 9090; max_body_size = 16 * 1024 * 1024 };
  fluss = record { coordinator = [] };
  auth = record { auth_type = passthrough; startup_username = []; startup_password = [] };
  pool = record { max_connections = 500; idle_timeout_secs = 600 };
  log = record { level = [] };
}

load_config_err_iff_example :
    (load_config files args ≡ err (text "gone"))
    ↔ ((path : Text) × (args.config ≡ some path) × (from_file files path ≡ err (text "gone")))
load_config_err_iff_example = load_config_err_iff files args (text "gone")

abbrev IsFirst : GatewayConfig → Type 0
IsFirst config =
    (config.server.host ≡ first_of (args.host ∷ and_then file.server (λ s. s.host) ∷ []) [])
    × (config.server.port ≡ first_of (args.port ∷ and_then file.server (λ s. s.port) ∷ []) 0)
    × (config.server.max_body_size
        ≡ first_of (and_then file.server (λ s. s.max_body_size) ∷ []) (16 * 1024 * 1024))
    × (config.fluss.coordinator
        ≡ first_of (args.fluss_coordinator ∷ and_then file.fluss (λ f. f.coordinator) ∷ []) [])
    × (config.auth.startup_username
        ≡ first_of (args.sasl_username ∷ and_then file.auth (λ a. a.startup_username) ∷ []) [])
    × (config.auth.startup_password
        ≡ first_of (args.sasl_password ∷ and_then file.auth (λ a. a.startup_password) ∷ []) [])
    × (config.pool.max_connections
        ≡ first_of (args.pool_max_connections ∷ and_then file.pool (λ p. p.max_connections) ∷ [])
            500)
    × (config.pool.idle_timeout_secs
        ≡ first_of
            (args.pool_idle_timeout_secs ∷ and_then file.pool (λ p. p.idle_timeout_secs) ∷ []) 600)
    × (config.auth.auth_type ≡ first_of (mode_named args.auth_type ∷ []) passthrough)
    × (config.log.level ≡ first_of (args.log_level ∷ and_then file.log (λ l. l.level) ∷ []) [])
