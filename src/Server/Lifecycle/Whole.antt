-- ===== src/Server/Lifecycle/Whole.antt =====
-- A whole run of the program.
use fluss_gateway.Base.{◌≡◌, ◌⊎◌, List, [], ◌∷◌, ok, err}
use fluss_gateway.Config.{GatewayConfig}
use fluss_gateway.Fluss.{Call, Externals, connect}
use fluss_gateway.Gateway.{World}
use fluss_gateway.Pool
use fluss_gateway.Pool.{conn_config, hash_credentials, inserted}
use fluss_gateway.Pool.Owned.{IsSound}
use fluss_gateway.Backend
use fluss_gateway.Server.Middleware.{Request}
use fluss_gateway.Server.Lifecycle.{Web, Exit, no_config, no_log, no_backend, stopped, new}
use fluss_gateway.Server.Lifecycle.Explained.{Explains}

-- The one call of the start.
abbrev pub startup : GatewayConfig → List Call
startup config =
    connect (
      conn_config config.fluss.coordinator config.auth.startup_username
        config.auth.startup_password)
    ∷ []

-- Every call of the run is explained, and a run that ends well leaves no connection in the pool.
abbrev pub Explained : Externals → Web → List Request → Exit → Type 0
Explained x web reqs (no_config e) = Unit
Explained x web reqs (no_log e) = Unit
Explained x web reqs (no_backend config e w) = w.trace ≡ startup config
Explained x web reqs (stopped config (ok done) w) =
    Explains x web config.auth config.fluss.coordinator reqs (startup config) w.trace
    × (w.backend.pool.entries ≡ [])
Explained x web reqs (stopped config (err e) w) =
    (w.trace ≡ startup config)
    ⊎ Explains x web config.auth config.fluss.coordinator reqs (startup config) w.trace

module _ (x : Externals) (config : GatewayConfig) where
  -- The world before the start, and after it.
  abbrev unborn : World
  unborn = record {
    backend = record {
      pool = Pool.new config.fluss.coordinator config.auth config.pool;
      auth = config.auth;
    };
    trace = [];
  }

  abbrev begun : World
  begun = (Backend.new x config.fluss.coordinator config.auth config.pool []).1

  record Began : Type 0 where
    trace : begun.trace ≡ startup config
    same_auth : begun.backend.auth ≡ config.auth
    same_coordinator : begun.backend.pool.coordinator ≡ config.fluss.coordinator
    sound : IsSound x begun
