-- ===== src/Server/Lifecycle.antt =====
-- A gateway from its start to its end: `main` of src/main.rs, and `GatewayServer` of
-- src/server/mod.rs. Requests are served one after another.

pub mod Passes
pub mod Explained
pub mod Whole
pub mod Answered
use fluss_gateway.Base.{
  ℕ, Bool, some, Text, text, show, ◌++◌, Option, none, List, [], ◌∷◌, Result, ok, err,
}
use fluss_gateway.Config.{GatewayConfig}
use fluss_gateway.Config.Load.{Files, ServeArgs, load_config}
use fluss_gateway.Types.Errors.{GatewayError, error_response, internal}
use fluss_gateway.Resilience.Breaker
use fluss_gateway.Resilience.Breaker.{CircuitBreaker}
use fluss_gateway.Resilience.Retry
use fluss_gateway.Resilience.Retry.{RetryConfig}
use fluss_gateway.Fluss.{Call, Externals}
use fluss_gateway.Gateway.{World, Fault, fails, panics}
use fluss_gateway.Pool.{close}
use fluss_gateway.Backend
use fluss_gateway.Metrics.{Sample}
use fluss_gateway.Server.Middleware.{Codecs, Request, Response, Handler, layered}
use fluss_gateway.Server.Rest.Health
use fluss_gateway.Server.Rest.Health.{HealthBody}
use fluss_gateway.Server.Rest.Api.{Api, Reply, handle}
use fluss_gateway.Server.Routes.{reply_status}

-- A request that the layers do not see: the health check, at a time, with its parameter; the metrics;
-- and what axum or the Swagger UI answer by themselves.
pub data Outside : Type 0 where
  health : ℕ → Option Bool → Outside
  metrics : Outside
  elsewhere : Response → Outside

-- Of axum, serde, tokio and the tracing crate: whether a request is for a route
-- outside the layers, else which route it takes and what its handler is given, or the refusal of the router or of an extractor; whether an address can be listened on; and
-- whether a directive for the log parses.
pub record Web : Type 0 where
  pub codecs : Codecs
  pub outside : Request → Option Outside
  pub extract : Request → Result Api Response
  pub bind : Text → Result (Unit {0}) Text
  pub directive : Text → Result (Unit {0}) Text

-- The backend is part of the `World`.
pub record GatewayServer : Type 0 where
  pub config : GatewayConfig
  pub circuit_breaker : CircuitBreaker
  pub retry_config : RetryConfig

-- The answer as a response.
unfoldable pub respond : Result Reply Fault → Result Response Fault
unfolding error_response
respond (ok reply) =
    ok (record { status = reply_status reply; error_body = none; max_body_size = none })
respond (err (fails e)) =
    let (status, body) = error_response e in
    ok (record { status = status; error_body = Option.some body; max_body_size = none })
respond (err (panics m)) = err (panics m)

abbrev pub checked_response : Result (ℕ × HealthBody) Fault → Result Response Fault
checked_response (ok (status, body)) =
    ok (record { status = status; error_body = none; max_body_size = none })
checked_response (err e) = err e

-- How the program ends.
pub data Exit : Type 0 where
  no_config : Text → Exit
  no_log : Text → Exit
  no_backend : GatewayConfig → Fault → World → Exit
  stopped : GatewayConfig → Result (Unit {0}) GatewayError → World → Exit

abbrev pub address : GatewayConfig → Text
address config = config.server.host ++ (text ":" ++ show config.server.port)

module _ (x : Externals) (web : Web) where
  -- `double` is the multiplication by the float 2.0; `trace` is the history before.
  unfoldable pub new :
      (ℕ → Option ℕ) → GatewayConfig → List Call → Result GatewayServer Fault × World
  unfolding Backend.new Breaker.new
  new double config trace =
      let (conn, w) = Backend.new x config.fluss.coordinator config.auth config.pool trace in
      elim conn [
        | ok c ↦ (
          ok (record {
            config = config;
            circuit_breaker = Breaker.new Breaker.default_config;
            retry_config = Retry.default_config double;
          }),
          w,
        )
        | err e ↦ (err e, w)
      ]

  module _ (server : GatewayServer) where
    unfoldable pub routes : Handler
    unfolding respond handle
    routes req w = elim (web.extract req) [
      | err refusal ↦ (ok refusal, w)
      | ok api ↦
          let (answer, w') = handle x server.config.auth.auth_type req.extension api w in
          (respond answer, w')
    ]

    -- The routes with their layers; a request arrives without extensions.
    unfoldable pub layered_api : Request → World → List Sample × (Result Response Fault × World)
    unfolding layered routes
    layered_api req w =
        layered web.codecs server.config.server.max_body_size routes
          (record req { extension = none }) w

    -- The routes that are merged with them. No sample is counted for these.
    unfoldable pub outer : Outside → World → Result Response Fault × World
    unfolding Health.health
    outer (health now deep) w =
        let (report, w') = Health.health x now server.circuit_breaker deep w in
        (checked_response report, w')
    outer metrics w = (ok (record { status = 200; error_body = none; max_body_size = none }), w)
    outer (elsewhere response) w = (ok response, w)

    unfoldable pub app : Request → World → List Sample × (Result Response Fault × World)
    unfolding layered_api outer
    app req w = elim (web.outside req) [ some o ↦ ([], outer o w) | none ↦ layered_api req w ]

    unfoldable pub serve : List Request → World → World
    serve [] w = w
    serve (req ∷ reqs) w = serve reqs (app req w).1.1

    -- The requests that come until the signal, and what `axum::serve` returns then.
    unfoldable pub run :
        Text
        → List Request
        → Result (Unit {0}) Text
        → World
        → Result (Unit {0}) GatewayError × World
    unfolding close
    run addr reqs ended w = elim (web.bind addr) [
      | err e ↦ (err (internal e), w)
      | ok bound ↦ elim ended [
        | err e ↦ (err (internal e), serve reqs w)
        | ok done ↦ (ok tt, close (serve reqs w))
      ]
    ]

  abbrev pub started :
      List Request
      → Result (Unit {0}) Text
      → GatewayConfig
      → Result GatewayServer Fault × World
      → Exit
  started reqs ended config (err e, w) = no_backend config e w
  started reqs ended config (ok server, w) =
      let (result, w') = run server (address config) reqs ended w in stopped config result w'

  -- `serve`, the one command.
  unfoldable pub main :
      (ℕ → Option ℕ) → Files → ServeArgs → List Request → Result (Unit {0}) Text → Exit
  unfolding load_config new run
  main double fs args reqs ended = elim (load_config fs args) [
    | err e ↦ no_config e
    | ok config ↦ elim (web.directive (text "fluss_gateway=" ++ config.log.level)) [
      | err e ↦ no_log e
      | ok parsed ↦ started reqs ended config (new double config [])
    ]
  ]
