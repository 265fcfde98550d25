-- ===== src/Lib.antt =====
-- The Fluss gateway: an HTTP server in front of an Apache Fluss cluster. This library models the
-- gateway's own code as functions and relations, and proves what makes its parts correct.
--
-- How the parts fit together. A request passes three layers (src/server/mod.rs): one that measures it,
-- one that reads HTTP Basic credentials, and one that limits the body. A handler
-- (src/server/rest/mod.rs) checks the authentication mode, turns JSON into typed rows where it
-- writes, and calls the backend (src/backend/mod.rs), which asks the pool (src/pool.rs) for the
-- connection of the request's user and makes calls of the Fluss client on it. Outside the layers lie the
-- health check, which carries no credentials and may also call Fluss, the metrics, and the pages of the
-- Swagger UI.
--
-- Which file models which part:
--   Base, Base/*          shared: text as UTF-8 bytes, `Result` with `?`, lists over the native
--                         numbers, signed integers and casts, decimal text and its parsing
--   Types/Errors          `GatewayError` (src/types/mod.rs) and its response (src/server/rest/mod.rs)
--   Types/Json, /Datum    `serde_json::Value`, and `json_to_datum` (src/types/mod.rs)
--   Types/Requests        the bodies of requests and responses (src/types/mod.rs)
--   Resilience/Breaker    `CircuitBreaker` (src/resilience.rs); Breaker/Schedule has tasks that
--                         interleave their critical sections
--   Resilience/Retry      `execute_with_retry` and the random numbers (src/resilience.rs)
--   Config, Config/Load   src/config.rs, and `load_config` of src/main.rs
--   Fluss                 the parameters: the Fluss client, the cache, SHA-256, number formats
--   Gateway, Gateway/*    the shared state, actions on it, and rules for invariants, for returned
--                         values, for errors and for the changes that an action makes in Fluss
--   Pool, Pool/*          `ConnectionPool` (src/pool.rs); Pool/Confined says which handles of the
--                         client belong to a user
--   Backend, Backend/*    `FlussBackend` and the conversion of Arrow batches (src/backend/mod.rs)
--   Backend/Tables        the handles that the client gives for a table, and the writers of a table
--   Backend/Program, /*   the programs of the actions, and which handles they stay within
--   Server/Tasks, /*      requests that are handled at the same time (src/server/mod.rs, src/pool.rs)
--   Server/Arrivals       the requests that may call Fluss: those inside the layers, and health checks
--   Server/Auth           `parse_basic_auth` (src/server/auth.rs)
--   Server/Middleware     the layers (src/server/mod.rs)
--   Server/Rest, Rest/*   the handlers (src/server/rest/mod.rs); Rest/Api has a constructor for each
--                         route inside the layers, Rest/Asked what changes each asks for,
--                         Rest/Health the health check, and Rest/Health/Probe its program
--   Server/Lifecycle      `GatewayServer` (src/server/mod.rs) and `main` (src/main.rs)
--   Server/Routes         the table of routes that `app` builds (src/server/mod.rs)
--   Server/ApiDoc, /*     the annotations of the handlers (src/server/rest/mod.rs) and the whole
--                         description with its schemas and its security scheme (src/api_doc.rs)
--   Metrics, Metrics/*    `normalize_path` and the recorder (src/metrics.rs), the samples of a request
--   Examples, Examples/*  a concrete cluster, and the theorems at concrete inputs
--   UnitTests/*           the unit tests of the source on the model
--
-- How state and operations correspond. The state of a running gateway is a `World`: the backend with
-- its pool, and the history of the calls that the Fluss client has received. An async method is an
-- action on it that returns a value, fails with a `GatewayError`, or panics; `?` is the bind of a do
-- block. What the client answers may depend on the whole history, so a cluster with any failures is
-- an instance. The cache is the list of what was inserted in it, together with an external test
-- that says whether it still holds an entry, so that it may drop any entry at any time.
--
-- Concurrency. Each action of a request also has a program (Backend/Program): a tree of the client's
-- calls and of the connections that it takes from the pool, built along the binds of the action. These
-- are the points at which an async function waits. Server/Tasks runs the programs of any requests
-- side by side, one such step at a time and in any order, and also lets a task be dropped, as when its
-- client hangs up, and the pool be closed. A task that opens a connection and one that asks for the
-- same key at this time are not made to share the attempt, as the cache would do it: more is possible
-- here than there. The tasks of the circuit breaker interleave by their critical sections. A whole run
-- of `main` (Server/Lifecycle) takes its requests one after another.
--
-- Bounds and fuel. Native numbers are unbounded; a cast or an addition that wraps in the source
-- wraps here (`as i8`, the counters of the breaker, the attempts, the shifts of the generator). The
-- retry loop takes fuel, and any fuel above `max_retries` is enough.
--
-- Not modelled: parsing by axum and serde, the matching of paths to routes, sockets, signals, logging,
-- time stamps, the metrics exporter, and the texts and examples of the OpenAPI description.
pub mod Base
pub mod Types
pub mod Resilience
pub mod Config
pub mod Fluss
pub mod Gateway
pub mod Metrics
pub mod Pool
pub mod Server
pub mod Backend
pub mod Examples
pub mod UnitTests
