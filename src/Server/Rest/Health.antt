-- ===== src/Server/Rest/Health.antt =====
-- `health` of src/server/rest/mod.rs.
pub mod Probe
pub mod Status
use fluss_gateway.Base.{
  ℕ, ◌≡◌, ◌≢◌, ◌↔◌, ◌≤◌, ◌<◌, refl, Bool, true, false, Text, text, Option, none, some, List, Result,
  ok, err, arith, Result-cases, inl, inr, if◌then◌else◌,
}
use fluss_gateway.Types.Errors.{GatewayError, internal}
use fluss_gateway.Resilience.Breaker
use fluss_gateway.Resilience.Breaker.{
  CircuitBreaker, CircuitBreakerConfig, HealthStatus, healthy, degraded, unhealthy, show_status,
}
use fluss_gateway.Fluss.{Call, Externals}
use fluss_gateway.Gateway.{World, Run, Fault, fails, panics}
use fluss_gateway.Backend.{check_health}
use fluss_gateway.Server.Rest.{or_default}

-- The body, without its time stamp; the simple check has the status alone.
pub record HealthBody : Type 0 where
  pub status : Text
  pub fluss : Option Text
  pub circuit_breaker : Option Text

abbrev pub connection : Result (Unit {0}) Fault → Text
connection (ok u) = text "connected"
connection (err e) = text "disconnected"

-- The match on both states; the third arm is for a connection, the fourth for none.
unfoldable pub overall : Result (Unit {0}) Fault → HealthStatus → HealthStatus
overall fluss unhealthy = unhealthy
overall fluss degraded = degraded
overall (ok u) healthy = healthy
overall (err e) healthy = degraded

unfoldable pub status_of : HealthStatus → ℕ
status_of healthy = 200
status_of degraded = 200
status_of unhealthy = 503

module _ (x : Externals) (now : ℕ) (cb : CircuitBreaker) where
  -- An open circuit is not probed.
  unfoldable pub check_fluss_health : World → Result (Unit {0}) Fault × HealthStatus × World
  unfolding check_health Breaker.health
  check_fluss_health w =
      let probed = check_health x w in
      elim (Breaker.health now cb) [
        | unhealthy ↦ (err (fails (internal (text "circuit breaker is open"))), unhealthy, w)
        | status ↦ (probed.0, status, probed.1)
      ]

  abbrev deep_response :
      Result (Unit {0}) Fault → HealthStatus → World → Result (ℕ × HealthBody) Fault × World
  deep_response (err (panics m)) circuit_status w = (err (panics m), w)
  deep_response fluss_status circuit_status w =
      let status = overall fluss_status circuit_status in
      (
        ok (
          status_of status,
          record {
            status = show_status status;
            fluss = some (connection fluss_status);
            circuit_breaker = some (show_status circuit_status);
          },
        ),
        w,
      )

  -- `deep` is the query parameter.
  unfoldable pub health : Option Bool → Run (ℕ × HealthBody)
  unfolding check_fluss_health overall status_of show_status
  health deep w =
      let checked = check_fluss_health w in
      if or_default false deep
      then deep_response checked.0 checked.1 checked.2
      else (ok (200, record { status = text "ok"; fluss = none; circuit_breaker = none }), w)
