-- ===== src/UnitTests/Breakers.antt =====
-- The tests of src/resilience.rs. A test starts at a time `t`; between its steps only its sleeps take
-- time.
use fluss_gateway.Base.{
  ℕ, ◌+◌, ◌*◌, ◌≡◌, refl, Bool, true, false, ◌&&◌, not, Text, text, text_eq, ◌==◌, Option, ok,
}
use fluss_gateway.Resilience.Breaker
use fluss_gateway.Resilience.Breaker.{
  CircuitBreaker, HealthStatus, healthy, degraded, unhealthy, show_status, allow_request,
  record_success, record_failure, health,
}
use fluss_gateway.Resilience.Retry
use fluss_gateway.Resilience.Retry.{millis, Outcome, returned, execute_with_retry, initial_seed}

abbrev is_status : HealthStatus → HealthStatus → Bool
is_status a b = text_eq (show_status a) (show_status b)

test_circuit_breaker_healthy_initially : ℕ → Bool
unfolding Breaker.new health allow_request text_eq show_status
test_circuit_breaker_healthy_initially t =
    let cb = Breaker.new Breaker.default_config in
    is_status (health t cb) healthy && (allow_request t cb).1

test_circuit_breaker_healthy_initially_holds :
    (t : ℕ) → test_circuit_breaker_healthy_initially t ≡ true
unfolding test_circuit_breaker_healthy_initially
test_circuit_breaker_healthy_initially_holds t = refl

test_circuit_breaker_opens_after_failures : ℕ → Bool
unfolding Breaker.new health allow_request record_failure text_eq show_status
test_circuit_breaker_opens_after_failures t =
    let cb = record_failure t (
      record_failure t (
        record_failure t
          (Breaker.new (record { failure_threshold = 3; recovery_timeout = 1000 * millis })))) in
    is_status (health t cb) unhealthy && not (allow_request t cb).1

test_circuit_breaker_opens_after_failures_holds : test_circuit_breaker_opens_after_failures 0 ≡ true
unfolding test_circuit_breaker_opens_after_failures
test_circuit_breaker_opens_after_failures_holds = refl

test_circuit_breaker_recovers : ℕ → Bool
unfolding Breaker.new health allow_request record_failure record_success text_eq show_status
test_circuit_breaker_recovers t =
    let cb = record_failure t (
      record_failure t
        (Breaker.new (record { failure_threshold = 2; recovery_timeout = 100 * millis }))) in
    let later = t + 150 * millis in
    let (cb', allowed) = allow_request later cb in
    is_status (health t cb) unhealthy
    && is_status (health later cb) degraded
    && allowed
    && is_status (health later (record_success cb')) healthy

test_circuit_breaker_recovers_holds : test_circuit_breaker_recovers 0 ≡ true
unfolding test_circuit_breaker_recovers
test_circuit_breaker_recovers_holds = refl

-- `result.is_ok()`.
abbrev is_ok : Outcome Text Text → Bool
is_ok (returned (ok t)) = true
is_ok _ = false

test_retry_with_success : (ℕ → Option ℕ) → ℕ → Bool
unfolding Breaker.new execute_with_retry
test_retry_with_success double t =
    let (result, r) =
      execute_with_retry (Retry.default_config double) (λ calls. ok (text "success")) (λ calls. t) 4
        t (Breaker.new Breaker.default_config) initial_seed in
    is_ok result && r.calls == 1

test_retry_with_success_holds :
    (double : ℕ → Option ℕ) (t : ℕ) → test_retry_with_success double t ≡ true
unfolding test_retry_with_success
test_retry_with_success_holds double t = refl
