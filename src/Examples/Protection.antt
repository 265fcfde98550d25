-- ===== src/Examples/Protection.antt =====
-- The breaker, the retries and the health check at concrete times.
use fluss_gateway.Base.{
  ℕ, zero, suc, ◌+◌, ◌*◌, ◌/◌, ◌≤◌, ◌≡◌, ◌≢◌, ◌↔◌, ◌⊎◌, refl, max, true, false, Text, text, none,
  some, [], ◌∷◌, length, All, Result, ok, err, arith,
}
use fluss_gateway.Types.Errors.{GatewayError}
use fluss_gateway.Resilience.Breaker
use fluss_gateway.Resilience.Breaker.{
  CircuitBreaker, CircuitBreakerConfig, allow_request, allow_write, record_failure, record_success,
  unhealthy, allow_read, upgrade,
}
use fluss_gateway.Resilience.Breaker.Laws.{
  IsTimed, fail_at, opens_iff, request_at, AllTrue, half_open_admits_all,
}
use fluss_gateway.Resilience.Breaker.Schedule.{
  System, here, next, failure, start, after_failure, Reach-entered, Reach-recovers,
}
use fluss_gateway.Resilience.Retry.{
  next_backoff, RetryConfig, millis, execute_with_retry, returned, out_of_fuel,
}
use fluss_gateway.Resilience.Retry.Ends.{execute_with_retry-ends, execute_with_retry-spins}
use fluss_gateway.Resilience.Retry.Backoff.{execute_with_retry-sleeps}
use fluss_gateway.Resilience.Retry.Outcomes.{attempts, NeverPanics, execute_with_retry-attempts}
use fluss_gateway.Gateway.{fails, panics, ◌>>=◌}
use fluss_gateway.Pool
use fluss_gateway.Pool.{get_or_create}
use fluss_gateway.Backend
use fluss_gateway.Backend.{check_health}
use fluss_gateway.Server.Rest.Health.{HealthBody, health}
use fluss_gateway.Server.Rest.Health.Status.{open_body, health-code, health-new}
use fluss_gateway.Examples
use fluss_gateway.Examples.{cluster}

abbrev config : CircuitBreakerConfig
config = record { failure_threshold = 2; recovery_timeout = 30 }

abbrev pub fresh : CircuitBreaker
fresh = record {
  state = record { failures = 0; last_failure_time = none; is_open = false };
  config = config;
  blocked_count = 0;
  success_count = 0;
  failure_count = 0;
}

abbrev opened_once : CircuitBreaker
opened_once = record fresh {
  state = record { failures = 2; last_failure_time = some 5; is_open = true };
}

opens_iff_example : ((fail_at (4 ∷ 5 ∷ []) (record_success fresh)).state.is_open ≡ true) ↔ (2 ≤ 2)
opens_iff_example = opens_iff fresh (4 ∷ 5 ∷ []) (omega arith) (omega arith)

half_open_admits_all_example : AllTrue (request_at (40 ∷ 41 ∷ []) (allow_write opened_once).0).1
half_open_admits_all_example = half_open_admits_all opened_once (40 ∷ 41 ∷ [])

abbrev failed_once : System
failed_once = after_failure 4 (start config)

Reach-entered_example : IsTimed failed_once.breaker × (failed_once.entered ≤ failed_once.opened)
Reach-entered_example = Reach-entered config failed_once (next here (failure (start config) 4))

abbrev pub retries : RetryConfig
retries = record {
  max_retries = 3;
  initial_backoff = 100 * millis;
  max_backoff = 5000 * millis;
  scale = λ b. some (b * 2);
}

-- Two errors, then a success.
abbrev flaky : ℕ → Result ℕ Text
flaky zero = err (text "down")
flaky (suc zero) = err (text "down")
flaky (suc (suc n)) = ok n

retries-NeverPanics : NeverPanics retries
unfolding next_backoff
retries-NeverPanics backoff seed e = ground arith

execute_with_retry-attempts_example :
    let (outcome, r) = execute_with_retry retries flaky (λ n. n) 4 0 fresh 1 in
    (outcome ≡ returned (attempts flaky 3 0).0)
    × (r.calls ≡ (attempts flaky 3 0).1)
    × (length r.sleeps + 1 ≡ r.calls)
    × (r.calls ≤ 3 + 1)
unfolding allow_request
execute_with_retry-attempts_example =
    execute_with_retry-attempts flaky retries (λ n. n) (omega arith) retries-NeverPanics 4 0 fresh 1
      (omega arith) refl

execute_with_retry-sleeps_example :
    All
      (λ s. s ≤ max (100 * millis) (5000 * millis + 5000 * millis / 10))
      (execute_with_retry retries flaky (λ n. n) 4 0 fresh 1).1.sleeps
execute_with_retry-sleeps_example = execute_with_retry-sleeps retries flaky (λ n. n) 4 0 fresh 1

calm : (m : Text) → (check_health cluster Examples.start).0 ≢ err (panics m)
unfolding check_health ◌>>=◌ Backend.admin Backend.conn get_or_create Pool.new
calm m e = cc

health-code_example :
    ((Breaker.health 10 opened_once ≡ unhealthy)
      × (health cluster 10 opened_once (some true) Examples.start
          ≡ (ok (503, open_body), Examples.start)))
    ⊎ ((Breaker.health 10 opened_once ≢ unhealthy)
        × (body : HealthBody) × (health cluster 10 opened_once (some true) Examples.start
            ≡ (ok (200, body), (check_health cluster Examples.start).1)))
health-code_example = health-code cluster 10 opened_once Examples.start calm

health-new_example :
    (((check_health cluster Examples.start).0 ≡ ok tt)
      × ((health cluster 10 (Breaker.new config) (some true) Examples.start).0
          ≡ ok (
            200,
            record {
              status = text "healthy";
              fluss = some (text "connected");
              circuit_breaker = some (text "healthy");
            },
          )))
    ⊎ ((e : GatewayError) × ((check_health cluster Examples.start).0 ≡ err (fails e))
        × ((health cluster 10 (Breaker.new config) (some true) Examples.start).0
            ≡ ok (
              200,
              record {
                status = text "degraded";
                fluss = some (text "disconnected");
                circuit_breaker = some (text "healthy");
              },
            )))
health-new_example = health-new cluster 10 fresh Examples.start config calm

abbrev tripped : System
tripped = after_failure 5 failed_once

Reach-recovers_example :
    (allow_read 40 tripped.breaker ≡ upgrade)
    × ((allow_write tripped.breaker).1 ≡ true)
    × ((allow_write tripped.breaker).0.state.is_open ≡ false)
unfolding record_failure Breaker.new
Reach-recovers_example =
    Reach-recovers config tripped 40
      (next (next here (failure (start config) 4)) (failure failed_once 5)) refl (omega arith)

execute_with_retry-ends_example :
    (execute_with_retry retries flaky (λ n. n) 9 0 fresh 1
      ≡ execute_with_retry retries flaky (λ n. n) (3 + 1) 0 fresh 1)
    × ((execute_with_retry retries flaky (λ n. n) 9 0 fresh 1).0 ≢ out_of_fuel)
    × ((execute_with_retry retries flaky (λ n. n) 9 0 fresh 1).1.calls ≤ 3 + 1)
execute_with_retry-ends_example =
    execute_with_retry-ends retries flaky (λ n. n) (omega arith) 9 0 fresh 1 (omega arith)

abbrev endless : RetryConfig
endless = record retries { max_retries = 4294967295 }

abbrev failing : ℕ → Result ℕ Text
failing n = err (text "down")

execute_with_retry-spins_example :
    (execute_with_retry endless failing (λ n. n) 9 0 fresh 1).0 ≡ out_of_fuel
unfolding allow_request next_backoff
execute_with_retry-spins_example =
    execute_with_retry-spins endless failing (λ n. n) refl retries-NeverPanics
      (λ k. (text "down", refl)) 9 0 fresh 1 refl
