-- ===== src/Resilience/Breaker.antt =====
-- `CircuitBreaker` of src/resilience.rs. An `Instant` and a `Duration` are numbers of nanoseconds;
-- the time of a call is its argument. A method that holds the lock throughout is one function;
-- `allow_request` takes the lock twice, so it is a read phase and a write phase.
pub mod Laws
pub mod Schedule
use fluss_gateway.Base.{
  ℕ, ◌+◌, ◌-◌, ◌*◌, ◌%◌, ◌^◌, Bool, true, false, Option, none, some, Text, text, ltb, leb,
  if◌then◌else◌,
}

pub data HealthStatus : Type 0 where
  healthy degraded unhealthy : HealthStatus

-- `Display`.
unfoldable pub show_status : HealthStatus → Text
show_status healthy = text "healthy"
show_status degraded = text "degraded"
show_status unhealthy = text "unhealthy"

pub record CircuitState : Type 0 where
  pub failures : ℕ
  pub last_failure_time : Option ℕ
  pub is_open : Bool

abbrev pub new_state : CircuitState
new_state = record { failures = 0; last_failure_time = none; is_open = false }

pub record CircuitBreakerConfig : Type 0 where
  pub failure_threshold : ℕ
  pub recovery_timeout : ℕ

-- `Default`: five failures, thirty seconds.
abbrev pub default_config : CircuitBreakerConfig
default_config = record { failure_threshold = 5; recovery_timeout = 30 * 1000000000 }

pub record CircuitBreaker : Type 0 where
  pub state : CircuitState
  pub config : CircuitBreakerConfig
  pub blocked_count : ℕ
  pub success_count : ℕ
  pub failure_count : ℕ

unfoldable pub new : CircuitBreakerConfig → CircuitBreaker
new config = record {
  state = new_state;
  config = config;
  blocked_count = 0;
  success_count = 0;
  failure_count = 0;
}

-- A `u64` wraps.
abbrev pub u64 : ℕ → ℕ
u64 n = n % 18446744073709551616

-- `last_failure.elapsed() >= recovery_timeout`; `elapsed` stops at zero. No failure, no recovery.
abbrev pub recovered : ℕ → CircuitBreaker → Bool
recovered now cb = elim (cb.state.last_failure_time) [
  | none ↦ false
  | some last_failure ↦ leb cb.config.recovery_timeout (now - last_failure)
]

-- What the read phase of `allow_request` comes to.
pub data Decision : Type 0 where
  admit refuse upgrade : Decision

unfoldable pub allow_read : ℕ → CircuitBreaker → Decision
allow_read now cb =
    if cb.state.is_open then (if recovered now cb then upgrade else refuse) else admit

unfoldable pub block : CircuitBreaker → CircuitBreaker
block cb = record cb { blocked_count = u64 (cb.blocked_count + 1) }

-- The write phase, after the read lock was dropped: another task may have been first.
unfoldable pub allow_write : CircuitBreaker → CircuitBreaker × Bool
unfolding block
allow_write cb =
    if cb.state.is_open
    then (record cb { state = record cb.state { is_open = false } }, true)
    else (block cb, false)

-- `allow_request` with nothing between the two phases.
unfoldable pub allow_request : ℕ → CircuitBreaker → CircuitBreaker × Bool
unfolding allow_read allow_write block
allow_request now cb = elim (allow_read now cb) [
  | admit ↦ (cb, true)
  | refuse ↦ (block cb, false)
  | upgrade ↦ allow_write cb
]

unfoldable pub record_success : CircuitBreaker → CircuitBreaker
record_success cb = record cb {
  state = record cb.state { failures = 0; is_open = false };
  success_count = u64 (cb.success_count + 1);
}

unfoldable pub record_failure : ℕ → CircuitBreaker → CircuitBreaker
record_failure now cb =
    let failures = u64 (cb.state.failures + 1) in
    record cb {
      state = record {
        failures = failures;
        last_failure_time = some now;
        is_open = if leb cb.config.failure_threshold failures then true else cb.state.is_open;
      };
      failure_count = u64 (cb.failure_count + 1);
    }

unfoldable pub health : ℕ → CircuitBreaker → HealthStatus
health now cb =
    if cb.state.is_open
    then (if recovered now cb then degraded else unhealthy)
    else if ltb 0 cb.state.failures
    then degraded
    else healthy
