-- ===== src/Resilience/Breaker/Laws.antt =====
-- What the breaker's calls do one after another.
use fluss_gateway.Base.{
  ℕ, suc, ◌+◌, ◌-◌, ◌≤◌, ◌<◌, ◌≡◌, ◌≢◌, ◌↔◌, refl, Bool, true, false, none, List, [], ◌∷◌, length,
  leb, arith,
}
use fluss_gateway.Resilience.Breaker.{
  CircuitBreaker, CircuitBreakerConfig, unhealthy, new, allow_write, allow_request, record_success,
  record_failure, health,
}

-- An open circuit knows when it failed last.
pub record IsTimed (cb : CircuitBreaker) : Type 0 where
  pub timed : cb.state.is_open ≡ true → cb.state.last_failure_time ≢ none

pub IsTimed-new : (config : CircuitBreakerConfig) → IsTimed (new config)
unfolding new
IsTimed-new config = record { timed = λ e. cc }

-- A request is let through exactly when the health that the breaker reports at that time is not
-- `unhealthy`.
pub allow_request-health :
    (now : ℕ) (cb : CircuitBreaker)
    → ((allow_request now cb).1 ≡ true) ↔ (health now cb ≢ unhealthy)
unfolding allow_request health
allow_request-health now cb = (λ h e. ground arith, λ h. ground arith)

-- The failures at the given times, in order.
abbrev pub fail_at : List ℕ → CircuitBreaker → CircuitBreaker
fail_at [] cb = cb
fail_at (now ∷ times) cb = fail_at times (record_failure now cb)

module _ (cb : CircuitBreaker) (k : ℕ) (counted : cb.state.failures ≡ k) where
  fail-counted :
      (now : ℕ) → k + 1 < 18446744073709551616 → (record_failure now cb).state.failures ≡ suc k
  unfolding record_failure
  fail-counted now small = ground arith

  fail-open :
      (now : ℕ)
      → cb.state.is_open ≡ leb cb.config.failure_threshold k
      → k + 1 < 18446744073709551616
      → (record_failure now cb).state.is_open ≡ leb cb.config.failure_threshold (suc k)
  unfolding record_failure
  fail-open now o small = ground arith

fail-config : (now : ℕ) (cb : CircuitBreaker) → (record_failure now cb).config ≡ cb.config
unfolding record_failure
fail-config now cb = refl

fail_at-open :
    (times : List ℕ) (cb : CircuitBreaker) (k : ℕ)
    → cb.state.failures ≡ k
    → cb.state.is_open ≡ leb cb.config.failure_threshold k
    → k + length times < 18446744073709551616
    → (fail_at times cb).state.is_open ≡ leb cb.config.failure_threshold (k + length times)
fail_at-open [] cb k c o small = ground arith
fail_at-open (now ∷ times) cb k c o small = ground (
  arith,
  fail-counted cb k c now (omega arith),
  fail-open cb k c now o (omega arith),
  fail-config now cb,
  fail_at-open times (record_failure now cb) (suc k),
)

-- After a success, a run of consecutive failures opens the circuit exactly when it is as long as
-- the threshold (which is not zero; the run has fewer than 2^64 failures).
pub opens_iff :
    (cb : CircuitBreaker) (times : List ℕ)
    → 0 < cb.config.failure_threshold
    → length times < 18446744073709551616
    → ((fail_at times (record_success cb)).state.is_open ≡ true)
      ↔ (cb.config.failure_threshold ≤ length times)
unfolding record_success
opens_iff cb times p small =
    let e = fail_at-open times (record_success cb) 0 refl (ground arith) (omega arith) in
    (λ h. ground arith, λ h. ground arith)

-- While a circuit is open, requests are refused exactly until the recovery timeout has passed since
-- the last recorded failure, whose time is `t`.
pub blocked_until_recovery :
    (cb : CircuitBreaker) (t now : ℕ)
    → (record_failure t cb).state.is_open ≡ true
    → ((allow_request now (record_failure t cb)).1 ≡ false) ↔ (now - t < cb.config.recovery_timeout)
unfolding allow_request record_failure
blocked_until_recovery cb t now o = (λ h. ground arith, λ h. ground arith)

-- Requests at the given times, one after another: whether each was let through.
abbrev pub request_at : List ℕ → CircuitBreaker → CircuitBreaker × List Bool
request_at [] cb = (cb, [])
request_at (now ∷ times) cb =
    let (cb', answer) = allow_request now cb in
    let (cb'', answers) = request_at times cb' in (cb'', answer ∷ answers)

abbrev pub AllTrue : List Bool → Type 0
AllTrue [] = Unit
AllTrue (b ∷ bs) = (b ≡ true) × AllTrue bs

closed-allow :
    (now : ℕ) (cb : CircuitBreaker)
    → cb.state.is_open ≡ false
    → ((allow_request now cb).1 ≡ true) × ((allow_request now cb).0.state.is_open ≡ false)
unfolding allow_request
closed-allow now cb o = ground arith

closed-all :
    (times : List ℕ) (cb : CircuitBreaker)
    → cb.state.is_open ≡ false
    → AllTrue (request_at times cb).1
closed-all [] cb o = tt
closed-all (now ∷ times) cb o =
    let (answer, still) = closed-allow now cb o in
    (answer, closed-all times (allow_request now cb).0 still)

pub write-closed : (cb : CircuitBreaker) → (allow_write cb).0.state.is_open ≡ false
unfolding allow_write
write-closed cb = ground arith

-- Half-open is not limited to one request: once a request has passed the write phase, every later
-- request, however many and whenever, is let through until a failure is recorded.
pub half_open_admits_all :
    (cb : CircuitBreaker) (times : List ℕ) → AllTrue (request_at times (allow_write cb).0).1
half_open_admits_all cb times = closed-all times (allow_write cb).0 (write-closed cb)
