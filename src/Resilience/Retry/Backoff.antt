-- ===== src/Resilience/Retry/Backoff.antt =====
-- How long the retry loop sleeps.
use fluss_gateway.Base.{
  ℕ, zero, suc, ◌+◌, ◌/◌, ◌%◌, ◌≤◌, ◌≡◌, some, [], ◌∷◌, ltb, max, arith, All, All-append, Result,
  Option-cases, Bool-cases, inl, inr, Result-cases,
}
use fluss_gateway.Resilience.Breaker.{CircuitBreaker, allow_request}
use fluss_gateway.Resilience.Retry.{
  RetryConfig, Run, Outcome, next_backoff, retry_loop, execute_with_retry,
}
use fluss_gateway.Resilience.Retry.Rounds.{round-ok, round-last, round-panic, round-again}

pub next_backoff-le :
    (config : RetryConfig) (backoff seed longer seed' : ℕ)
    → next_backoff config backoff seed ≡ some (longer, seed')
    → longer ≤ config.max_backoff + config.max_backoff / 10
unfolding next_backoff
next_backoff-le config backoff seed longer seed' e = ground arith

module _ {ℓ κ} {T : Type ℓ} {E : Type κ} (config : RetryConfig) (operation : ℕ → Result T E)
    (clock : ℕ → ℕ) where
  -- The longest sleep.
  abbrev pub longest : ℕ
  longest = max config.initial_backoff (config.max_backoff + config.max_backoff / 10)

  abbrev Fits : Outcome T E × Run → Type 0
  Fits o = All (λ s. s ≤ longest) o.1.sleeps

  retry_loop-sleeps :
      (fuel attempt backoff : ℕ) (r : Run)
      → backoff ≤ longest
      → All (λ s. s ≤ longest) r.sleeps
      → Fits (retry_loop config operation clock fuel attempt backoff r)
  unfolding retry_loop
  retry_loop-sleeps zero attempt backoff r b h = h
  retry_loop-sleeps (suc fuel) attempt backoff r b h = elim (Result-cases (operation r.calls)) [
    | inl (t, done) ↦ rw (round-ok config operation clock fuel attempt backoff r t done) h
    | inr (e, failed) ↦ elim (Bool-cases (ltb config.max_retries ((attempt + 1) % 4294967296))) [
      | inl last ↦ rw (round-last config operation clock fuel attempt backoff r e failed last) h
      | inr more ↦ elim (Option-cases (next_backoff config backoff r.seed)) [
        | inl p ↦
            rw (round-panic config operation clock fuel attempt backoff r e failed more p)
              (All-append (λ s. s ≤ longest) r.sleeps (backoff ∷ []) h (b, tt))
        | inr ((longer, seed), p) ↦
            rw
              (round-again config operation clock fuel attempt backoff r e failed longer seed more
                p)
              (retry_loop-sleeps fuel ((attempt + 1) % 4294967296) longer _
                (omega (arith, next_backoff-le config backoff r.seed longer seed p))
                (All-append (λ s. s ≤ longest) r.sleeps (backoff ∷ []) h (b, tt)))
      ]
    ]
  ]

  -- However the call ends, no sleep is longer than the first backoff or than the largest one with a
  -- tenth of it for jitter.
  pub execute_with_retry-sleeps :
      (fuel now : ℕ) (cb : CircuitBreaker) (seed : ℕ)
      → All
          (λ s. s ≤ max config.initial_backoff (config.max_backoff + config.max_backoff / 10))
          (execute_with_retry config operation clock fuel now cb seed).1.sleeps
  unfolding execute_with_retry
  execute_with_retry-sleeps fuel now cb seed = elim (Bool-cases (allow_request now cb).1) [
    | inl allowed ↦ rw allowed (retry_loop-sleeps fuel 0 config.initial_backoff _ (omega arith) tt)
    | inr refused ↦ rw refused tt
  ]
