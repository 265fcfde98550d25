-- ===== src/Resilience/Retry/Ends.antt =====
-- When the retry loop ends, whatever the operation does and whether or not a backoff panics.
use fluss_gateway.Base.{
  ℕ, zero, suc, ◌+◌, ◌-◌, ◌%◌, ◌≤◌, ◌<◌, ◌≡◌, ◌≢◌, refl, true, [], arith, ltb, Result, err,
  Result-cases, Option-cases, Bool-cases, inl, inr,
}
use fluss_gateway.Resilience.Breaker.{CircuitBreaker, allow_request}
use fluss_gateway.Resilience.Retry.{
  RetryConfig, Run, Outcome, out_of_fuel, next_backoff, retry_loop, execute_with_retry, after_sleep,
  after_failure,
}
use fluss_gateway.Resilience.Retry.Rounds.{round-ok, round-last, round-panic, round-again}
use fluss_gateway.Resilience.Retry.Outcomes.{NeverPanics}

module _ {ℓ κ} {T : Type ℓ} {E : Type κ} (config : RetryConfig) (operation : ℕ → Result T E)
    (clock : ℕ → ℕ) where
  -- Two runs are the same one, which has ended within `n` calls.
  record Ends (n : ℕ) (o o' : Outcome T E × Run) : Type (ℓ ⊔ κ) where
    same : o ≡ o'
    stops : o.0 ≢ out_of_fuel
    calls : o.1.calls ≤ n

  module _ (small : config.max_retries + 1 < 4294967296) where
    retry_loop-Ends :
        (m fuel fuel' backoff : ℕ) (r : Run)
        → r.calls + m ≡ config.max_retries
        → m < fuel
        → m < fuel'
        → Ends
            (config.max_retries + 1)
            (retry_loop config operation clock fuel r.calls backoff r)
            (retry_loop config operation clock fuel' r.calls backoff r)
    retry_loop-Ends m zero fuel' backoff r sum h h' = absurd (omega arith)
    retry_loop-Ends m (suc fuel) zero backoff r sum h h' = absurd (omega arith)
    retry_loop-Ends m (suc fuel) (suc fuel') backoff r sum h h' =
        elim (Result-cases (operation r.calls)) [
          | inl (t, done) ↦
              rw
                (
                  round-ok config operation clock fuel r.calls backoff r t done,
                  round-ok config operation clock fuel' r.calls backoff r t done,
                )
                (record { same = refl; stops = λ e. cc; calls = omega arith })
          | inr (e, failed) ↦
              elim (Bool-cases (ltb config.max_retries ((r.calls + 1) % 4294967296))) [
                | inl last ↦
                    rw
                      (
                        round-last config operation clock fuel r.calls backoff r e failed last,
                        round-last config operation clock fuel' r.calls backoff r e failed last,
                      )
                      (record { same = refl; stops = λ x. cc; calls = omega arith })
                | inr more ↦ elim (Option-cases (next_backoff config backoff r.seed)) [
                  | inl p ↦
                      rw
                        (
                          round-panic config operation clock fuel r.calls backoff r e failed more p,
                          round-panic config operation clock fuel' r.calls backoff r e failed more
                              p,
                        )
                        (record { same = refl; stops = λ x. cc; calls = omega arith })
                  | inr ((longer, seed), p) ↦
                      let fits : suc r.calls ≤ config.max_retries = ground arith in
                      let r' =
                        record (after_sleep config operation clock backoff
                          (after_failure config operation clock r)) { seed = seed } in
                      let wrapped : (r.calls + 1) % 4294967296 ≡ suc r.calls = omega arith in
                      rw
                        (
                          round-again config operation clock fuel r.calls backoff r e failed longer
                              seed more p,
                          round-again config operation clock fuel' r.calls backoff r e failed longer
                              seed more p,
                        )
                        (rw wrapped (
                          retry_loop-Ends (m - 1) fuel fuel' longer r' (omega arith) (omega arith)
                            (omega arith)))
                ]
              ]
        ]

    -- The loop always ends, whatever the operation answers, and even if a backoff panics: all fuel
    -- above `max_retries` gives the same run, in which the operation has been called at most
    -- `max_retries` + 1 times. (`max_retries` is below the largest `u32`.)
    pub execute_with_retry-ends :
        (fuel now : ℕ) (cb : CircuitBreaker) (seed : ℕ)
        → config.max_retries < fuel
        → (execute_with_retry config operation clock fuel now cb seed
            ≡ execute_with_retry config operation clock (config.max_retries + 1) now cb seed)
          × ((execute_with_retry config operation clock fuel now cb seed).0 ≢ out_of_fuel)
          × ((execute_with_retry config operation clock fuel now cb seed).1.calls
              ≤ config.max_retries + 1)
    unfolding execute_with_retry
    execute_with_retry-ends fuel now cb seed enough = elim (Bool-cases (allow_request now cb).1) [
      | inl allowed ↦
          let ends =
            retry_loop-Ends config.max_retries fuel (config.max_retries + 1) config.initial_backoff
              (record { breaker = (allow_request now cb).0; seed = seed; sleeps = []; calls = 0 })
              (omega arith) enough (omega arith) in
          rw allowed (ends.same, ends.stops, ends.calls)
      | inr refused ↦ rw refused (refl, λ e. cc, omega arith)
    ]

  module _ (largest : config.max_retries ≡ 4294967295) (calm : NeverPanics config)
      (down : (k : ℕ) → (e : E) × (operation k ≡ err e)) where
    retry_loop-spins :
        (fuel attempt backoff : ℕ) (r : Run)
        → (retry_loop config operation clock fuel attempt backoff r).0 ≡ out_of_fuel
    unfolding retry_loop
    retry_loop-spins zero attempt backoff r = refl
    retry_loop-spins (suc fuel) attempt backoff r =
        let (e, failed) = down r.calls in
        elim (Option-cases (next_backoff config backoff r.seed)) [
          | inl p ↦ absurd (calm backoff r.seed p)
          | inr ((longer, seed), p) ↦
              rw
                (round-again config operation clock fuel attempt backoff r e failed longer seed
                  (ground arith) p)
                (retry_loop-spins fuel _ longer _)
        ]

    -- With the largest `u32` as `max_retries` the loop has no end: if the operation always fails and
    -- no backoff panics, a request that the breaker lets through never gets an answer, because the
    -- count of attempts wraps to zero before it exceeds the limit.
    pub execute_with_retry-spins :
        (fuel now : ℕ) (cb : CircuitBreaker) (seed : ℕ)
        → (allow_request now cb).1 ≡ true
        → (execute_with_retry config operation clock fuel now cb seed).0 ≡ out_of_fuel
    unfolding execute_with_retry
    execute_with_retry-spins fuel now cb seed allowed = rw allowed (retry_loop-spins fuel 0 _ _)
