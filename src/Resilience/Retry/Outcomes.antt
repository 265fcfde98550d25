-- ===== src/Resilience/Retry/Outcomes.antt =====
-- What the retry loop returns, and after how many calls, against a plain recursion.
use native.Mathlib.Numerals.{add-one}
use fluss_gateway.Base.{
  ◌∙◌, ℕ, zero, suc, ◌+◌, ◌%◌, ◌≤◌, ◌<◌, ◌≡◌, ◌≢◌, refl, true, none, [], ◌∷◌, arith, length,
  length-append, Result, ok, err, Result-cases, Option-cases, inl, inr,
}
use fluss_gateway.Resilience.Breaker.{CircuitBreaker, allow_request}
use fluss_gateway.Resilience.Retry.{
  RetryConfig, Run, Outcome, returned, next_backoff, retry_loop, execute_with_retry, after_sleep,
  after_failure,
}
use fluss_gateway.Resilience.Retry.Rounds.{round-ok, round-last, round-again}

-- No backoff panics, in the float product or in the sum with the jitter.
abbrev pub NeverPanics : RetryConfig → Type 0
NeverPanics config = (backoff seed : ℕ) → next_backoff config backoff seed ≢ none

module _ {ℓ κ} {T : Type ℓ} {E : Type κ} (operation : ℕ → Result T E) where
  -- Up to `m` retries after the call `k`: the first success or the last error, and how many calls
  -- have then been made.
  unfoldable pub attempts : ℕ → ℕ → Result T E × ℕ
  attempts zero k = (operation k, suc k)
  attempts (suc m) k = elim (operation k) [ ok t ↦ (ok t, suc k) | err e ↦ attempts m (suc k) ]

  attempts-ok : (m k : ℕ) (t : T) → operation k ≡ ok t → attempts m k ≡ (ok t, suc k)
  unfolding attempts
  attempts-ok zero k t h = rw h
  attempts-ok (suc m) k t h = rw (h, attempts)

  attempts-err : (m k : ℕ) (e : E) → operation k ≡ err e → attempts (suc m) k ≡ attempts m (suc k)
  unfolding attempts
  attempts-err m k e h = rw (h, attempts)

  pub attempts-le : (m k : ℕ) → (attempts m k).1 ≤ k + m + 1
  unfolding attempts
  attempts-le zero k = omega arith
  attempts-le (suc m) k = elim (Result-cases (operation k)) [
    | inl (t, h) ↦ rw (attempts-ok (suc m) k t h) (omega arith)
    | inr (e, h) ↦ rw (attempts-err m k e h) (omega (arith, attempts-le m (suc k)))
  ]

  module _ (config : RetryConfig) (clock : ℕ → ℕ) (small : config.max_retries + 1 < 4294967296)
      (calm : NeverPanics config) where
    record Agrees (m k slept : ℕ) (o : Outcome T E × Run) : Type (ℓ ⊔ κ) where
      outcome : o.0 ≡ returned (attempts m k).0
      calls : o.1.calls ≡ (attempts m k).1
      sleeps : length o.1.sleeps + suc k ≡ slept + (attempts m k).1

    Agrees-ok :
        (m fuel backoff : ℕ) (r : Run) (t : T)
        → operation r.calls ≡ ok t
        → Agrees m r.calls
            (length r.sleeps)
            (retry_loop config operation clock (suc fuel) r.calls backoff r)
    Agrees-ok m fuel backoff r t done =
        rw (round-ok config operation clock fuel r.calls backoff r t done) (record {
          outcome = rw (attempts-ok m r.calls t done);
          calls = rw (attempts-ok m r.calls t done);
          sleeps = rw (attempts-ok m r.calls t done);
        })

    -- A round that sleeps is followed by the rest of the recursion.
    Agrees-again :
        (m k slept : ℕ) (o : Outcome T E × Run) (e : E)
        → operation k ≡ err e
        → Agrees m (suc k) (suc slept) o
        → Agrees (suc m) k slept o
    Agrees-again m k slept o e failed a = record {
      outcome = rw (attempts-err m k e failed) a.outcome;
      calls = rw (attempts-err m k e failed) a.calls;
      sleeps = rw (attempts-err m k e failed) (omega (arith, a.sleeps));
    }

    Agrees-last :
        (r r' : Run) (e : E)
        → operation r.calls ≡ err e
        → r'.calls ≡ suc r.calls
        → r'.sleeps ≡ r.sleeps
        → Agrees zero r.calls (length r.sleeps) (returned (err e), r')
    unfolding attempts
    Agrees-last r r' e failed counted slept = record {
      outcome = rw failed;
      calls = counted;
      sleeps = rw slept;
    }

    retry_loop-Agrees :
        (m fuel backoff : ℕ) (r : Run)
        → r.calls + m ≡ config.max_retries
        → m < fuel
        → Agrees m r.calls
            (length r.sleeps)
            (retry_loop config operation clock fuel r.calls backoff r)
    retry_loop-Agrees m zero backoff r sum h = absurd (omega arith)
    retry_loop-Agrees zero (suc fuel) backoff r sum h = elim (Result-cases (operation r.calls)) [
      | inl (t, done) ↦ Agrees-ok zero fuel backoff r t done
      | inr (e, failed) ↦
          rw (round-last config operation clock fuel r.calls backoff r e failed (ground arith))
            (Agrees-last r _ e failed refl refl)
    ]
    retry_loop-Agrees (suc m) (suc fuel) backoff r sum h = elim (Result-cases (operation r.calls)) [
      | inl (t, done) ↦ Agrees-ok (suc m) fuel backoff r t done
      | inr (e, failed) ↦ elim (Option-cases (next_backoff config backoff r.seed)) [
        | inl p ↦ absurd (calm backoff r.seed p)
        | inr ((longer, seed), p) ↦
            let r' =
              record (after_sleep config operation clock backoff
                (after_failure config operation clock r)) { seed = seed } in
            let wrapped : (r.calls + 1) % 4294967296 ≡ suc r.calls = omega arith in
            rw
              (round-again config operation clock fuel r.calls backoff r e failed longer seed
                (ground arith) p)
              (rw wrapped (
                Agrees-again m r.calls (length r.sleeps) _ e failed (
                  rw (length-append r.sleeps (backoff ∷ []) ∙ add-one (length r.sleeps)) at
                    (retry_loop-Agrees m fuel longer r' (omega arith) (omega arith)))))
      ]
    ]

    -- A request that the breaker lets through returns what the plain recursion gives from the first
    -- call, after as many calls, and has slept once between two calls. The fuel has to exceed
    -- `max_retries`, which is below the largest `u32`, and no backoff panics.
    pub execute_with_retry-attempts :
        (fuel now : ℕ) (cb : CircuitBreaker) (seed : ℕ)
        → config.max_retries < fuel
        → (allow_request now cb).1 ≡ true
        → let (outcome, r) = execute_with_retry config operation clock fuel now cb seed in
          (outcome ≡ returned (attempts config.max_retries 0).0)
          × (r.calls ≡ (attempts config.max_retries 0).1)
          × (length r.sleeps + 1 ≡ r.calls)
          × (r.calls ≤ config.max_retries + 1)
    unfolding execute_with_retry
    execute_with_retry-attempts fuel now cb seed enough allowed =
        let a =
          retry_loop-Agrees config.max_retries fuel config.initial_backoff
            (record { breaker = (allow_request now cb).0; seed = seed; sleeps = []; calls = 0 })
            (omega arith) enough in
        rw allowed (
          a.outcome,
          a.calls,
          omega (arith, a.sleeps, a.calls),
          omega (arith, a.calls, attempts-le config.max_retries 0),
        )
