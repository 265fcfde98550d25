-- ===== src/Resilience/Retry/Rounds.antt =====
-- The four ways in which a round of the retry loop goes on, as equations.
use fluss_gateway.Base.{ℕ, suc, ◌+◌, ◌%◌, ◌≡◌, refl, true, false, none, some, ltb, Result, ok, err}
use fluss_gateway.Resilience.Retry.{
  RetryConfig, Run, returned, panicked, next_backoff, retry_loop, after_success, after_failure,
  after_sleep,
}

module _ {ℓ κ} {T : Type ℓ} {E : Type κ} (config : RetryConfig) (operation : ℕ → Result T E)
    (clock : ℕ → ℕ) (fuel attempt backoff : ℕ) (r : Run) where
  pub round-ok :
      (t : T)
      → operation r.calls ≡ ok t
      → retry_loop config operation clock (suc fuel) attempt backoff r
        ≡ (returned (ok t), after_success config operation clock r)
  unfolding retry_loop
  round-ok t h = rw (h, retry_loop)

  module _ (e : E) (failed : operation r.calls ≡ err e) where
    pub round-last :
        ltb config.max_retries ((attempt + 1) % 4294967296) ≡ true
        → retry_loop config operation clock (suc fuel) attempt backoff r
          ≡ (returned (err e), after_failure config operation clock r)
    unfolding retry_loop
    round-last last = rw (failed, retry_loop) (rw last refl)

    pub round-panic :
        ltb config.max_retries ((attempt + 1) % 4294967296) ≡ false
        → next_backoff config backoff r.seed ≡ none
        → retry_loop config operation clock (suc fuel) attempt backoff r ≡ (
          panicked,
          after_sleep config operation clock backoff (after_failure config operation clock r),
        )
    unfolding retry_loop
    round-panic more p = rw (failed, retry_loop) (rw more (rw p refl))

    pub round-again :
        (longer seed : ℕ)
        → ltb config.max_retries ((attempt + 1) % 4294967296) ≡ false
        → next_backoff config backoff r.seed ≡ some (longer, seed)
        → retry_loop config operation clock (suc fuel) attempt backoff r
          ≡ retry_loop config operation clock fuel
              ((attempt + 1) % 4294967296)
              longer
              (record (after_sleep config operation clock backoff
                (after_failure config operation clock r)) { seed = seed })
    unfolding retry_loop
    round-again longer seed more p = rw (failed, retry_loop) (rw more (rw p refl))
