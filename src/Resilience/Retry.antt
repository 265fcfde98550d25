-- ===== src/Resilience/Retry.antt =====
-- `execute_with_retry` of src/resilience.rs and its generator of random numbers. A `Duration` is a
-- number of nanoseconds.
mod Rounds
pub mod Backoff
pub mod Outcomes
pub mod Ends
use Prim.Native.Nat.{bit_xor}
use fluss_gateway.Base.{
  ℕ, zero, suc, ◌+◌, ◌*◌, ◌/◌, ◌%◌, ◌^◌, Bool, true, false, Option, none, some, List, [], ◌∷◌, ◌++◌,
  ltb, min, if◌then◌else◌, Result, ok, err,
}
use fluss_gateway.Resilience.Breaker.{
  CircuitBreaker, u64, allow_request, record_success, record_failure,
}

-- `backoff_multiplier` is a float, which only `next_backoff` reads: `scale` stands for it.
pub record RetryConfig : Type 0 where
  pub max_retries : ℕ
  pub initial_backoff : ℕ
  pub max_backoff : ℕ
  -- `Duration::from_secs_f64(backoff.as_secs_f64() * backoff_multiplier)`; `none` is its panic, on a
  -- product that is negative, too large or not a number.
  pub scale : ℕ → Option ℕ

abbrev pub millis : ℕ
millis = 1000000

-- `Default`, where `double` is the multiplication by the float 2.0.
abbrev pub default_config : (ℕ → Option ℕ) → RetryConfig
default_config double = record {
  max_retries = 3;
  initial_backoff = 100 * millis;
  max_backoff = 5000 * millis;
  scale = double;
}

-- The seed of the thread.
abbrev pub initial_seed : ℕ
initial_seed = 0x1234567890abcdef

-- xorshift on a `u64`; the shifts to the left drop the high bits.
unfoldable pub random : ℕ → ℕ
random seed =
    let a = bit_xor seed (u64 (seed * 2 ^ 13)) in
    let b = bit_xor a (a / 2 ^ 7) in bit_xor b (u64 (b * 2 ^ 17))

-- A `Duration` is shorter than this, in nanoseconds; `+=` panics on a longer sum.
abbrev pub duration_end : ℕ
duration_end = 18446744073709551616 * 1000000000

-- The backoff after the one that was just slept, and the seed that is left; `none` is a panic.
unfoldable pub next_backoff : RetryConfig → ℕ → ℕ → Option (ℕ × ℕ)
next_backoff config backoff seed = elim (config.scale backoff) [
  | none ↦ none
  | some scaled ↦
      let base = min scaled config.max_backoff in
      let jitter = u64 (base / millis) / 10 in
      let drawn = random seed in
      let longer = base + drawn % jitter % 4294967296 * millis in
      if ltb 0 jitter
      then (if ltb longer duration_end then some (longer, drawn) else none)
      else some (base, seed)
]

-- What the loop has done: the durations that it slept, and its calls of the operation.
pub record Run : Type 0 where
  pub breaker : CircuitBreaker
  pub seed : ℕ
  pub sleeps : List ℕ
  pub calls : ℕ

-- `out_of_fuel` is the model's own; with more fuel than `max_retries` it does not occur.
pub data Outcome {ℓ κ} (T : Type ℓ) (E : Type κ) : Type (ℓ ⊔ κ) where
  returned : Result T E → Outcome T E
  panicked : Outcome T E
  out_of_fuel : Outcome T E

-- The operation answers by the number of calls before; `clock` is the time of that call's end.
module _ {ℓ κ} {T : Type ℓ} {E : Type κ} (config : RetryConfig) (operation : ℕ → Result T E)
    (clock : ℕ → ℕ) where
  abbrev pub after_success : Run → Run
  after_success r = record r { breaker = record_success r.breaker; calls = suc r.calls }

  abbrev pub after_failure : Run → Run
  after_failure r = record r {
    breaker = record_failure (clock r.calls) r.breaker;
    calls = suc r.calls;
  }

  abbrev pub after_sleep : ℕ → Run → Run
  after_sleep backoff r = record r { sleeps = r.sleeps ++ backoff ∷ [] }

  -- `attempt` is a `u32`.
  unfoldable pub retry_loop : ℕ → ℕ → ℕ → Run → Outcome T E × Run
  unfolding next_backoff
  retry_loop zero attempt backoff r = (out_of_fuel, r)
  retry_loop (suc fuel) attempt backoff r = elim (operation r.calls) [
    | ok t ↦ (returned (ok t), after_success r)
    | err e ↦ elim (ltb config.max_retries ((attempt + 1) % 4294967296)) [
      | true ↦ (returned (err e), after_failure r)
      | false ↦ elim (next_backoff config backoff r.seed) [
        | none ↦ (panicked, after_sleep backoff (after_failure r))
        | some (longer, seed) ↦
            retry_loop fuel ((attempt + 1) % 4294967296) longer
              (record (after_sleep backoff (after_failure r)) { seed = seed })
      ]
    ]
  ]

  -- A request that the breaker refuses panics.
  unfoldable pub execute_with_retry : ℕ → ℕ → CircuitBreaker → ℕ → Outcome T E × Run
  unfolding retry_loop allow_request
  execute_with_retry fuel now cb seed =
      let (cb', allowed) = allow_request now cb in
      let r : Run = record { breaker = cb'; seed = seed; sleeps = []; calls = 0 } in
      if allowed then retry_loop fuel 0 config.initial_backoff r else (panicked, r)
