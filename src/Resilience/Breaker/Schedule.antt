-- ===== src/Resilience/Breaker/Schedule.antt =====
-- Tasks that share one breaker, in any order of their critical sections. Between the read phase of
-- `allow_request` and its write phase a task holds no lock.
use fluss_gateway.Base.{
  ℕ, suc, ◌+◌, ◌-◌, ◌≤◌, ◌<◌, ◌≡◌, Bool, true, false, arith, not, ◌&&◌, none, some, Option-cases,
  inl, inr,
}
use fluss_gateway.Resilience.Breaker.{
  CircuitBreaker, CircuitBreakerConfig, new, admit, refuse, upgrade, allow_read, allow_write,
  record_success, record_failure, block,
}
use fluss_gateway.Resilience.Breaker.Laws.{IsTimed, IsTimed-new, write-closed}

-- `waiting` counts the tasks between their two phases, `entered` the requests that a write phase
-- let through, and `opened` how often a failure turned a closed circuit into an open one.
pub record System : Type 0 where
  pub breaker : CircuitBreaker
  pub waiting : ℕ
  pub entered : ℕ
  pub opened : ℕ

abbrev pub start : CircuitBreakerConfig → System
start config = record { breaker = new config; waiting = 0; entered = 0; opened = 0 }

abbrev bit : Bool → ℕ
bit true = 1
bit false = 0

abbrev pub after_write : System → System
after_write s =
    let (breaker, passed) = allow_write s.breaker in
    record {
      breaker = breaker;
      waiting = s.waiting - 1;
      entered = s.entered + bit passed;
      opened = s.opened;
    }

abbrev pub after_failure : ℕ → System → System
after_failure now s =
    let breaker = record_failure now s.breaker in
    record s {
      breaker = breaker;
      opened = s.opened + bit (breaker.state.is_open && not s.breaker.state.is_open);
    }

-- One critical section of some task, at a time `now` of its own.
pub data Step : System → System → Type 0 where
  read_admit : (s : System) (now : ℕ) → allow_read now s.breaker ≡ admit → Step s s
  read_refuse :
      (s : System) (now : ℕ)
      → allow_read now s.breaker ≡ refuse
      → Step s (record s { breaker = block s.breaker })
  read_upgrade :
      (s : System) (now : ℕ)
      → allow_read now s.breaker ≡ upgrade
      → Step s (record s { waiting = suc s.waiting })
  write : (s : System) → 0 < s.waiting → Step s (after_write s)
  success : (s : System) → Step s (record s { breaker = record_success s.breaker })
  failure : (s : System) (now : ℕ) → Step s (after_failure now s)

pub data Reach (s : System) : System → Type 0 where
  here : Reach s s
  next : {t u : System} → Reach s t → Step t u → Reach s u

record Inv (s : System) : Type 0 where
  timed : IsTimed s.breaker
  -- A circuit that is open now has been entered less often than opened.
  balanced : s.entered + bit s.breaker.state.is_open ≤ s.opened

Step-Inv : {s t : System} → Step s t → Inv s → Inv t
unfolding allow_write record_success record_failure block
Step-Inv (read_admit s now e) h = h
Step-Inv (read_refuse s now e) h = ground arith
Step-Inv (read_upgrade s now e) h = ground arith
Step-Inv (write s p) h = ground arith
Step-Inv (success s) h = ground arith
Step-Inv (failure s now) h = ground arith

Reach-Inv : {s t : System} → Reach s t → Inv s → Inv t
Reach-Inv here h = h
Reach-Inv (next r st) h = Step-Inv st (Reach-Inv r h)

start-Inv : (config : CircuitBreakerConfig) → Inv (start config)
unfolding new
start-Inv config = record { timed = IsTimed-new config; balanced = omega arith }

-- Whatever the interleaving of the tasks, from a new breaker: an open circuit has the time of a
-- failure, and the write phase lets at most one request through for each time the circuit opened.
pub Reach-entered :
    (config : CircuitBreakerConfig) (s : System)
    → Reach (start config) s
    → IsTimed s.breaker × (s.entered ≤ s.opened)
Reach-entered config s r = let h = Reach-Inv r (start-Inv config) in (h.timed, omega arith)

-- The time of the last failure.
abbrev pub failed_at : CircuitBreaker → ℕ
failed_at cb = elim (cb.state.last_failure_time) [ none ↦ 0 | some t ↦ t ]

-- Once the recovery timeout has passed since then, the read phase asks for the upgrade.
recovers :
    (now : ℕ) (cb : CircuitBreaker)
    → IsTimed cb
    → cb.state.is_open ≡ true
    → failed_at cb + cb.config.recovery_timeout ≤ now
    → allow_read now cb ≡ upgrade
unfolding allow_read
recovers now cb timed o late = elim (Option-cases (cb.state.last_failure_time)) [
  | inl unknown ↦ absurd (timed.timed o unknown)
  | inr (t, known) ↦ rw o (rw known (ground (arith, known)))
]

open-write : (cb : CircuitBreaker) → cb.state.is_open ≡ true → (allow_write cb).1 ≡ true
unfolding allow_write
open-write cb o = ground arith

-- Whatever happened before in whatever order, and however many tasks are between their two phases:
-- an open circuit can be closed again by a request at any time from the end of the recovery timeout
-- on. Its read phase asks for the upgrade, and if its write phase follows at once, it lets the request
-- through and closes the circuit.
pub Reach-recovers :
    (config : CircuitBreakerConfig) (s : System) (now : ℕ)
    → Reach (start config) s
    → s.breaker.state.is_open ≡ true
    → failed_at s.breaker + s.breaker.config.recovery_timeout ≤ now
    → (allow_read now s.breaker ≡ upgrade)
      × ((allow_write s.breaker).1 ≡ true)
      × ((allow_write s.breaker).0.state.is_open ≡ false)
Reach-recovers config s now r o late = (
  recovers now s.breaker (Reach-Inv r (start-Inv config)).timed o late,
  open-write s.breaker o,
  write-closed s.breaker,
)
