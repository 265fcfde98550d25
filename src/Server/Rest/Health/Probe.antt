-- ===== src/Server/Rest/Health/Probe.antt =====
-- The program of the health check: it acts for the account of the start.
use fluss_gateway.Base.{
  ◌≡◌, refl, sym, subst, inl, inr, ℕ, Bool, Bool-cases, text, Option, none, some, false, List, [],
  ◌∷◌, Result, ok, err,
}
use fluss_gateway.Resilience.Breaker
use fluss_gateway.Resilience.Breaker.{
  CircuitBreaker, HealthStatus, healthy, degraded, unhealthy, show_status,
}
use fluss_gateway.Types.Errors.{internal}
use fluss_gateway.Fluss.{Externals}
use fluss_gateway.Gateway.{World, Fault, fails, panics}
use fluss_gateway.Gateway.Writes.{written}
use fluss_gateway.Pool.Confined.{handle_of}
use fluss_gateway.Backend.{check_health}
use fluss_gateway.Backend.Program.{Prog, ends, calls, conns, mapped, returns, maps}
use fluss_gateway.Backend.Program.Safe.{Safe}
use fluss_gateway.Backend.Program.Emits.{Emits, none_first}
use fluss_gateway.Backend.Program.Stays.{Runs, Safe-answer, Emits-answer}
use fluss_gateway.Backend.Confined.{step_rules}
use fluss_gateway.Server.Rest.{or_default}
use fluss_gateway.Server.Rest.Health.{
  HealthBody, check_fluss_health, health, deep_response, overall, status_of, connection,
}
use fluss_gateway.Server.Rest.Health.Status.{status-cases}

module _ (x : Externals) where
  check_health-Runs : Runs x none (Unit {0}) [] [] (check_health x)
  unfolding check_health handle_of written
  check_health-Runs = probing tt
    where
      probing : Unit {0} → Runs x none (Unit {0}) [] [] (check_health x)
      probing l = search step_rules

  Safe-mapped :
      {A B : Type 0} (g : Result A Fault → Result B Fault) (p : Prog A) (hs : List ℕ)
      → Safe x none (Unit {0}) (λ hs a. Unit {0}) hs p
      → Safe x none (Unit {0}) (λ hs a. Unit {0}) hs (mapped g p)
  unfolding mapped
  Safe-mapped g (ends r) hs s = Safe-answer x none (Unit {0}) hs (g r) hs
  Safe-mapped g (calls c k) hs (on, s) = (on, λ t. Safe-mapped g (k t) _ (s t))
  Safe-mapped g (conns creds k) hs (e, l, s) = (e, l, λ r. Safe-mapped g (k r) _ (s r))

  Emits-mapped :
      {A B : Type 0} (g : Result A Fault → Result B Fault) (p : Prog A)
      → Emits [] p
      → Emits [] (mapped g p)
  unfolding mapped
  Emits-mapped g (ends r) e = Emits-answer x none (Unit {0}) [] (g r)
  Emits-mapped g (calls c k) (us, e, f) =
      let (quiet, rest) = none_first (written (c ∷ [])) us e in
      (
        us,
        e,
        λ t.
            subst (λ l. Emits l (mapped g (k t))) (sym rest)
              (Emits-mapped g (k t) (subst (λ l. Emits l (k t)) rest (f t))),
      )
  Emits-mapped g (conns creds k) f = λ r. Emits-mapped g (k r) (f r)

  module _ (now : ℕ) (cb : CircuitBreaker) where
    -- What is made of the probe.
    abbrev reported : HealthStatus → Result (Unit {0}) Fault → Result (ℕ × HealthBody) Fault
    reported s (err (panics m)) = err (panics m)
    reported s r = ok (
      status_of (overall r s),
      record {
        status = show_status (overall r s);
        fluss = some (connection r);
        circuit_breaker = some (show_status s);
      },
    )

    deep-reported :
        (r : Result (Unit {0}) Fault) (s : HealthStatus) (w : World)
        → deep_response x now cb r s w ≡ (reported s r, w)
    deep-reported (ok u) s w = refl
    deep-reported (err (fails e)) s w = refl
    deep-reported (err (panics m)) s w = refl

    -- A check that touches nothing.
    idle_check :
        (deep : Option Bool) (r : Result (ℕ × HealthBody) Fault)
        → ((w : World) → health x now cb deep w ≡ (r, w))
        → Runs x none (Unit {0}) [] [] (health x now cb deep)
    idle_check deep r e = record {
      prog = ends r;
      does = returns _ r e;
      safe = Safe-answer x none (Unit {0}) [] r [];
      emits = Emits-answer x none (Unit {0}) [] r;
    }

    probing_check :
        (deep : Option Bool) (s : HealthStatus)
        → ((w : World)
            → health x now cb deep w ≡ (reported s (check_health x w).0, (check_health x w).1))
        → Runs x none (Unit {0}) [] [] (health x now cb deep)
    probing_check deep s e =
        let k = check_health-Runs in
        record {
          prog = mapped (reported s) k.prog;
          does = maps _ _ (reported s) k.prog e k.does;
          safe = Safe-mapped (reported s) k.prog [] k.safe;
          emits = Emits-mapped (reported s) k.prog k.emits;
        }

    pub health-Runs : (deep : Option Bool) → Runs x none (Unit {0}) [] [] (health x now cb deep)
    unfolding health check_fluss_health
    health-Runs deep = elim (Bool-cases (or_default false deep)) [
      | inr shallow ↦
          idle_check deep
            (ok (200, record { status = text "ok"; fluss = none; circuit_breaker = none }))
            (λ w. rw shallow refl)
      | inl d ↦ elim (status-cases (Breaker.health now cb)) [
        | inl h ↦
            idle_check deep
              (reported unhealthy (err (fails (internal (text "circuit breaker is open")))))
              (λ w. rw (d, h, check_fluss_health) refl)
        | inr (inl h) ↦
            probing_check deep healthy
              (λ w. rw (d, h, check_fluss_health) (deep-reported _ healthy _))
        | inr (inr h) ↦
            probing_check deep degraded
              (λ w. rw (d, h, check_fluss_health) (deep-reported _ degraded _))
      ]
    ]
