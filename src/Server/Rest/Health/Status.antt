-- ===== src/Server/Rest/Health/Status.antt =====
-- What the health endpoint reports.
use fluss_gateway.Base.{
  Bool, Bool-cases, Option, false, ℕ, ◌≡◌, ◌≢◌, ◌⊎◌, inl, inr, refl, true, Text, text, some, Result,
  ok, err, Result-cases,
}
use fluss_gateway.Resilience.Breaker
use fluss_gateway.Resilience.Breaker.{
  CircuitBreaker, CircuitBreakerConfig, HealthStatus, healthy, degraded, unhealthy, show_status,
}
use fluss_gateway.Fluss.{Externals}
use fluss_gateway.Gateway.{World, Fault, fails, panics}
use fluss_gateway.Backend.{check_health}
use fluss_gateway.Server.Rest.{or_default}
use fluss_gateway.Server.Rest.Health.{
  HealthBody, check_fluss_health, overall, status_of, health, deep_response,
}
use fluss_gateway.Types.Errors.{GatewayError}

-- The body that an open circuit is reported with.
abbrev pub open_body : HealthBody
open_body = record {
  status = text "unhealthy";
  fluss = some (text "disconnected");
  circuit_breaker = some (text "unhealthy");
}

pub status-cases : (s : HealthStatus) → (s ≡ unhealthy) ⊎ ((s ≡ healthy) ⊎ (s ≡ degraded))
status-cases healthy = inr (inl refl)
status-cases degraded = inr (inr refl)
status-cases unhealthy = inl refl

status_of-cases : (s : HealthStatus) → (status_of s ≡ 200) ⊎ (status_of s ≡ 503)
unfolding status_of
status_of-cases healthy = inl refl
status_of-cases degraded = inl refl
status_of-cases unhealthy = inr refl

module _ (x : Externals) (now : ℕ) (cb : CircuitBreaker) (w : World) where
  deep-status :
      (r : Result (Unit {0}) Fault) (s : HealthStatus) (v : World) (n : ℕ) (body : HealthBody)
      → (deep_response x now cb r s v).0 ≡ ok (n, body)
      → (n ≡ 200) ⊎ (n ≡ 503)
  deep-status (ok u) s v n body h =
      let same : status_of (overall (ok u) s) ≡ n = cc in rw (← same) (status_of-cases _)
  deep-status (err (fails e)) s v n body h =
      let same : status_of (overall (err (fails e)) s) ≡ n = cc in rw (← same) (status_of-cases _)
  deep-status (err (panics m)) s v n body h = cc

  -- A health check that is answered has the status 200 or 503.
  pub health-status :
      (deep : Option Bool) (n : ℕ) (body : HealthBody)
      → (health x now cb deep w).0 ≡ ok (n, body)
      → (n ≡ 200) ⊎ (n ≡ 503)
  unfolding health
  health-status deep n body h = elim (Bool-cases (or_default false deep)) [
    | inl d ↦ deep-status _ _ _ n body (rw d at h)
    | inr d ↦ let h' = rw d at h in inl cc
  ]

  abbrev probed : World
  probed = (check_health x w).1

  probed-code :
      (probe : Result (Unit {0}) Fault) (s : HealthStatus)
      → s ≢ unhealthy
      → ((m : Text) → probe ≢ err (panics m))
      → (body : HealthBody) × (deep_response x now cb probe s probed ≡ (ok (200, body), probed))
  unfolding overall status_of
  probed-code (ok u) healthy n calm = (_, refl)
  probed-code (ok u) degraded n calm = (_, refl)
  probed-code (err (fails e)) healthy n calm = (_, refl)
  probed-code (err (fails e)) degraded n calm = (_, refl)
  probed-code (err (panics m)) s n calm = elim (calm m refl) [ ]
  probed-code (ok u) unhealthy n calm = elim (n refl) [ ]
  probed-code (err (fails e)) unhealthy n calm = elim (n refl) [ ]

  -- The deep health check answers 503 when the breaker is unhealthy, and then it does not touch
  -- Fluss at all; otherwise it probes Fluss and answers 200, whether Fluss could be reached or not.
  -- (The probe does not panic.)
  pub health-code :
      ((m : Text) → (check_health x w).0 ≢ err (panics m))
      → ((Breaker.health now cb ≡ unhealthy)
          × (health x now cb (some true) w ≡ (ok (503, open_body), w)))
        ⊎ ((Breaker.health now cb ≢ unhealthy)
            × (body : HealthBody) × (health x now cb (some true) w
                ≡ (ok (200, body), (check_health x w).1)))
  unfolding health check_fluss_health
  health-code calm = elim (status-cases (Breaker.health now cb)) [
    | inl h ↦ inl (h, rw (h, check_fluss_health) refl)
    | inr (inl h) ↦
        let (body, e) = probed-code (check_health x w).0 healthy (λ e. cc) calm in
        inr (λ e. cc, body, rw (h, check_fluss_health) e)
    | inr (inr h) ↦
        let (body, e) = probed-code (check_health x w).0 degraded (λ e. cc) calm in
        inr (λ e. cc, body, rw (h, check_fluss_health) e)
  ]

  -- The gateway's own breaker, which nothing records a success or a failure in, never leads to a
  -- 503: the deep health check says "healthy" if Fluss could be reached and "degraded" if not, with
  -- the code 200 both times. (The probe does not panic.)
  pub health-new :
      (config : CircuitBreakerConfig)
      → ((m : Text) → (check_health x w).0 ≢ err (panics m))
      → (((check_health x w).0 ≡ ok tt)
          × ((health x now (Breaker.new config) (some true) w).0
              ≡ ok (
                200,
                record {
                  status = text "healthy";
                  fluss = some (text "connected");
                  circuit_breaker = some (text "healthy");
                },
              )))
        ⊎ ((e : GatewayError) × ((check_health x w).0 ≡ err (fails e))
            × ((health x now (Breaker.new config) (some true) w).0
                ≡ ok (
                  200,
                  record {
                    status = text "degraded";
                    fluss = some (text "disconnected");
                    circuit_breaker = some (text "healthy");
                  },
                )))
  unfolding health check_fluss_health Breaker.health Breaker.new overall status_of show_status
  health-new config calm = elim (Result-cases (check_health x w).0) [
    | inl (u, h) ↦ inl (h, rw h refl)
    | inr (fails e, h) ↦ inr (e, h, rw h refl)
    | inr (panics m, h) ↦ elim (calm m h) [ ]
  ]
