-- ===== src/Server/Lifecycle/Answered.antt =====
-- What the whole application answers, and what it counts.
use fluss_gateway.Base.{
  ℕ, ◌≡◌, ◌⊎◌, refl, ap, sym, subst, ◌∙◌, inl, inr, Result-cases, Option, Option-cases, none, some,
  List, Result, ok, err, [],
}
use fluss_gateway.Types.Errors.{error_response}
use fluss_gateway.Fluss.{Externals}
use fluss_gateway.Gateway.{World, Fault, fails, panics}
use fluss_gateway.Metrics.{Sample, samples}
use fluss_gateway.Server.Middleware.{Request, Response, measured, too_large}
use fluss_gateway.Server.Rest.Api.{Api, Reply, handle}
use fluss_gateway.Server.Routes.{answer_status}
use fluss_gateway.Server.ApiDoc.Answers.{IsExpected, handle-IsExpected}
use fluss_gateway.Server.Lifecycle.{
  Web, Outside, health, metrics, elsewhere, GatewayServer, respond, checked_response, routes,
  layered_api, outer, app,
}
use fluss_gateway.Server.Rest.Health
use fluss_gateway.Server.Rest.Health.{HealthBody}
use fluss_gateway.Server.Rest.Health.Status.{health-status}
use fluss_gateway.Server.Lifecycle.Passes.{IsTooLong, carried, limit, routed, layered_api-passes}

abbrev status_of : Result Response Fault → Option ℕ
status_of (ok r) = some r.status
status_of (err e) = none

respond-status : (a : Result Reply Fault) → answer_status a ≡ status_of (respond a)
unfolding respond answer_status error_response
respond-status (ok reply) = refl
respond-status (err (fails e)) = refl
respond-status (err (panics m)) = refl

abbrev Counts : Request → Result Response Fault → List Sample → Type 0
Counts req (ok r) counted = counted ≡ samples req.method req.path r.status
Counts req (err e) counted = counted ≡ []

measured-Counts :
    (req : Request) (out : Result Response Fault × World)
    → (out ≡ (measured req out).1) × Counts req out.0 (measured req out).0
unfolding measured
measured-Counts req (ok r, w) = (refl, refl)
measured-Counts req (err e, w) = (refl, refl)

abbrev answer : Response → Result Response Fault
answer r = ok r

ap-ok : (a b : Response) → answer a ≡ answer b → a ≡ b
ap-ok a b h = cc

module _ (x : Externals) (web : Web) (server : GatewayServer) (req : Request) (w : World) where
  -- Where the response to a request comes from: the limit on the body, the extractors, or a
  -- handler.
  pub data Origin (r : Response) : Type 0 where
    refused :
        IsTooLong web.codecs (limit x web server req w) req
        → r ≡ too_large (limit x web server req w)
        → Origin r
    rejected : web.extract (record req { extension = carried web.codecs req }) ≡ err r → Origin r
    handled :
        (api : Api)
        → web.extract (record req { extension = carried web.codecs req }) ≡ ok api
        → IsExpected api r.status
        → Origin r

  routed-Origin : (r : Response) → (routed x web server req w).0 ≡ ok r → Origin r
  unfolding routes
  routed-Origin r h =
      elim (Result-cases (web.extract (record req { extension = carried web.codecs req }))) [
        | inl (api, e) ↦
            let auth_type = server.config.auth.auth_type in
            let answer = (handle x auth_type (carried web.codecs req) api w).0 in
            let same : respond answer ≡ ok r = rw (e, routes) at h in
            Origin.handled api e (
              handle-IsExpected x auth_type (carried web.codecs req) api w r.status
                (respond-status answer ∙ ap status_of same))
        | inr (refusal, e) ↦
            let same : ok refusal ≡ ok r = rw (e, routes) at h in
            let that : refusal ≡ r = cc in Origin.rejected (e ∙ ap err that)
      ]

  layered_api-Origin :
      (r : Response)
      → (layered_api x web server req w).1.0 ≡ ok r
      → ((layered_api x web server req w).0 ≡ samples req.method req.path r.status) × Origin r
  unfolding too_large
  layered_api-Origin r h = elim (layered_api-passes x web server req w) [
    | inl (long, e) ↦
        let that : too_large (limit x web server req w) ≡ r =
          ap-ok _ _ (sym (ap (λ o. o.1.0) e) ∙ h) in
        (rw (← that) (ap (λ o. o.0) e), Origin.refused long (sym that))
    | inr e ↦
        let (same, counting) = measured-Counts req (routed x web server req w) in
        let out : (routed x web server req w).0 ≡ ok r =
          ap (λ o. o.0) same ∙ sym (ap (λ o. o.1.0) e) ∙ h in
        let counted =
          subst (λ o. Counts req o (measured req (routed x web server req w)).0) out counting in
        (ap (λ o. o.0) e ∙ counted, routed-Origin r out)
  ]

  checked-status :
      (r : Response) (out : Result (ℕ × HealthBody) Fault)
      → ((n : ℕ) (body : HealthBody) → out ≡ ok (n, body) → (n ≡ 200) ⊎ (n ≡ 503))
      → checked_response out ≡ ok r
      → (r.status ≡ 200) ⊎ (r.status ≡ 503)
  checked-status r (ok (n, body)) h e =
      subst (λ m. (m ≡ 200) ⊎ (m ≡ 503)) (ap (λ (a : Response). a.status) (ap-ok _ r e))
        (h n body refl)
  checked-status r (err f) h e = cc

  -- What the application answers and counts, by what the request is for. Inside the layers: the samples
  -- are those of the request's method and path and of the status of the response, which has an origin.
  -- Outside nothing is counted, and a health check has the status 200 or 503.
  abbrev pub Answers : Option Outside → Response → List Sample → Type 0
  Answers none r counted = (counted ≡ samples req.method req.path r.status) × Origin r
  Answers (some (health now deep)) r counted =
      (counted ≡ []) × ((r.status ≡ 200) ⊎ (r.status ≡ 503))
  Answers (some metrics) r counted = (counted ≡ []) × (r.status ≡ 200)
  Answers (some (elsewhere response)) r counted = (counted ≡ []) × (r ≡ response)

  outer-Answers :
      (o : Outside) (r : Response) → (outer x web server o w).0 ≡ ok r → Answers (some o) r []
  unfolding outer
  outer-Answers (health now deep) r h = (
    refl,
    checked-status r (Health.health x now server.circuit_breaker deep w).0
        (λ n body e. health-status x now server.circuit_breaker w deep n body e) h,
  )
  outer-Answers metrics r h = (refl, ap (λ (a : Response). a.status) (sym (ap-ok _ r h)))
  outer-Answers (elsewhere response) r h = (refl, sym (ap-ok response r h))

  -- Whatever response the application gives. To a request inside the layers: the samples that it counts
  -- are those of the request's method and path and of the status of this response; and it is the
  -- refusal of a POST or PUT that announces too long a body, or the refusal of the extractors, or it has
  -- a status that the description lists for the function that the request is routed to, but a lookup, a
  -- batch of lookups and a request that writes rows may also be answered with 422. To a request outside
  -- the layers: nothing is counted; the metrics are answered with 200, and the health check with 200 or
  -- 503.
  pub app-Answers :
      (r : Response)
      → (app x web server req w).1.0 ≡ ok r
      → Answers (web.outside req) r (app x web server req w).0
  unfolding app
  app-Answers r h = elim (Option-cases (web.outside req)) [
    | inl inside ↦ rw (inside, app) (layered_api-Origin r (rw (inside, app) at h))
    | inr (o, e) ↦ rw (e, app) (outer-Answers o r (rw (e, app) at h))
  ]
