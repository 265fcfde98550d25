-- ===== src/Server/Lifecycle/Passes.antt =====
-- How a request passes the layers.
use fluss_gateway.Base.{
  true, ℕ, ◌≡◌, refl, ap, ◌∙◌, ◌⊎◌, inl, inr, Bool-cases, Option-cases, Option, none, some, Result,
  ok, err, ltb,
}
use fluss_gateway.Fluss.{Externals}
use fluss_gateway.Gateway.{World, Fault}
use fluss_gateway.Metrics.{samples}
use fluss_gateway.Server.Auth.{BasicAuthCredentials, parse_basic_auth}
use fluss_gateway.Server.Middleware.{
  Codecs, Request, Response, Handler, has_body, header_text, announced, too_large, measured,
  body_limit_middleware, auth_middleware, metrics_middleware, layered,
}
use fluss_gateway.Server.Lifecycle.{Web, GatewayServer, routes, layered_api}

-- The credentials that a request carries in its header.
abbrev pub carried : Codecs → Request → Option BasicAuthCredentials
carried codecs req = elim (header_text codecs req.authorization) [
  | none ↦ none
  | some header ↦ parse_basic_auth codecs.decode header
]

-- The request is a POST or a PUT, and announces more bytes than the limit.
pub record IsTooLong (codecs : Codecs) (limit : ℕ) (req : Request) : Type 0 where
  pub size : ℕ
  pub with_body : has_body req ≡ true
  pub announces : announced codecs req ≡ some size
  pub over : ltb limit size ≡ true

module _ (codecs : Codecs) (next : Handler) (req : Request) (w : World) where
  -- The limit on the body lets a request through or refuses it without touching the state.
  body_limit-out :
      (limit : ℕ)
      → (IsTooLong codecs limit req
          × (body_limit_middleware codecs limit next req w ≡ (ok (too_large limit), w)))
        ⊎ (body_limit_middleware codecs limit next req w ≡ next req w)
  unfolding body_limit_middleware
  body_limit-out limit = elim (Bool-cases (has_body req)) [
    | inr other ↦ rw other (inr refl)
    | inl body ↦ elim (Option-cases (announced codecs req)) [
      | inl unknown ↦ rw (body, unknown) (inr refl)
      | inr (size, known) ↦ elim (Bool-cases (ltb limit size)) [
        | inl large ↦
            let long : IsTooLong codecs limit req = record {
              size = size;
              with_body = body;
              announces = known;
              over = large;
            } in
            inl (long, rw (body, known, large) refl)
        | inr fits ↦ rw (body, known, fits) (inr refl)
      ]
    ]
  ]

  auth_middleware-as :
      (ext : Option BasicAuthCredentials)
      → carried codecs req ≡ ext
      → auth_middleware codecs next (record req { extension = none }) w
        ≡ next (record req { extension = ext }) w
  unfolding auth_middleware
  auth_middleware-as ext e = elim (Option-cases (header_text codecs req.authorization)) [
    | inl missing ↦
        let none_carried : none ≡ ext = rw (missing, carried) at e in
        rw (missing, auth_middleware) (rw (← none_carried) refl)
    | inr (header, given) ↦ elim (Option-cases (parse_basic_auth codecs.decode header)) [
      | inl refused ↦
          let none_carried : none ≡ ext = rw refused at (rw (given, carried) at e) in
          rw (given, auth_middleware, refused) (rw (← none_carried) refl)
      | inr (creds, parsed) ↦
          let these : some creds ≡ ext = rw parsed at (rw (given, carried) at e) in
          rw (given, auth_middleware, parsed) (rw (← these) refl)
    ]
  ]

pub measured-world :
    (req : Request) (out : Result Response Fault × World) → (measured req out).1.1 ≡ out.1
unfolding measured
measured-world req (ok r, w) = refl
measured-world req (err e, w) = refl

module _ (x : Externals) (web : Web) (server : GatewayServer) (req : Request) (w : World) where
  abbrev pub limit : ℕ
  limit = server.config.server.max_body_size

  -- The routes see the request with the credentials that it carries.
  abbrev pub routed : Result Response Fault × World
  routed = routes x web server (record req { extension = carried web.codecs req }) w

  layered_api-out :
      layered_api x web server req w
      ≡ measured req (
          body_limit_middleware web.codecs limit
            (routes x web server)
            (record req { extension = carried web.codecs req })
            w)
  unfolding layered_api layered metrics_middleware measured
  layered_api-out = ap (measured req) (
      auth_middleware-as web.codecs (body_limit_middleware web.codecs limit (routes x web server))
        req w (carried web.codecs req) refl)

  -- The extension of a request has no part in its length.
  too_long :
      IsTooLong web.codecs limit (record req { extension = carried web.codecs req })
      → IsTooLong web.codecs limit req
  unfolding announced
  too_long long = record {
    size = long.size;
    with_body = long.with_body;
    announces = long.announces;
    over = long.over;
  }

  -- A request is refused for its length, or answered by the routes, and its answer is measured.
  pub layered_api-passes :
      (IsTooLong web.codecs limit req
        × (layered_api x web server req w
            ≡ (samples req.method req.path 413, (ok (too_large limit), w))))
      ⊎ (layered_api x web server req w ≡ measured req routed)
  unfolding measured too_large
  layered_api-passes =
      elim (body_limit-out web.codecs (routes x web server)
        (record req { extension = carried web.codecs req }) w limit) [
          | inl (long, e) ↦ inl (too_long long, layered_api-out ∙ ap (measured req) e)
          | inr e ↦ inr (layered_api-out ∙ ap (measured req) e)
        ]
