-- ===== src/Server/Lifecycle/Explained.antt =====
-- Where every call of a whole run of the gateway comes from.
use fluss_gateway.Base.{
  ◌≡◌, refl, ap, sym, subst, ◌∙◌, inl, inr, Result-cases, Text, Option, Option-cases, none, some,
  List, [], ◌∷◌,
}
use fluss_gateway.Config.{AuthType, AuthConfig, passthrough}
use fluss_gateway.Fluss.{Call, Externals}
use fluss_gateway.Gateway.{World}
use fluss_gateway.Pool.Owned.{IsSound}
use fluss_gateway.Pool.Confined.{Grows, same}
use fluss_gateway.Server.Auth.{BasicAuthCredentials}
use fluss_gateway.Server.Middleware.{Request}
use fluss_gateway.Server.Rest.Access.{passthrough_refuses}
use fluss_gateway.Server.Rest.Api.{Api, handle}
use fluss_gateway.Server.Rest.Confined.{acting, acts_as, handle-Within, handle-Grows}
use fluss_gateway.Server.Rest.Health.Probe.{health-Runs}
use fluss_gateway.Backend.Program.Alone.{Within, starts, run-Within}
use fluss_gateway.Backend.Program.{Does-run}
use fluss_gateway.Server.Rest.Health
use fluss_gateway.Server.Rest
use fluss_gateway.Gateway.{fail, ◌>>=◌}
use fluss_gateway.Server.Lifecycle.Passes.{carried, layered_api-passes, measured-world}
use fluss_gateway.Server.Lifecycle.{
  Web, Outside, health, metrics, elsewhere, GatewayServer, routes, layered_api, outer, app, serve,
}

-- What a request inside the layers may add to the history of calls: in mode "passthrough" nothing if it carries no
-- credentials, and else calls for the account that it acts for.
abbrev pub Permitted :
    Externals
    → AuthType
    → Option BasicAuthCredentials
    → AuthConfig
    → Text
    → List Call
    → List Call
    → Type 0
Permitted x passthrough none auth coordinator t t' = t' ≡ t
Permitted x auth_type ext auth coordinator t t' =
    let (username, password) = acts_as auth_type ext auth in
    Grows x coordinator username password t t'

-- What any request may add: a health check needs no credentials, and its calls are for the account of
-- the start; the other requests outside the layers add nothing.
abbrev pub Adds :
    Externals → Web → Request → Option Outside → AuthConfig → Text → List Call → List Call → Type 0
Adds x web req none auth coordinator t t' =
    Permitted x auth.auth_type (carried web.codecs req) auth coordinator t t'
Adds x web req (some (health now deep)) auth coordinator t t' =
    Grows x coordinator auth.startup_username auth.startup_password t t'
Adds x web req (some o) auth coordinator t t' = t' ≡ t

-- A request that was answered: the pool is sound, the settings are the same, and its calls were
-- permitted.
pub record Served (x : Externals) (May : AuthConfig → Text → List Call → List Call → Type 0)
    (w w' : World) : Type 0 where
  pub sound : IsSound x w'
  pub same_auth : w'.backend.auth ≡ w.backend.auth
  pub same_coordinator : w'.backend.pool.coordinator ≡ w.backend.pool.coordinator
  pub permitted : May w.backend.auth w.backend.pool.coordinator w.trace w'.trace

-- The history of a run falls into parts, one for each request, in their order, each of which the
-- request was permitted.
abbrev pub Explains :
    Externals → Web → AuthConfig → Text → List Request → List Call → List Call → Type 0
Explains x web auth coordinator [] t t' = t' ≡ t
Explains x web auth coordinator (req ∷ reqs) t t' =
    (m : List Call) × Adds x web req (web.outside req) auth coordinator t m
    × Explains x web auth coordinator reqs m t'

module _ (x : Externals) where
  idle-Permitted :
      (auth_type : AuthType) (ext : Option BasicAuthCredentials) (auth : AuthConfig)
      (coordinator : Text) (t : List Call)
      → Permitted x auth_type ext auth coordinator t t
  idle-Permitted passthrough none auth coordinator t = refl
  idle-Permitted passthrough (some c) auth coordinator t = same
  idle-Permitted AuthType.none ext auth coordinator t = same

  -- In passthrough mode, a request without credentials makes no call, on any route.
  refused-trace : (api : Api) (w : World) → (handle x passthrough none api w).1.trace ≡ w.trace
  unfolding handle Rest.prefix_scan ◌>>=◌ fail
  refused-trace (Api.prefix_scan db name params) w = refl
  refused-trace Api.list_databases w =
      ap (λ o. o.1.trace) (passthrough_refuses x Api.list_databases w refl)
  refused-trace api w = ap (λ o. o.1.trace) (passthrough_refuses x api w refl)

  handle-Permitted :
      (auth_type : AuthType) (ext : Option BasicAuthCredentials) (api : Api) (w : World)
      → IsSound x w
      → Permitted x auth_type ext w.backend.auth w.backend.pool.coordinator w.trace
          (handle x auth_type ext api w).1.trace
  handle-Permitted passthrough none api w s = refused-trace api w
  handle-Permitted passthrough (some c) api w s = handle-Grows x passthrough (some c) api w s
  handle-Permitted AuthType.none ext api w s = handle-Grows x AuthType.none ext api w s

  handle-Served :
      (auth_type : AuthType) (ext : Option BasicAuthCredentials) (api : Api) (w : World)
      → IsSound x w
      → Served x (Permitted x auth_type ext) w (handle x auth_type ext api w).1
  handle-Served auth_type ext api w s =
      let after =
        (handle-Within x auth_type ext w api).at w (starts x (acting auth_type ext) w s) in
      record {
        sound = after.sound;
        same_auth = after.same_auth;
        same_coordinator = after.same_coordinator;
        permitted = handle-Permitted auth_type ext api w s;
      }

  module _ (web : Web) (server : GatewayServer) where
    abbrev Serves : Request → World → World → Type 0
    Serves req w w' =
        Served x (Permitted x server.config.auth.auth_type (carried web.codecs req)) w w'

    idle-Serves : (req : Request) (w : World) → IsSound x w → Serves req w w
    idle-Serves req w s = record {
      sound = s;
      same_auth = refl;
      same_coordinator = refl;
      permitted = idle-Permitted _ _ _ _ _;
    }

    routes-Served :
        (req : Request) (w : World)
        → IsSound x w
        → Serves req w (routes x web server (record req { extension = carried web.codecs req }) w).1
    unfolding routes
    routes-Served req w s =
        elim (Result-cases (web.extract (record req { extension = carried web.codecs req }))) [
          | inl (api, e) ↦ rw (e, routes) (handle-Served _ _ api w s)
          | inr (refusal, e) ↦ rw (e, routes) (idle-Serves req w s)
        ]

    -- A request that passes the layers, or is answered by one of them.
    layered_api-Serves :
        (req : Request) (w : World)
        → IsSound x w
        → Serves req w (layered_api x web server req w).1.1
    layered_api-Serves req w s = elim (layered_api-passes x web server req w) [
      | inl (long, e) ↦ rw (ap (λ o. o.1.1) e) (idle-Serves req w s)
      | inr e ↦ rw (ap (λ o. o.1.1) e ∙ measured-world req _) (routes-Served req w s)
    ]

    -- A request outside the layers.
    outer-Served :
        (req : Request) (o : Outside) (w : World)
        → IsSound x w
        → Served x (Adds x web req (some o)) w (outer x web server o w).1
    unfolding outer
    outer-Served req (health now deep) w s =
        let r = health-Runs x now server.circuit_breaker deep in
        let after : Within x none w [] (Health.health x now server.circuit_breaker deep w).1 =
          rw (← Does-run x r.does w)
            (run-Within x none w (Unit {0}) _ r.prog [] w r.safe (starts x none w s)) in
        record {
          sound = after.sound;
          same_auth = after.same_auth;
          same_coordinator = after.same_coordinator;
          permitted = after.grown;
        }
    outer-Served req metrics w s = record {
      sound = s;
      same_auth = refl;
      same_coordinator = refl;
      permitted = refl;
    }
    outer-Served req (elsewhere response) w s = record {
      sound = s;
      same_auth = refl;
      same_coordinator = refl;
      permitted = refl;
    }

    app-Served :
        (req : Request) (w : World)
        → w.backend.auth ≡ server.config.auth
        → IsSound x w
        → Served x (Adds x web req (web.outside req)) w (app x web server req w).1.1
    unfolding app
    app-Served req w set s = elim (Option-cases (web.outside req)) [
      | inl inside ↦
          let one = layered_api-Serves req w s in
          rw (inside, app)
            (record {
              sound = one.sound;
              same_auth = one.same_auth;
              same_coordinator = one.same_coordinator;
              permitted =
                  subst
                    (λ m.
                      Permitted x m (carried web.codecs req) w.backend.auth
                        w.backend.pool.coordinator w.trace
                        (layered_api x web server req w).1.1.trace)
                    (ap (λ (a : AuthConfig). a.auth_type) (sym set)) one.permitted;
            })
      | inr (o, e) ↦ rw (e, app) (outer-Served req o w s)
    ]

    pub serve-Explains :
        (reqs : List Request) (w : World)
        → w.backend.auth ≡ server.config.auth
        → IsSound x w
        → IsSound x (serve x web server reqs w)
          × Explains x web w.backend.auth w.backend.pool.coordinator reqs w.trace
              (serve x web server reqs w).trace
    unfolding serve
    serve-Explains [] w set s = (s, refl)
    serve-Explains (req ∷ reqs) w set s =
        let w' = (app x web server req w).1.1 in
        let one = app-Served req w set s in
        let (sound, rest) = serve-Explains reqs w' (one.same_auth ∙ set) one.sound in
        (sound, (w'.trace, one.permitted, rw (one.same_auth, one.same_coordinator) at rest))
