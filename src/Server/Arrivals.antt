-- ===== src/Server/Arrivals.antt =====
-- The requests that may call Fluss, as their handlers get them (src/server/mod.rs): those of the routes
-- inside the layers, and the health check, which lies outside and carries no credentials.
use fluss_gateway.Base.{ℕ, ◌≡◌, refl, Bool, Text, Option, none, List, []}
use fluss_gateway.Config.{AuthType, AuthConfig}
use fluss_gateway.Resilience.Breaker.{CircuitBreaker}
use fluss_gateway.Fluss.{Externals}
use fluss_gateway.Gateway.{FlussBackend, Run}
use fluss_gateway.Gateway.Writes.{Write}
use fluss_gateway.Backend.{account}
use fluss_gateway.Backend.Program.{Prog, Does}
use fluss_gateway.Backend.Program.Safe.{Safe}
use fluss_gateway.Backend.Program.Emits.{MayEmit}
use fluss_gateway.Backend.Program.Stays.{MayRun}
use fluss_gateway.Backend.Program.Stays.Changes.{MayRun-whole, MayRun-reply}
use fluss_gateway.Server.Auth.{BasicAuthCredentials}
use fluss_gateway.Server.Rest.Api.{Api, Reply, checked, reply, handle}
use fluss_gateway.Server.Rest.Health.{health}
use fluss_gateway.Server.Rest.Health.Probe.{health-Runs}
use fluss_gateway.Server.Rest.Asked.{Asked}
use fluss_gateway.Server.Rest.Confined.{acting, acts_as, account-acting, LetIn, handle-Runs}

-- A request for a route inside the layers with its credentials, and a health check at a time, with the
-- breaker as it stands and the query parameter `deep`.
pub data Arrival : Type 0 where
  request : Api → Option BasicAuthCredentials → Arrival
  check : ℕ → CircuitBreaker → Option Bool → Arrival

-- The credentials that its handler calls Fluss with, and the user and password of that account.
abbrev pub acting_for : AuthType → Arrival → Option BasicAuthCredentials
acting_for auth_type (request api ext) = acting auth_type ext
acting_for auth_type (check now cb deep) = none

abbrev pub user_of : AuthType → Arrival → AuthConfig → Text × Text
user_of auth_type (request api ext) auth = acts_as auth_type ext auth
user_of auth_type (check now cb deep) auth = (auth.startup_username, auth.startup_password)

-- A health check needs no credentials in any mode.
abbrev pub IsLetIn : AuthType → Arrival → Type 0
IsLetIn auth_type (request api ext) = LetIn auth_type ext
IsLetIn auth_type (check now cb deep) = Unit {0}

pub account-acting_for :
    (auth_type : AuthType) (a : Arrival) (b : FlussBackend)
    → account (acting_for auth_type a) b ≡ user_of auth_type a b.auth
account-acting_for auth_type (request api ext) b = account-acting auth_type ext b
account-acting_for auth_type (check now cb deep) b = refl

module _ (x : Externals) where
  -- The changes that it asks for; a health check asks for none.
  abbrev pub Asks : Arrival → List Write → Type 0
  Asks (request api ext) ws = Asked x api ws
  Asks (check now cb deep) ws = ws ≡ []

  module _ (auth_type : AuthType) where
    -- Its handler.
    unfoldable pub act : Arrival → Run Reply
    unfolding handle health
    act (request api ext) = handle x auth_type ext api
    act (check now cb deep) = reply (λ (n, body). checked n body) (health x now cb deep)

    pub act-Runs :
        (a : Arrival) → MayRun x (acting_for auth_type a) (IsLetIn auth_type a) (Asks a) (act a)
    unfolding act
    act-Runs (request api ext) = handle-Runs x auth_type ext api
    act-Runs (check now cb deep) =
        MayRun-reply x none (Unit {0}) (λ ws. ws ≡ []) _ _
          (MayRun-whole x none (Unit {0}) (λ ws. ws ≡ []) _ [] refl (health-Runs x now cb deep))

    -- Its program.
    unfoldable pub program : Arrival → Prog Reply
    program a = (act-Runs a).prog

    pub program-Does : (a : Arrival) → Does x Reply (act a) (program a)
    unfolding program
    program-Does a = (act-Runs a).does

    pub program-Safe :
        (a : Arrival)
        → Safe x (acting_for auth_type a) (IsLetIn auth_type a) (λ hs r. Unit {0}) [] (program a)
    unfolding program
    program-Safe a = (act-Runs a).safe

    pub program-MayEmit : (a : Arrival) → MayEmit (Asks a) (program a)
    unfolding program
    program-MayEmit a = (act-Runs a).emits
