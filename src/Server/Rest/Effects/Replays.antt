-- ===== src/Server/Rest/Effects/Replays.antt =====
-- What a run of requests leaves in Fluss, against what the requests ask for.
use fluss_gateway.Base.{◌≡◌, Option, List, [], ◌∷◌, ◌++◌, ◌⊎◌}
use fluss_gateway.Config.{AuthType}
use fluss_gateway.Fluss.{Externals}
use fluss_gateway.Gateway.Writes.{Write}
use fluss_gateway.Server.Auth.{BasicAuthCredentials}
use fluss_gateway.Server.Rest.Api.{Api}
use fluss_gateway.Server.Rest.Asked.{Asked}

module _ (x : Externals) where
  -- The changes of one request: none, or a first part of what it asks for.
  pub record Part (req : Api) (done : List Write) : Type 0 where
    asked : List Write
    left : List Write
    fits : (asked ≡ []) ⊎ Asked x req asked
    parts : asked ≡ done ++ left

  -- The changes of a run: those of the first request, then those of the others.
  abbrev pub Replays : List (AuthType × (Option BasicAuthCredentials × Api)) → List Write → Type 0
  Replays [] ds = ds ≡ []
  Replays ((auth_type, (ext, req)) ∷ reqs) ds =
      (d : List Write) × (e : List Write) × Part req d × Replays reqs e × (ds ≡ d ++ e)
