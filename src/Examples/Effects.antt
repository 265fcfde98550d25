-- ===== src/Examples/Effects.antt =====
-- What requests reach and change, at concrete requests.
use fluss_gateway.Base.{true, text, Option, none, some, List, [], ◌∷◌}
use fluss_gateway.Config.{AuthType, passthrough}
use fluss_gateway.Pool
use fluss_gateway.Server.Auth.{BasicAuthCredentials}
use fluss_gateway.Server.Rest.Api.{Api}
use fluss_gateway.Server.Rest.Asked.{Asked}
use fluss_gateway.Server.Rest.Effects.Replays.{Replays}
use fluss_gateway.Examples.{ann, produced}

abbrev storing : Api
storing = Api.produce (text "shop") (text "users") produced

abbrev dropping : Api
dropping = Api.drop_table (text "shop") (text "users") (record { ignore_if_not_exists = true })

abbrev two_requests : List (AuthType × (Option BasicAuthCredentials × Api))
two_requests = (passthrough, (some ann, storing)) ∷ (passthrough, (none, dropping)) ∷ []
