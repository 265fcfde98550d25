-- ===== src/Examples/Pools.antt =====
-- Connections and credentials at concrete requests.
use fluss_gateway.Base.{◌≡◌, Text, text, Option, none, some, List, [], ◌∷◌}
use fluss_gateway.Config.{AuthType, passthrough, default_auth, default_pool}
use fluss_gateway.Gateway.{World}
use fluss_gateway.Pool
use fluss_gateway.Pool.{close, conn_config, with_entries}
use fluss_gateway.Backend
use fluss_gateway.Backend.Admin
use fluss_gateway.Server.Auth.{BasicAuthCredentials}
use fluss_gateway.Server.Rest
use fluss_gateway.Server.Rest.{extract_creds}
use fluss_gateway.Server.Rest.Access.{none_ignores}
use fluss_gateway.Server.Rest.Api.{Api, list_databases, produce, handle}
use fluss_gateway.Server.Rest.Isolation.{serve}
use fluss_gateway.Examples.{cluster, start, ann, produced}

abbrev ann_key : Text
ann_key = text "ann:"

abbrev served : List (AuthType × (Option BasicAuthCredentials × Api))
served = (passthrough, (some ann, list_databases)) ∷ []

abbrev after : World
after =
    serve cluster served
      (Backend.new cluster (text "localhost:9123") default_auth default_pool []).1

none_ignores_example :
    handle cluster AuthType.none (some ann) (produce (text "shop") (text "users") produced) start
    ≡ handle cluster AuthType.none none (produce (text "shop") (text "users") produced) start
none_ignores_example =
    none_ignores cluster (produce (text "shop") (text "users") produced) (some ann) start
