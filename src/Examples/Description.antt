-- ===== src/Examples/Description.antt =====
-- The application's answer to a concrete request, and its description.
use mathlib.Core.List.{Memᴰ}
use fluss_gateway.Base.{◌≡◌, ◌↔◌, All, Text, true, err, refl, false, text, some, none, ok, [], ◌∷◌}
use fluss_gateway.Fluss.{Externals}
use fluss_gateway.Gateway.{fails, ◌>>=◌}
use fluss_gateway.Pool
use fluss_gateway.Pool.{get_or_create}
use fluss_gateway.Backend
use fluss_gateway.Backend.Read
use fluss_gateway.Server.Rest
use fluss_gateway.Server.Rest.Api.{Api, handle}
use fluss_gateway.Types.Errors.{invalid_operation, unauthorized, error_response}
use fluss_gateway.Server.Middleware.{Request, Response, layered}
use fluss_gateway.Server.Lifecycle.{Web, GatewayServer, app, layered_api}
use fluss_gateway.Server.Lifecycle.Answered.{Answers, app-Answers}
use fluss_gateway.Examples.Requests.{codecs}
use fluss_gateway.Examples.Protection.{fresh, retries}
use fluss_gateway.Examples.Settings.{loaded}
use fluss_gateway.Config.{passthrough}
use fluss_gateway.Server.Routes.{app as routed}
use fluss_gateway.Server.ApiDoc.Statuses.{annotation_of}
use fluss_gateway.Server.ApiDoc.Secured.{basic_auth_iff}
use fluss_gateway.Server.ApiDoc.Documented.{IsRouted, Accounted}
use fluss_gateway.Server.ApiDoc.Document.{
  SecurityScheme, Components, openapi, IsClosed, openapi-IsConsistent,
}
use fluss_gateway.Examples.{cluster, client, start}

-- A cluster whose tables have no primary key.
abbrev logs : Externals
logs = record cluster { client = record client { has_primary_key = λ t. false } }

abbrev finding : Api
finding = Api.lookup (text "shop") (text "events") ((text "id", text "7") ∷ [])

-- Every request is routed to this lookup.
abbrev web : Web
web = record {
  codecs = codecs;
  outside = λ req. none;
  extract = λ req. ok finding;
  bind = λ addr. ok tt;
  directive = λ d. ok tt;
}

abbrev server : GatewayServer
server = record { config = loaded; circuit_breaker = fresh; retry_config = retries }

abbrev asking : Request
asking = record {
  method = text "GET";
  path = text "/v1/shop/events";
  content_length = none;
  authorization = some (text "Basic ann:pw");
  extension = none;
}

abbrev refused : Response
refused = record {
  status = 422;
  error_body =
      some (error_response (invalid_operation (text "lookup requires a primary key table"))).1;
  max_body_size = none;
}

app-Answers_example :
    Answers logs web server asking start none refused (app logs web server asking start).0
unfolding app layered_api layered handle Rest.lookup Read.lookup Backend.table Backend.conn
    get_or_create Pool.new ◌>>=◌ error_response
app-Answers_example = app-Answers logs web server asking start refused refl

basic_auth_iff_example : ((annotation_of Api.list_databases).basic_auth ≡ true) ↔ (
    handle cluster passthrough none Api.list_databases start
    ≡ (err (fails (unauthorized (text "authentication required"))), start))
basic_auth_iff_example = basic_auth_iff cluster Api.list_databases start

-- New schemes stand first.
abbrev adding : Text → SecurityScheme → Components → Components
adding name scheme c = record c { security_schemes = (name, scheme) ∷ c.security_schemes }

openapi-IsConsistent_example :
    All IsRouted (openapi adding).paths × All Accounted routed × IsClosed (openapi adding)
openapi-IsConsistent_example =
    openapi-IsConsistent adding
      (record { declares = λ name scheme c. Memᴰ.head refl; keeps = λ name scheme c. refl })
