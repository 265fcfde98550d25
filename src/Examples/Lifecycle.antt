-- ===== src/Examples/Lifecycle.antt =====
-- A whole run at a concrete configuration and concrete requests.
use fluss_gateway.Base.{text_eq, true, if◌then◌else◌, text, none, some, List, [], ◌∷◌, ok}
use fluss_gateway.Server.Middleware.{Request}
use fluss_gateway.Server.Lifecycle.{Web, Outside}
use fluss_gateway.Server.Rest.Api.{Api}
use fluss_gateway.Examples.{produced}
use fluss_gateway.Examples.Requests.{codecs}

-- Every request is routed to the same write.
abbrev web : Web
web = record {
  codecs = codecs;
  extract = λ req. ok (Api.produce (text "shop") (text "users") produced);
  outside = λ req.
      if text_eq req.path (text "/health") then some (Outside.health 10 (some true)) else none;
  bind = λ addr. ok tt;
  directive = λ d. ok tt;
}

abbrev writing : Request
writing = record {
  method = text "POST";
  path = text "/v1/shop/users/rows";
  content_length = none;
  authorization = some (text "Basic ann:pw");
  extension = none;
}

-- One request of a user, one without credentials, and a deep health check.
abbrev both : List Request
both =
    writing
    ∷ record writing { authorization = none }
    ∷ record writing { path = text "/health"; authorization = none }
    ∷ []
