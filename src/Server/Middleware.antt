-- ===== src/Server/Middleware.antt =====
-- The three layers around the routes, in src/server/mod.rs: the request passes the metrics layer, then
-- the layer that reads the credentials, then the limit on the body.
pub mod Layers
use fluss_gateway.Base.{
  ℕ, ◌||◌, Bool, true, false, Text, text, text_eq, show, Option, none, some, List, [], ◌∷◌, ◌++◌,
  Result, ok, err, parse_nat, ltb, if◌then◌else◌,
}
use fluss_gateway.Types.Errors.{GatewayError, body_limit_too_large, ErrorBody, error_response}
use fluss_gateway.Gateway.{World, Run, Fault}
use fluss_gateway.Metrics.{Sample, samples}
use fluss_gateway.Server.Auth.{BasicAuthCredentials, parse_basic_auth}

-- What the layers read of a request; a header is its first value, as bytes.
pub record Request : Type 0 where
  pub method : Text
  pub path : Text
  pub content_length : Option Text
  pub authorization : Option Text
  -- The credentials among the request's extensions.
  pub extension : Option BasicAuthCredentials

-- A response; the body of a reply of the routes is not read by the layers.
pub record Response : Type 0 where
  pub status : ℕ
  pub error_body : Option ErrorBody
  pub max_body_size : Option Text

-- Of the `http` crate and the base64 engine: `HeaderValue::to_str`, and the decoding.
pub record Codecs : Type 0 where
  pub to_str : Text → Option Text
  pub decode : Text → Option Text

abbrev pub Handler : Type 0
Handler = Request → Run Response

-- The value of a header as text.
abbrev pub header_text : Codecs → Option Text → Option Text
header_text codecs none = none
header_text codecs (some value) = codecs.to_str value

-- `usize` has 64 bits.
abbrev pub usize_max : ℕ
usize_max = 18446744073709551615

-- The length that a request announces, if the header is there and is a number.
unfoldable pub announced : Codecs → Request → Option ℕ
unfolding parse_nat
announced codecs req = elim (header_text codecs req.content_length) [
  | none ↦ none
  | some len ↦ elim (parse_nat usize_max len) [ ok size ↦ some size | err e ↦ none ]
]

abbrev pub has_body : Request → Bool
has_body req = text_eq req.method (text "POST") || text_eq req.method (text "PUT")

unfoldable pub too_large : ℕ → Response
unfolding error_response
too_large max_body_size =
    let (status, body) = error_response (body_limit_too_large max_body_size) in
    record { status = status; error_body = some body; max_body_size = some (show max_body_size) }

module _ (codecs : Codecs) where
  unfoldable pub body_limit_middleware : ℕ → Handler → Handler
  unfolding announced too_large
  body_limit_middleware max_body_size next req w =
      if has_body req
      then elim (announced codecs req) [
        | none ↦ next req w
        | some size ↦
            if ltb max_body_size size then (ok (too_large max_body_size), w) else next req w
      ]
      else next req w

  unfoldable pub auth_middleware : Handler → Handler
  unfolding parse_basic_auth
  auth_middleware next req w = elim (header_text codecs req.authorization) [
    | none ↦ next req w
    | some auth_str ↦ elim (parse_basic_auth codecs.decode auth_str) [
      | none ↦ next req w
      | some creds ↦ next (record req { extension = some creds }) w
    ]
  ]

-- What the layer measured comes back beside the response; a panic measures nothing.
unfoldable pub measured :
    Request → Result Response Fault × World → List Sample × (Result Response Fault × World)
unfolding samples
measured req (ok response, w) = (samples req.method req.path response.status, (ok response, w))
measured req (err e, w) = ([], (err e, w))

unfoldable pub metrics_middleware :
    Handler → Request → World → List Sample × (Result Response Fault × World)
unfolding measured
metrics_middleware next req w = measured req (next req w)

module _ (codecs : Codecs) where
  -- The layers of `app`, the last one added outermost.
  unfoldable pub layered :
      ℕ → Handler → Request → World → List Sample × (Result Response Fault × World)
  unfolding metrics_middleware auth_middleware body_limit_middleware
  layered max_body_size routes =
      metrics_middleware
        (auth_middleware codecs (body_limit_middleware codecs max_body_size routes))
