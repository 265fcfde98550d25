-- ===== src/Server/Middleware/Layers.antt =====
-- What the layers let through.
use fluss_gateway.Base.{
  ℕ, ◌≡◌, ◌≤◌, ◌⊎◌, ◌≢◌, inl, inr, refl, ap, ◌∙◌, true, false, Bool, none, text_eq_sound, Text,
  text, text_eq, show, ltb, if◌then◌else◌, Option, some, [], ◌∷◌, Result, ok, parse_nat-show,
  Bool-cases, Option-cases,
}
use fluss_gateway.Gateway.{World, Fault}
use fluss_gateway.Metrics.{samples, http_request, http_request_duration, error, normalize_path}
use fluss_gateway.Server.Auth.{BasicAuthCredentials, parse_basic_auth}
use fluss_gateway.Server.Middleware.{
  Request, Response, Codecs, Handler, usize_max, has_body, header_text, announced, too_large,
  body_limit_middleware, auth_middleware, metrics_middleware, measured, layered,
}

-- What the outermost layer makes of a response.
module _ (req : Request) (w : World) where
  metrics_middleware-response :
      (next : Handler) (response : Response) (w' : World)
      → next req w ≡ (ok response, w')
      → metrics_middleware next req w
        ≡ (samples req.method req.path response.status, (ok response, w'))
  unfolding metrics_middleware
  metrics_middleware-response next response w' h = ap (measured req) h

  metrics_middleware-same :
      (next other : Handler)
      → next req w ≡ other req w
      → metrics_middleware next req w ≡ metrics_middleware other req w
  unfolding metrics_middleware
  metrics_middleware-same next other h = ap (measured req) h

-- The credentials layer passes on the request as it is, but for the extension.
module _ (codecs : Codecs) (req : Request) (w : World) where
  auth_middleware-out :
      (next : Handler) (out : Result Response Fault × World)
      → ((ext : Option BasicAuthCredentials) → next (record req { extension = ext }) w ≡ out)
      → auth_middleware codecs next req w ≡ out
  unfolding auth_middleware
  auth_middleware-out next out h = elim (Option-cases (header_text codecs req.authorization)) [
    | inl missing ↦ rw (missing, auth_middleware) (h req.extension)
    | inr (header, e) ↦ elim (Option-cases (parse_basic_auth codecs.decode header)) [
      | inl refused ↦ rw (e, auth_middleware, refused) (h req.extension)
      | inr (creds, parsed) ↦ rw (e, auth_middleware, parsed) (h (some creds))
    ]
  ]

  auth_middleware-same :
      (next other : Handler)
      → ((ext : Option BasicAuthCredentials)
          → next (record req { extension = ext }) w ≡ other (record req { extension = ext }) w)
      → auth_middleware codecs next req w ≡ auth_middleware codecs other req w
  unfolding auth_middleware
  auth_middleware-same next other h = elim (Option-cases (header_text codecs req.authorization)) [
    | inl missing ↦ rw (missing, auth_middleware) (h req.extension)
    | inr (header, e) ↦ elim (Option-cases (parse_basic_auth codecs.decode header)) [
      | inl refused ↦ rw (e, auth_middleware, refused) (h req.extension)
      | inr (creds, parsed) ↦ rw (e, auth_middleware, parsed) (h (some creds))
    ]
  ]

module _ (codecs : Codecs) (max_body_size : ℕ) (routes : Handler) (req : Request) (w : World) where
  body_limit-announced :
      (size : ℕ)
      → announced codecs req ≡ some size
      → has_body req ≡ true
      → body_limit_middleware codecs max_body_size routes req w
        ≡ (if ltb max_body_size size then (ok (too_large max_body_size), w) else routes req w)
  unfolding body_limit_middleware
  body_limit-announced size h b = rw (b, h) refl

  announced-show :
      (size : ℕ) (value : Text)
      → size ≤ usize_max
      → req.content_length ≡ some value
      → codecs.to_str value ≡ some (show size)
      → announced codecs req ≡ some size
  unfolding announced
  announced-show size value small given read =
      let header : header_text codecs req.content_length ≡ some (show size) =
        ap (header_text codecs) given ∙ read in
      rw (header, announced, parse_nat-show usize_max size small) refl

  has_body-true : (req.method ≡ text "POST") ⊎ (req.method ≡ text "PUT") → has_body req ≡ true
  unfolding text_eq
  has_body-true (inl h) = rw h refl
  has_body-true (inr h) = rw h refl

-- The size that the limit looks at: a POST or PUT that announces one in decimal, a request of another
-- method, and one whose header is missing or no number.
pub data Announces (codecs : Codecs) (req : Request) : Option ℕ → Type 0 where
  in_decimal :
      (size : ℕ) (value : Text)
      → size ≤ usize_max
      → req.content_length ≡ some value
      → codecs.to_str value ≡ some (show size)
      → (req.method ≡ text "POST") ⊎ (req.method ≡ text "PUT")
      → Announces codecs req (some size)
  otherwise :
      (size : ℕ)
      → announced codecs req ≡ some size
      → (req.method ≡ text "POST") ⊎ (req.method ≡ text "PUT")
      → Announces codecs req (some size)
  another_method : req.method ≢ text "POST" → req.method ≢ text "PUT" → Announces codecs req none
  no_number : announced codecs req ≡ none → Announces codecs req none

abbrev pub exceeds : ℕ → Option ℕ → Bool
exceeds limit none = false
exceeds limit (some size) = ltb limit size

module _ (codecs : Codecs) (max_body_size : ℕ) (routes : Handler) (req : Request) (w : World) where
  body_limit-Announces :
      (size : Option ℕ)
      → Announces codecs req size
      → body_limit_middleware codecs max_body_size routes req w
        ≡ (if exceeds max_body_size size then (ok (too_large max_body_size), w) else routes req w)
  unfolding body_limit_middleware has_body
  body_limit-Announces _ (in_decimal size value small given read post) =
      body_limit-announced codecs max_body_size routes req w size
        (announced-show codecs max_body_size routes req w size value small given read)
        (has_body-true codecs max_body_size routes req w post)
  body_limit-Announces _ (otherwise size e post) =
      body_limit-announced codecs max_body_size routes req w size e
        (has_body-true codecs max_body_size routes req w post)
  body_limit-Announces _ (another_method post put) =
      elim (Bool-cases (text_eq req.method (text "POST"))) [
        | inl e ↦ absurd (post (text_eq_sound _ _ e))
        | inr e ↦ elim (Bool-cases (text_eq req.method (text "PUT"))) [
          | inl e' ↦ absurd (put (text_eq_sound _ _ e'))
          | inr e' ↦ rw (e, e') refl
        ]
      ]
  body_limit-Announces _ (no_number e) = elim (Bool-cases (has_body req)) [
    | inl b ↦ rw (b, e) refl
    | inr b ↦ rw b refl
  ]

-- The length of a request has nothing to do with its credentials.
Announces-extension :
    (codecs : Codecs) (req : Request) (size : Option ℕ) (ext : Option BasicAuthCredentials)
    → Announces codecs req size
    → Announces codecs (record req { extension = ext }) size
unfolding announced
Announces-extension codecs req _ ext (in_decimal size value small given read post) =
    in_decimal size value small given read post
Announces-extension codecs req _ ext (otherwise size e post) = otherwise size e post
Announces-extension codecs req _ ext (another_method post put) = another_method post put
Announces-extension codecs req _ ext (no_number e) = no_number e

module _ (codecs : Codecs) (max_body_size : ℕ) (routes : Handler) (req : Request) (w : World) where
  -- A POST or PUT request that announces more bytes than the limit is refused by the layers with 413,
  -- counted as a client error, and never reaches the routes: the state is left. One that announces no
  -- more than the limit, one without a number in its header, and a request of any other method pass
  -- as if there were no limit.
  pub layered-limit :
      (size : Option ℕ)
      → Announces codecs req size
      → layered codecs max_body_size routes req w ≡ (
          if exceeds max_body_size size
          then (
            http_request req.method (normalize_path req.path) 413
                ∷ http_request_duration req.method (normalize_path req.path)
                ∷ error (text "client_error")
                ∷ [],
            (ok (too_large max_body_size), w),
          )
          else metrics_middleware (auth_middleware codecs routes) req w)
  unfolding layered samples too_large
  layered-limit size a = elim (Bool-cases (exceeds max_body_size size)) [
    | inl large ↦ rw large (
        metrics_middleware-response req w
          (auth_middleware codecs (body_limit_middleware codecs max_body_size routes))
          (too_large max_body_size) w
          (auth_middleware-out codecs req w (body_limit_middleware codecs max_body_size routes) _
            λ ext. limited ext ∙ (rw large refl)))
    | inr fits ↦ rw fits (
        metrics_middleware-same req w
          (auth_middleware codecs (body_limit_middleware codecs max_body_size routes))
          (auth_middleware codecs routes)
          (auth_middleware-same codecs req w (body_limit_middleware codecs max_body_size routes)
            routes λ ext. limited ext ∙ (rw fits refl)))
  ]
    where
      limited :
          (ext : Option BasicAuthCredentials)
          → body_limit_middleware codecs max_body_size routes (record req { extension = ext }) w ≡ (
              if exceeds max_body_size size
              then (ok (too_large max_body_size), w)
              else routes (record req { extension = ext }) w)
      limited ext =
          body_limit-Announces codecs max_body_size routes (record req { extension = ext }) w size
            (Announces-extension codecs req size ext a)
