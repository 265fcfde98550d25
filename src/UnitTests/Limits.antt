-- ===== src/UnitTests/Limits.antt =====
-- The tests of src/server/mod.rs: the limit on bodies, on a route that answers.
use fluss_gateway.Base.{
  ℕ, ◌==◌, ◌≡◌, refl, Bool, true, false, ◌&&◌, Text, text, text_eq, show, contains, length,
  replicate, ◌++◌, none, some, Result, ok, err,
}
use fluss_gateway.Gateway.{World, Fault}
use fluss_gateway.Server.Middleware.{Response, Codecs, Handler, body_limit_middleware}

-- `to_str` on a header of visible ASCII.
abbrev codecs : Codecs
codecs = record { to_str = λ s. some s; decode = λ s. none }

-- The answer of the route; its body is not read.
abbrev echo_size : Handler
echo_size req w = (ok (record { status = 200; error_body = none; max_body_size = none }), w)

abbrev test_app : ℕ → Handler
test_app limit = body_limit_middleware codecs limit echo_size

-- A request with a body, and the length of it.
abbrev call : Handler → Text → Text → World → Result Response Fault
call app method body w =
    (app
      (record {
        method = method;
        path = text "/echo";
        content_length = some (show (length body));
        authorization = none;
        extension = none;
      })
      w).0

abbrev has_status : ℕ → Result Response Fault → Bool
has_status status (ok r) = r.status == status
has_status status (err e) = false

-- `json!({"hello":"world"}).to_string()`.
abbrev hello : Text
hello = text "{\"hello\":\"world\"}"

module _ (w : World) where
  test_body_within_limit_passes : Bool
  unfolding body_limit_middleware
  test_body_within_limit_passes = has_status 200 (call (test_app 64) (text "POST") hello w)

  test_body_within_limit_passes_holds : test_body_within_limit_passes ≡ true
  unfolding test_body_within_limit_passes text_eq show
  test_body_within_limit_passes_holds = refl

  -- The body of an error and the header.
  abbrev is_refusal : ℕ → Result Response Fault → Bool
  is_refusal limit (err e) = false
  is_refusal limit (ok r) = elim (r.error_body) [
    | none ↦ false
    | some body ↦ elim (r.max_body_size) [
      | none ↦ false
      | some header ↦
          r.status == 413
          && body.code == 41301
          && contains body.message (show limit)
          && text_eq header (show limit)
    ]
  ]

  test_body_exceeding_limit_returns_413 : Bool
  unfolding body_limit_middleware contains text_eq
  test_body_exceeding_limit_returns_413 = is_refusal 64 (
      call (test_app 64) (text "POST") (text "{\"data\":\"" ++ (replicate 200 b'a' ++ text "\"}"))
        w)

  test_body_exceeding_limit_returns_413_holds : test_body_exceeding_limit_returns_413 ≡ true
  unfolding test_body_exceeding_limit_returns_413 show
  test_body_exceeding_limit_returns_413_holds = refl

  test_body_exactly_at_limit_passes : Bool
  unfolding body_limit_middleware
  test_body_exactly_at_limit_passes = has_status 200 (call (test_app 18) (text "POST") hello w)

  test_body_exactly_at_limit_passes_holds : test_body_exactly_at_limit_passes ≡ true
  unfolding test_body_exactly_at_limit_passes text_eq show
  test_body_exactly_at_limit_passes_holds = refl

  -- A GET request without a body.
  test_get_request_bypasses_limit : Bool
  unfolding body_limit_middleware
  test_get_request_bypasses_limit =
      has_status 200
        (test_app 1
          (record {
            method = text "GET";
            path = text "/echo";
            content_length = none;
            authorization = none;
            extension = none;
          })
          w).0

  test_get_request_bypasses_limit_holds : test_get_request_bypasses_limit ≡ true
  unfolding test_get_request_bypasses_limit text_eq
  test_get_request_bypasses_limit_holds = refl
