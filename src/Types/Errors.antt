-- ===== src/Types/Errors.antt =====
-- `GatewayError` of src/types/mod.rs and the HTTP response that src/server/rest/mod.rs makes of it.
use fluss_gateway.Base.{ℕ, ◌/◌, ◌≡◌, ◌≤◌, ◌<◌, Text, text, show, ◌++◌, arith}

pub data GatewayError : Type 0 where
  fluss_error bad_request invalid_operation internal unauthorized : Text → GatewayError
  body_limit_too_large : ℕ → GatewayError

unfoldable pub status_code : GatewayError → ℕ
status_code (bad_request m) = 400
status_code (invalid_operation m) = 422
status_code (fluss_error m) = 500
status_code (internal m) = 500
status_code (unauthorized m) = 401
status_code (body_limit_too_large limit) = 413

unfoldable pub error_code : GatewayError → ℕ
error_code (bad_request m) = 40001
error_code (invalid_operation m) = 42205
error_code (fluss_error m) = 50001
error_code (internal m) = 50001
error_code (unauthorized m) = 40101
error_code (body_limit_too_large limit) = 41301

-- `to_string`, from the `#[error(…)]` attributes.
unfoldable pub message : GatewayError → Text
message (fluss_error m) = text "fluss error: " ++ m
message (bad_request m) = text "bad request: " ++ m
message (invalid_operation m) = text "invalid operation: " ++ m
message (internal m) = text "internal error: " ++ m
message (unauthorized m) = text "unauthorized: " ++ m
message (body_limit_too_large limit) =
    text "payload too large: request body exceeds the " ++ (show limit ++ text " byte limit")

-- The JSON body of an error.
pub record ErrorBody : Type 0 where
  pub code : ℕ
  pub message : Text

-- `StatusCode::from_u16` accepts the codes from 100 to 999; all of `status_code` are among them, so
-- the fallback to 500 is never taken.
unfoldable pub error_response : GatewayError → ℕ × ErrorBody
unfolding status_code error_code message
error_response e = (status_code e, record { code = error_code e; message = message e })

-- For every error the response's status is a client or server error below 600, and the numeric code
-- in its body is that status followed by two digits.
pub error_response-code :
    (e : GatewayError)
    → (400 ≤ (error_response e).0)
      × ((error_response e).0 < 600)
      × ((error_response e).1.code / 100 ≡ (error_response e).0)
unfolding error_response
error_response-code e = ground arith
