-- ===== src/UnitTests/Headers.antt =====
-- The tests of src/server/auth.rs. `decode` is the base64 engine.
use fluss_gateway.Base.{◌≡◌, refl, Bool, true, false, ◌&&◌, Text, text, text_eq, Option, none, some}
use fluss_gateway.Server.Auth.{BasicAuthCredentials, is_utf8, parse_basic_auth}

abbrev is_account : Text → Text → Option BasicAuthCredentials → Bool
is_account username password none = false
is_account username password (some c) = text_eq c.username username && text_eq c.password password

abbrev is_none : Option BasicAuthCredentials → Bool
is_none none = true
is_none (some c) = false

module _ (decode : Text → Option Text) where
  test_parse_basic_auth : Bool
  unfolding parse_basic_auth text_eq
  test_parse_basic_auth =
      is_account (text "user") (text "pass") (parse_basic_auth decode (text "Basic dXNlcjpwYXNz"))

  test_parse_basic_auth_holds :
      decode (text "dXNlcjpwYXNz") ≡ some (text "user:pass") → test_parse_basic_auth ≡ true
  unfolding test_parse_basic_auth is_utf8
  test_parse_basic_auth_holds h = rw h refl

  test_parse_basic_auth_invalid : Bool
  unfolding parse_basic_auth
  test_parse_basic_auth_invalid =
      is_none (parse_basic_auth decode (text "Bearer token"))
      && is_none (parse_basic_auth decode (text "Basic notbase64"))
      && is_none (parse_basic_auth decode (text "Basic dXNlcg=="))

  test_parse_basic_auth_invalid_holds :
      decode (text "notbase64") ≡ none
      → decode (text "dXNlcg==") ≡ some (text "user")
      → test_parse_basic_auth_invalid ≡ true
  unfolding test_parse_basic_auth_invalid is_utf8
  test_parse_basic_auth_invalid_holds h g = rw h (rw g refl)

  test_parse_basic_auth_empty_user : Bool
  unfolding parse_basic_auth
  test_parse_basic_auth_empty_user = is_none (parse_basic_auth decode (text "Basic OnBhc3M="))

  test_parse_basic_auth_empty_user_holds :
      decode (text "OnBhc3M=") ≡ some (text ":pass") → test_parse_basic_auth_empty_user ≡ true
  unfolding test_parse_basic_auth_empty_user is_utf8
  test_parse_basic_auth_empty_user_holds h = rw h refl
