-- ===== src/UnitTests/Conversions.antt =====
-- The tests of src/types/mod.rs.
use fluss_gateway.Base.{
  ℕ, pos, ◌==◌, ◌≡◌, refl, Bool, true, false, ◌&&◌, Text, text, text_eq, Option, none, some, [],
  ◌∷◌, Result, ok, err, wrap, parse_int,
}
use fluss_gateway.Types.Errors.{
  bad_request, invalid_operation, fluss_error, internal, status_code, error_code,
}
use fluss_gateway.Types.Json.{Number, Json, array, cons, nil}
use fluss_gateway.Types.Datum.{Datum, Formats, DataType, int, bigint, int32, int64, json_to_datum}
use fluss_gateway.Types.Requests.{LookupParams, get_param}

test_error_status_codes : Bool
unfolding status_code
test_error_status_codes =
    status_code (bad_request (text "x")) == 400
    && status_code (invalid_operation (text "x")) == 422
    && status_code (fluss_error (text "x")) == 500
    && status_code (internal (text "x")) == 500

test_error_status_codes_holds : test_error_status_codes ≡ true
unfolding test_error_status_codes
test_error_status_codes_holds = refl

test_error_codes : Bool
unfolding error_code
test_error_codes =
    error_code (bad_request (text "x")) == 40001
    && error_code (invalid_operation (text "x")) == 42205
    && error_code (fluss_error (text "x")) == 50001

test_error_codes_holds : test_error_codes ≡ true
unfolding test_error_codes
test_error_codes_holds = refl

-- `matches!` on the datum of an accepted value.
abbrev is_int32 : ℕ → Result Datum Text → Bool
is_int32 n (ok (int32 (pos m))) = m == n
is_int32 n _ = false

abbrev is_int64 : ℕ → Result Datum Text → Bool
is_int64 n (ok (int64 (pos m))) = m == n
is_int64 n _ = false

abbrev is_string : Result Datum Text → Bool
is_string (ok (Datum.string s)) = true
is_string _ = false

abbrev is_null : Result Datum Text → Bool
is_null (ok Datum.null) = true
is_null _ = false

abbrev is_err : Result Datum Text → Bool
is_err (ok d) = false
is_err (err e) = true

-- A number as `serde_json` makes it of an `i64`.
abbrev of_i64 : ℕ → Number
of_i64 n = record { as_i64 = some (pos n); as_f64 = none; display = [] }

module _ (f : Formats) where
  test_json_to_datum_int : Bool
  unfolding json_to_datum
  test_json_to_datum_int =
      is_int32 42 (json_to_datum f (Json.number (of_i64 42)) int)
      && is_int32 42 (json_to_datum f (Json.string (text "42")) int)

  test_json_to_datum_int_holds : test_json_to_datum_int ≡ true
  unfolding test_json_to_datum_int wrap parse_int
  test_json_to_datum_int_holds = refl

  test_json_to_datum_bigint : Bool
  unfolding json_to_datum
  test_json_to_datum_bigint =
      is_int64 9999999999 (json_to_datum f (Json.number (of_i64 9999999999)) bigint)

  test_json_to_datum_bigint_holds : test_json_to_datum_bigint ≡ true
  unfolding test_json_to_datum_bigint
  test_json_to_datum_bigint_holds = refl

  test_json_to_datum_string : Bool
  unfolding json_to_datum
  test_json_to_datum_string =
      is_string (json_to_datum f (Json.string (text "hello")) DataType.string)

  test_json_to_datum_string_holds : test_json_to_datum_string ≡ true
  unfolding test_json_to_datum_string
  test_json_to_datum_string_holds = refl

  test_json_to_datum_null : Bool
  unfolding json_to_datum
  test_json_to_datum_null = is_null (json_to_datum f Json.null int)

  test_json_to_datum_null_holds : test_json_to_datum_null ≡ true
  unfolding test_json_to_datum_null
  test_json_to_datum_null_holds = refl

  test_json_to_datum_type_mismatch : Bool
  unfolding json_to_datum
  test_json_to_datum_type_mismatch =
      is_err (json_to_datum f (array (cons (Json.string (text "array")) nil)) int)

  test_json_to_datum_type_mismatch_holds : test_json_to_datum_type_mismatch ≡ true
  unfolding test_json_to_datum_type_mismatch
  test_json_to_datum_type_mismatch_holds = refl

abbrev is_text : Text → Option Text → Bool
is_text s none = false
is_text s (some t) = text_eq s t

abbrev is_none : Option Text → Bool
is_none none = true
is_none (some t) = false

test_lookup_params : Bool
unfolding get_param text_eq
test_lookup_params =
    let params : LookupParams = record { params = (text "id", text "42") ∷ [] } in
    is_text (text "42") (get_param params (text "id")) && is_none (get_param params (text "name"))

test_lookup_params_holds : test_lookup_params ≡ true
unfolding test_lookup_params
test_lookup_params_holds = refl
