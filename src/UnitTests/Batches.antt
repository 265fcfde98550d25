-- ===== src/UnitTests/Batches.antt =====
-- The tests of src/backend/mod.rs.
use fluss_gateway.Base.{
  ℕ, zero, suc, ◌==◌, ◌≡◌, refl, Bool, true, false, ◌&&◌, Text, text, text_eq, Option, some, [],
  ◌∷◌, ℤ, pos, ok, err, length, get_elem?, if◌then◌else◌,
}
use fluss_gateway.Types.Errors.{fluss_error, status_code}
use fluss_gateway.Types.Json.{Json, Fields, end, field, object}
use fluss_gateway.Fluss.{Externals, Array, Values, int32s, utf8s}
use fluss_gateway.Gateway.{fluss_err}
use fluss_gateway.Backend.Arrow.{hex_encode, record_batch_to_json}

-- Whether an error of the client with this text becomes a Fluss error with the status 500.
test_fluss_err_mapping : Text → Bool
unfolding status_code
test_fluss_err_mapping message = elim (fluss_err {A = Unit {0}} (err message)) [
  | ok done ↦ false
  | err (fluss_error m) ↦ status_code (fluss_error m) == 500
  | err _ ↦ false
]

test_fluss_err_mapping_holds : (message : Text) → test_fluss_err_mapping message ≡ true
unfolding test_fluss_err_mapping
test_fluss_err_mapping_holds message = refl

test_hex_encode : Bool
unfolding hex_encode text_eq
test_hex_encode =
    text_eq (hex_encode (0xde ∷ 0xad ∷ [])) (text "dead") && text_eq (hex_encode []) []

test_hex_encode_holds : test_hex_encode ≡ true
unfolding test_hex_encode
test_hex_encode_holds = refl

-- The value of a field, as `value[name]`.
in_fields : Text → Fields → Json
unfolding text_eq
in_fields name end = Json.null
in_fields name (field j v rest) =
    let later = in_fields name rest in if text_eq j name then v else later

abbrev value_of : Text → Option Json → Json
value_of name (some (object fields)) = in_fields name fields
value_of name _ = Json.null

-- Equality with a number and with a text.
abbrev is_i64 : ℕ → Option ℤ → Bool
is_i64 n (some (pos m)) = m == n
is_i64 n _ = false

abbrev is_number : ℕ → Json → Bool
is_number n (Json.number m) = is_i64 n m.as_i64
is_number n _ = false

abbrev is_string : Text → Json → Bool
is_string s (Json.string t) = text_eq s t
is_string s _ = false

abbrev some_array : Values → Array
some_array values = record { is_null = λ i. false; values = values; debug = [] }

abbrev one_or_two : ℕ → ℤ
one_or_two zero = pos 1
one_or_two (suc i) = pos 2

abbrev alice_or_bob : ℕ → Text
alice_or_bob zero = text "Alice"
alice_or_bob (suc i) = text "Bob"

module _ (x : Externals) where
  test_record_batch_to_json_empty : Bool
  unfolding record_batch_to_json
  test_record_batch_to_json_empty =
      elim (record_batch_to_json x
        (record { columns = (text "id", some_array (int32s (λ i. pos 0))) ∷ []; num_rows = 0 })) [
          | [] ↦ true
          | _ ↦ false
        ]

  test_record_batch_to_json_empty_holds : test_record_batch_to_json_empty ≡ true
  unfolding test_record_batch_to_json_empty
  test_record_batch_to_json_empty_holds = refl

  test_record_batch_to_json_with_data : Bool
  unfolding record_batch_to_json in_fields text_eq
  test_record_batch_to_json_with_data =
      let result = record_batch_to_json x (record {
        columns =
            (text "id", some_array (int32s one_or_two))
            ∷ (text "name", some_array (utf8s alice_or_bob))
            ∷ [];
        num_rows = 2;
      }) in
      length result == 2
      && is_number 1 (value_of (text "id") (get_elem? result 0))
      && is_string (text "Alice") (value_of (text "name") (get_elem? result 0))
      && is_number 2 (value_of (text "id") (get_elem? result 1))
      && is_string (text "Bob") (value_of (text "name") (get_elem? result 1))

  -- If a number that is made of an `i64` has it as its value.
  test_record_batch_to_json_with_data_holds :
      ((z : ℤ) → (x.number_of_i64 z).as_i64 ≡ some z) → test_record_batch_to_json_with_data ≡ true
  unfolding test_record_batch_to_json_with_data
  test_record_batch_to_json_with_data_holds h = rw (h (pos 1)) (rw (h (pos 2)) refl)
