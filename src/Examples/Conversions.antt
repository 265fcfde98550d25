-- ===== src/Examples/Conversions.antt =====
-- Values, errors and headers at concrete inputs.
use fluss_gateway.Base.{
  pos, InRange, half8, half16, half32, ◌≡◌, ◌↔◌, ◌⊎◌, refl, Text, text, none, some, [], ◌∷◌, ok,
  err, show_ℤ, wrap, All, arith,
}
use fluss_gateway.Types.Json.{Json, Number, IsNumber}
use fluss_gateway.Types.Datum.{json_to_datum, tinyint, smallint, int, int8, int16, int32}
use fluss_gateway.Types.Datum.Range.{
  Fits, narrow_exact_iff, json_to_datum-show_ℤ, json_to_datum-Fits,
}
use fluss_gateway.Backend.Arrow.{hex_encode}
use fluss_gateway.Backend.Arrow.Hex.{IsHexDigit, hex_decode, hex_encode-faithful}
use fluss_gateway.Server.Auth.{parse_basic_auth}
use fluss_gateway.Server.Auth.Parse.{IsBasic, parse_basic_auth_iff}
use fluss_gateway.Examples.{formats, ann}

abbrev three_hundred : Number
three_hundred = record { as_i64 = some (pos 300); as_f64 = none; display = text "300" }

narrow_exact_iff_example :
    ((json_to_datum formats (Json.number three_hundred) tinyint ≡ ok (int8 (pos 300)))
      ↔ InRange half8 (pos 300))
    × ((json_to_datum formats (Json.number three_hundred) smallint ≡ ok (int16 (pos 300)))
        ↔ InRange half16 (pos 300))
    × ((json_to_datum formats (Json.number three_hundred) int ≡ ok (int32 (pos 300)))
        ↔ InRange half32 (pos 300))
narrow_exact_iff_example = narrow_exact_iff formats three_hundred (pos 300) refl

json_to_datum-show_ℤ_example :
    (InRange half32 (pos 7)
      × (json_to_datum formats (Json.string (show_ℤ (pos 7))) int ≡ ok (int32 (pos 7))))
    ⊎ ((¬ InRange half32 (pos 7))
        × (m : Text) × (json_to_datum formats (Json.string (show_ℤ (pos 7))) int ≡ err m))
json_to_datum-show_ℤ_example = json_to_datum-show_ℤ formats (pos 7)

three_hundred-IsNumber : IsNumber three_hundred
three_hundred-IsNumber z e = let same : pos 300 ≡ z = cc in rw (← same) (omega arith)

json_to_datum-Fits_example : Fits tinyint (int8 (pos 44))
unfolding json_to_datum wrap
json_to_datum-Fits_example =
    json_to_datum-Fits formats (Json.number three_hundred) tinyint (int8 (pos 44))
      three_hundred-IsNumber refl

hex_encode-faithful_example :
    All IsHexDigit (hex_encode (0 ∷ 255 ∷ []))
    × (hex_decode (hex_encode (0 ∷ 255 ∷ [])) ≡ 0 ∷ 255 ∷ [])
hex_encode-faithful_example = hex_encode-faithful (0 ∷ 255 ∷ []) (omega arith, (omega arith, tt))

parse_basic_auth_iff_example :
    (parse_basic_auth (λ s. some s) (text "Basic ann:pw") ≡ some ann)
    ↔ IsBasic (λ s. some s) (text "Basic ann:pw") ann
parse_basic_auth_iff_example = parse_basic_auth_iff (λ s. some s) (text "Basic ann:pw") ann
