-- ===== src/Backend/Arrow/Hex.antt =====
-- Binary columns in JSON, and the number of rows.
use fluss_gateway.Base.{
  ℕ, zero, suc, ◌+◌, ◌-◌, ◌*◌, ◌/◌, ◌%◌, ◌≡◌, ◌<◌, ◌≤◌, ◌⊎◌, refl, ap, Text, List, [], ◌∷◌, ltb,
  if◌then◌else◌, All, length, arith,
}
use fluss_gateway.Fluss.{Externals, Array, RecordBatch}
use fluss_gateway.Backend.Arrow.{hex_digit, hex_encode, rows_from, record_batch_to_json}

-- The number that a hexadecimal digit stands for, and the bytes that pairs of digits stand for.
abbrev hex_value : ℕ → ℕ
hex_value c = if ltb c b'a' then c - b'0' else (c - b'a') + 10

unfoldable pub hex_decode : Text → Text
hex_decode [] = []
hex_decode (c ∷ []) = []
hex_decode (c ∷ d ∷ cs) = (hex_value c * 16 + hex_value d) ∷ hex_decode cs

abbrev pub IsHexDigit : ℕ → Type 0
IsHexDigit c = ((b'0' ≤ c) × (c ≤ b'9')) ⊎ ((b'a' ≤ c) × (c ≤ b'f'))

hex_value-hex_digit : (d : ℕ) → hex_value (hex_digit d) ≡ d
hex_value-hex_digit d = ground arith

hex_digit-IsHexDigit : (d : ℕ) → d < 16 → IsHexDigit (hex_digit d)
hex_digit-IsHexDigit d h = ground arith

hex_decode-hex_encode : (bytes : Text) → hex_decode (hex_encode bytes) ≡ bytes
unfolding hex_decode hex_encode
hex_decode-hex_encode [] = refl
hex_decode-hex_encode (b ∷ bytes) =
    rw (hex_value-hex_digit (b / 16), hex_value-hex_digit (b % 16), hex_decode-hex_encode bytes)
      (ap (λ n. n ∷ bytes) (omega arith))

hex_encode-IsHexDigit :
    (bytes : Text) → All (λ b. b < 256) bytes → All IsHexDigit (hex_encode bytes)
unfolding hex_encode
hex_encode-IsHexDigit [] h = tt
hex_encode-IsHexDigit (b ∷ bytes) (p, h) = (
  hex_digit-IsHexDigit (b / 16) (omega arith),
  (hex_digit-IsHexDigit (b % 16) (omega arith), hex_encode-IsHexDigit bytes h),
)

-- The text that a binary value becomes consists of digits `0`-`9` and `a`-`f` alone, two for each
-- byte, and reading them in pairs gives the value back.
pub hex_encode-faithful :
    (bytes : Text)
    → All (λ b. b < 256) bytes
    → All IsHexDigit (hex_encode bytes) × (hex_decode (hex_encode bytes) ≡ bytes)
hex_encode-faithful bytes h = (hex_encode-IsHexDigit bytes h, hex_decode-hex_encode bytes)

module _ (x : Externals) where
  rows_from-length :
      (columns : List (Text × Array)) (i n : ℕ) → length (rows_from x columns i n) ≡ n
  unfolding rows_from
  rows_from-length columns i zero = refl
  rows_from-length columns i (suc n) = ap suc (rows_from-length columns (i + 1) n)

  -- A batch becomes as many JSON rows as it says it has.
  pub record_batch_to_json-length :
      (batch : RecordBatch) → length (record_batch_to_json x batch) ≡ batch.num_rows
  unfolding record_batch_to_json
  record_batch_to_json-length batch = rows_from-length batch.columns 0 batch.num_rows
