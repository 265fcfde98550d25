-- ===== src/Base/Decimal.antt =====
-- Decimal text: `Display` of an unsigned integer, `FromStr` of a signed and an unsigned one.
use Prim.Native.Nat.{ℕ, zero, suc, ◌+◌, ◌-◌, ◌*◌, ◌/◌, ◌%◌}
use mathlib.Core.Bool.{◌||◌}
use mathlib.Core.List.{[], ◌∷◌}
use fluss_gateway.Base.Tests.{ltb, ◌==◌, if◌then◌else◌}
use fluss_gateway.Base.Texts.{Text, text}
use fluss_gateway.Base.Results.{Result, ok, err, map_ok}
use fluss_gateway.Base.Int.{ℤ, pos, negsuc}

-- One digit a round, from the last one; fuel `n` is enough for the value `n`.
unfoldable pub emit : ℕ → ℕ → Text → Text
emit zero n out = out
emit (suc f) n out =
    let rest = emit f (n / 10) ((b'0' + n % 10) ∷ out) in if n == 0 then out else rest

unfoldable pub show : ℕ → Text
unfolding emit
show n = if n == 0 then b'0' ∷ [] else emit n n []

unfoldable pub show_ℤ : ℤ → Text
unfolding show
show_ℤ (pos n) = show n
show_ℤ (negsuc n) = b'-' ∷ show (suc n)

pub data ParseIntError : Type 0 where
  empty invalid_digit pos_overflow neg_overflow : ParseIntError

-- The texts of `core::num::ParseIntError`.
unfoldable pub show_error : ParseIntError → Text
show_error empty = text "cannot parse integer from empty string"
show_error invalid_digit = text "invalid digit found in string"
show_error pos_overflow = text "number too large to fit in target type"
show_error neg_overflow = text "number too small to fit in target type"

-- The checked loop of `from_str_radix`, over the magnitude.
unfoldable pub scan : ℕ → ParseIntError → ℕ → Text → Result ℕ ParseIntError
scan most e n [] = ok n
scan most e n (c ∷ s) =
    let rest = scan most e (n * 10 + (c - b'0')) s in
    if ltb c b'0' || ltb b'9' c
    then err invalid_digit
    else if ltb most (n * 10 + (c - b'0'))
    then err e
    else rest

-- A sign alone is no number.
unfoldable pub digits : ℕ → ParseIntError → Text → Result ℕ ParseIntError
unfolding scan
digits most e [] = err invalid_digit
digits most e (c ∷ s) = scan most e 0 (c ∷ s)

abbrev pub negate : ℕ → ℤ
negate zero = pos 0
negate (suc n) = negsuc n

-- `str::parse` into the signed type with half range `h`.
unfoldable pub parse_int : ℕ → Text → Result ℤ ParseIntError
unfolding digits
parse_int h [] = err empty
parse_int h (c ∷ s) =
    if c == b'-'
    then map_ok negate (digits h neg_overflow s)
    else map_ok pos
        (if c == b'+' then digits (h - 1) pos_overflow s else digits (h - 1) pos_overflow (c ∷ s))

-- `str::parse` into the unsigned type whose largest value is `most`.
unfoldable pub parse_nat : ℕ → Text → Result ℕ ParseIntError
unfolding digits
parse_nat most [] = err empty
parse_nat most (c ∷ s) =
    if c == b'+' then digits most pos_overflow s else digits most pos_overflow (c ∷ s)
