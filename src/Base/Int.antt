-- ===== src/Base/Int.antt =====
-- Signed integers over the native numbers, and the cast to a narrower signed width (`as i8`).
use Prim.Native.Nat.{ℕ, ◌+◌, ◌-◌, ◌%◌, ◌<◌}
use mathlib.Core.Path.{◌≡◌}
use mathlib.Core.Logic.{◌⊎◌, inl, inr}
use native.Mathlib.Nat.{mod-eq_of_lt}
use native.Mathlib.Omega.{arith}
use fluss_gateway.Base.Tests.{ltb, if◌then◌else◌, Bool-cases, ltb→lt, lt→ltb}

-- `negsuc n` is -(n + 1).
pub data ℤ : Type 0 where
  pos : ℕ → ℤ
  negsuc : ℕ → ℤ

-- The values of the signed type with half range `h`: from -h to h - 1.
abbrev pub InRange : ℕ → ℤ → Type 0
InRange h (pos n) = n < h
InRange h (negsuc n) = n < h

-- The integer that a bit pattern below 2 h stands for.
abbrev pub signed : ℕ → ℕ → ℤ
signed h b = if ltb b h then pos b else negsuc (h + h - b - 1)

-- The cast keeps the low bits: `h` is 2 ^ 7 for `as i8`.
unfoldable pub wrap : ℕ → ℤ → ℤ
wrap h (pos n) = signed h (n % (h + h))
wrap h (negsuc n) = signed h (h + h - 1 - n % (h + h))

abbrev pub half8 : ℕ
half8 = 128

abbrev pub half16 : ℕ
half16 = 32768

abbrev pub half32 : ℕ
half32 = 2147483648

abbrev pub half64 : ℕ
half64 = 9223372036854775808

pub wrap-InRange : (h : ℕ) (z : ℤ) → 0 < h → InRange h (wrap h z)
unfolding wrap
wrap-InRange h (pos n) p = ground arith
wrap-InRange h (negsuc n) p = ground arith

pub wrap_of_InRange : (h : ℕ) (z : ℤ) → InRange h z → wrap h z ≡ z
unfolding wrap
wrap_of_InRange h (pos n) p = ground (arith, mod-eq_of_lt {n = n} {m = h + h} (omega arith))
wrap_of_InRange h (negsuc n) p = ground (arith, mod-eq_of_lt {n = n} {m = h + h} (omega arith))

lt-cases : (a b : ℕ) → (a < b) ⊎ (¬ (a < b))
lt-cases a b = elim (Bool-cases (ltb a b)) [
  | inl h ↦ inl (ltb→lt a b h)
  | inr h ↦ inr (λ p. ground (arith, lt→ltb a b p))
]

pub InRange-cases : (h : ℕ) (z : ℤ) → InRange h z ⊎ (¬ InRange h z)
InRange-cases h (pos n) = lt-cases n h
InRange-cases h (negsuc n) = lt-cases n h
