-- ===== src/Base/RoundTrip.antt =====
-- Decimal text read back: what the parsers make of what `show` prints.
use Prim.Native.Nat.{ℕ, zero, suc, ◌+◌, ◌-◌, ◌*◌, ◌/◌, ◌%◌, ◌≤◌, ◌<◌}
use mathlib.Core.Path.{◌≡◌, refl, ap, ◌∙◌}
use mathlib.Core.Logic.{inl, inr}
use mathlib.Core.List.{[], ◌∷◌}
use native.Mathlib.Omega.{arith}
use fluss_gateway.Base.Tests.{ltb, ◌==◌, if◌then◌else◌, Bool-cases}
use fluss_gateway.Base.Texts.{Text}
use fluss_gateway.Base.Results.{Result, ok, err, map_ok}
use fluss_gateway.Base.Int.{ℤ, pos, negsuc, InRange}
use fluss_gateway.Base.Decimal.{
  emit, show, show_ℤ, ParseIntError, scan, digits, negate, parse_int, parse_nat, pos_overflow,
  neg_overflow,
}

scan_last :
    (most : ℕ) (e : ParseIntError) (n : ℕ) (out : Text)
    → n ≤ most
    → scan most e (n / 10) ((b'0' + n % 10) ∷ out) ≡ scan most e n out
unfolding scan
scan_last most e n out h = ground arith

scan-emit :
    (most : ℕ) (e : ParseIntError) (f n : ℕ) (out : Text)
    → n ≤ f
    → n ≤ most
    → scan most e 0 (emit f n out) ≡ scan most e n out
unfolding emit
scan-emit most e zero n out h k = let z : n ≡ 0 = omega arith in rw z
scan-emit most e (suc f) n out h k =
    ground (arith, scan_last most e n out k, scan-emit most e f (n / 10) ((b'0' + n % 10) ∷ out))

scan_over :
    (most : ℕ) (e : ParseIntError) (n : ℕ) (out : Text)
    → n / 10 ≤ most
    → most < n
    → scan most e (n / 10) ((b'0' + n % 10) ∷ out) ≡ err e
unfolding scan
scan_over most e n out h k = ground arith

scan-emit_over :
    (most : ℕ) (e : ParseIntError) (f n : ℕ) (out : Text)
    → n ≤ f
    → most < n
    → scan most e 0 (emit f n out) ≡ err e
unfolding emit
scan-emit_over most e zero n out h k = absurd (omega arith)
scan-emit_over most e (suc f) n out h k = elim (Bool-cases (ltb most (n / 10))) [
  | inl over ↦ ground (arith, scan-emit_over most e f (n / 10) ((b'0' + n % 10) ∷ out))
  | inr fits ↦
      ground (arith, scan-emit most e f (n / 10) ((b'0' + n % 10) ∷ out), scan_over most e n out)
]

abbrev StartsWithDigit : Text → Type 0
StartsWithDigit [] = ⊥
StartsWithDigit (c ∷ s) = b'0' ≤ c

emit-StartsWithDigit : (f n : ℕ) (out : Text) → StartsWithDigit out → StartsWithDigit (emit f n out)
unfolding emit
emit-StartsWithDigit zero n out h = h
emit-StartsWithDigit (suc f) n out h = elim (Bool-cases (n == 0)) [
  | inl done ↦ rw done h
  | inr more ↦ rw more (emit-StartsWithDigit f (n / 10) ((b'0' + n % 10) ∷ out) (omega arith))
]

show-suc : (k : ℕ) → show (suc k) ≡ emit (suc k) (suc k) []
unfolding show
show-suc k = ground arith

emit-suc : (k : ℕ) → emit (suc k) (suc k) [] ≡ emit k (suc k / 10) ((b'0' + suc k % 10) ∷ [])
unfolding emit
emit-suc k = ground arith

show-StartsWithDigit : (n : ℕ) → StartsWithDigit (show n)
unfolding show
show-StartsWithDigit zero = omega arith
show-StartsWithDigit (suc k) =
    rw (show-suc k, emit-suc k)
      (emit-StartsWithDigit k (suc k / 10) ((b'0' + suc k % 10) ∷ []) (omega arith))

digits-scan :
    (most : ℕ) (e : ParseIntError) (s : Text)
    → StartsWithDigit s
    → digits most e s ≡ scan most e 0 s
unfolding digits
digits-scan most e [] h = absurd h
digits-scan most e (c ∷ s) h = refl

scan-nil : (most : ℕ) (e : ParseIntError) (n : ℕ) → scan most e n [] ≡ ok n
unfolding scan
scan-nil most e n = refl

scan-show : (most : ℕ) (e : ParseIntError) (n : ℕ) → n ≤ most → scan most e 0 (show n) ≡ ok n
unfolding show scan
scan-show most e zero h = ground arith
scan-show most e (suc k) h =
    rw (show-suc k) (scan-emit most e (suc k) (suc k) [] (omega arith) h ∙ scan-nil most e (suc k))

scan-show_over : (most : ℕ) (e : ParseIntError) (n : ℕ) → most < n → scan most e 0 (show n) ≡ err e
unfolding show
scan-show_over most e zero h = absurd (omega arith)
scan-show_over most e (suc k) h =
    rw (show-suc k) (scan-emit_over most e (suc k) (suc k) [] (omega arith) h)

parse_unsigned :
    (h : ℕ) (s : Text)
    → StartsWithDigit s
    → parse_int h s ≡ map_ok pos (scan (h - 1) pos_overflow 0 s)
unfolding parse_int
parse_unsigned h [] d = absurd d
parse_unsigned h (c ∷ s) d = ground arith

parse_minus :
    (h : ℕ) (s : Text)
    → StartsWithDigit s
    → parse_int h (b'-' ∷ s) ≡ map_ok negate (scan h neg_overflow 0 s)
unfolding parse_int
parse_minus h s d = ap (map_ok negate) (digits-scan h neg_overflow s d)

-- A decimal print of a value of the type is read back as that value.
pub parse_int-show_ℤ : (h : ℕ) (z : ℤ) → InRange h z → parse_int h (show_ℤ z) ≡ ok z
unfolding show_ℤ
parse_int-show_ℤ h (pos n) p =
    parse_unsigned h (show n) (show-StartsWithDigit n)
    ∙ ap (map_ok pos) (scan-show (h - 1) pos_overflow n (omega arith))
parse_int-show_ℤ h (negsuc n) p =
    parse_minus h (show (suc n)) (show-StartsWithDigit (suc n))
    ∙ ap (map_ok negate) (scan-show h neg_overflow (suc n) p)

abbrev pub overflow_of : ℤ → ParseIntError
overflow_of (pos n) = pos_overflow
overflow_of (negsuc n) = neg_overflow

-- A decimal print of any other value is refused as too large or too small.
pub parse_int-show_ℤ_over :
    (h : ℕ) (z : ℤ) → 0 < h → ¬ InRange h z → parse_int h (show_ℤ z) ≡ err (overflow_of z)
unfolding show_ℤ
parse_int-show_ℤ_over h (pos n) q p =
    parse_unsigned h (show n) (show-StartsWithDigit n)
    ∙ ap (map_ok pos) (scan-show_over (h - 1) pos_overflow n (omega arith))
parse_int-show_ℤ_over h (negsuc n) q p =
    parse_minus h (show (suc n)) (show-StartsWithDigit (suc n))
    ∙ ap (map_ok negate) (scan-show_over h neg_overflow (suc n) (omega arith))

-- The size limit's parse.
pub parse_nat-show : (most n : ℕ) → n ≤ most → parse_nat most (show n) ≡ ok n
unfolding parse_nat
parse_nat-show most n h =
    parse_nat-unsigned most (show n) (show-StartsWithDigit n) ∙ scan-show most pos_overflow n h
  where
    parse_nat-unsigned :
        (most : ℕ) (s : Text) → StartsWithDigit s → parse_nat most s ≡ scan most pos_overflow 0 s
    parse_nat-unsigned most [] d = absurd d
    parse_nat-unsigned most (c ∷ s) d = ground arith

scan-le :
    (most : ℕ) (e : ParseIntError) (n : ℕ) (s : Text) {r : ℕ}
    → n ≤ most
    → scan most e n s ≡ ok r
    → r ≤ most
unfolding scan
scan-le most e n [] h eq = ground arith
scan-le most e n (c ∷ s) {r} h eq = ground (arith, scan-le most e (n * 10 + (c - b'0')) s {r = r})

digits-le : (most : ℕ) (e : ParseIntError) (s : Text) {r : ℕ} → digits most e s ≡ ok r → r ≤ most
unfolding digits
digits-le most e [] eq = cc
digits-le most e (c ∷ s) eq = scan-le most e 0 (c ∷ s) (omega arith) eq

map_ok-eq-ok {ℓ κ μ} :
    {A : Type ℓ} {B : Type κ} {E : Type μ} (f : A → B) (m : Result A E) {b : B}
    → map_ok f m ≡ ok b
    → (a : A) × (m ≡ ok a) × (b ≡ f a)
map_ok-eq-ok f (ok a) h = (a, refl, cc)
map_ok-eq-ok f (err e) h = cc

negate-InRange : (h n : ℕ) → 0 < h → n ≤ h → InRange h (negate n)
negate-InRange h zero p q = p
negate-InRange h (suc n) p q = q

-- What is parsed lies in the type.
pub parse_int-InRange : (h : ℕ) (s : Text) {z : ℤ} → 0 < h → parse_int h s ≡ ok z → InRange h z
unfolding parse_int
parse_int-InRange h [] p eq = cc
parse_int-InRange h (c ∷ s) {z} p eq = elim (Bool-cases (c == b'-')) [
  | inl minus ↦
      let (n, found, same) = map_ok-eq-ok negate (digits h neg_overflow s) (rw minus at eq) in
      rw same (negate-InRange h n p (digits-le h neg_overflow s found))
  | inr other ↦
      let (n, found, same) = map_ok-eq-ok pos _ (rw other at eq) in
      rw same (plus c n (if_digits-le n found))
]
  where
    plus : (c n : ℕ) → n ≤ h - 1 → InRange h (pos n)
    plus c n q = omega arith

    if_digits-le :
        (n : ℕ)
        → (if c == b'+' then digits (h - 1) pos_overflow s else digits (h - 1) pos_overflow (c ∷ s))
          ≡ ok n
        → n ≤ h - 1
    if_digits-le n found = elim (Bool-cases (c == b'+')) [
      | inl t ↦ digits-le (h - 1) pos_overflow s (rw t at found)
      | inr t ↦ digits-le (h - 1) pos_overflow (c ∷ s) (rw t at found)
    ]
