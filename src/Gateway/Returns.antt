-- ===== src/Gateway/Returns.antt =====
-- What actions return: inversion of a bind, and predicates on the values returned.
use fluss_gateway.Base.{◌≡◌, refl, Text, List, Result, ok, err}
use fluss_gateway.Fluss.{Call}
use fluss_gateway.Types.Errors.{GatewayError}
use fluss_gateway.Gateway.{World, Run, Fault, pure, fail, lift, call, fluss_err, continue, ◌>>=◌}

module _ {ℓ κ} {A : Type ℓ} {B : Type κ} where
  continue-eq-ok :
      (r : Result A Fault) (f : A → Run B) (w : World) {b : B}
      → (continue r f w).0 ≡ ok b
      → (a : A) × (r ≡ ok a) × ((f a w).0 ≡ ok b) × ((continue r f w).1 ≡ (f a w).1)
  continue-eq-ok (ok a) f w h = (a, refl, h, refl)
  continue-eq-ok (err e) f w h = cc

  -- If a chain returned, its first action did, and so did the rest from the state that it left.
  pub bind-returned :
      (m : Run A) (f : A → Run B) (w : World) {b : B}
      → ((m >>= f) w).0 ≡ ok b
      → (a : A) × ((m w).0 ≡ ok a) × ((f a (m w).1).0 ≡ ok b) × (((m >>= f) w).1 ≡ (f a (m w).1).1)
  unfolding ◌>>=◌
  bind-returned m f w h = continue-eq-ok (m w).0 f (m w).1 h

-- A pure step leaves the state.
pub lift-returned {ℓ} :
    {A : Type ℓ} (r : Result A GatewayError) (w : World) {a : A}
    → (lift r w).0 ≡ ok a
    → (r ≡ ok a) × ((lift r w).1 ≡ w)
unfolding lift pure fail
lift-returned (ok a) w h = (cc, refl)
lift-returned (err e) w h = cc

pub fluss_err-ok {ℓ} : {A : Type ℓ} (r : Result A Text) {a : A} → fluss_err r ≡ ok a → r ≡ ok a
fluss_err-ok (ok a) h = cc
fluss_err-ok (err e) h = cc

-- What a call returned is what the client answered.
pub call-returned {ℓ} :
    {A : Type ℓ} (answer : List Call → Call → Result A Text) (c : Call) (w : World) {a : A}
    → (call answer c w).0 ≡ ok a
    → answer w.trace c ≡ ok a
unfolding call
call-returned answer c w h = fluss_err-ok (answer w.trace c) (lift-returned (fluss_err _) _ h).0

-- Whatever `m` returns satisfies `P`.
pub record Returns {ℓ κ} {A : Type ℓ} (P : A → Type κ) (m : Run A) : Type (ℓ ⊔ κ) where
  pub at : (w : World) (a : A) → (m w).0 ≡ ok a → P a

module _ {ℓ κ μ} {A : Type ℓ} {B : Type κ} {P : B → Type μ} where
  pub Returns-call :
      (answer : List Call → Call → Result A Text) (c : Call) (f : A → Run B)
      → ((a : A) (history : List Call) → answer history c ≡ ok a → Returns P (f a))
      → Returns P (call answer c >>= f)
  Returns-call answer c f k = record {
    at = λ w b h.
        let (a, first, rest, last) = bind-returned (call answer c) f w h in
        (k a w.trace (call-returned answer c w first)).at _ b rest;
  }

  pub Returns-bind : (m : Run A) (f : A → Run B) → ((a : A) → Returns P (f a)) → Returns P (m >>= f)
  Returns-bind m f k = record {
    at = λ w b h. let (a, first, rest, last) = bind-returned m f w h in (k a).at _ b rest;
  }

module _ {κ μ} {B : Type κ} {P : B → Type μ} where
  pub Returns-pure : (b : B) → P b → Returns P (pure b)
  unfolding pure
  Returns-pure b p = record { at = λ w c h. let e : b ≡ c = cc in rw (← e) p }

-- A pure step that may fail.
pub Returns-lift {ℓ κ μ} :
    {A : Type ℓ} {B : Type κ} {P : B → Type μ} (r : Result A GatewayError) (g : A → Run B)
    → ((a : A) → r ≡ ok a → Returns P (g a))
    → Returns P (lift r >>= g)
Returns-lift r g k = record {
  at = λ w b h.
      let (a, first, rest, last) = bind-returned (lift r) g w h in
      let (is_a, same) = lift-returned r w first in (k a is_a).at _ b rest;
}

-- A step of which the result is known.
pub Returns-chain {ℓ κ μ ν} :
    {A : Type ℓ} {B : Type κ} {P : A → Type μ} {Q : B → Type ν} (m : Run A) (g : A → Run B)
    → Returns P m
    → ((a : A) → P a → Returns Q (g a))
    → Returns Q (m >>= g)
Returns-chain m g p k = record {
  at = λ w b h.
      let (a, first, rest, last) = bind-returned m g w h in (k a (p.at w a first)).at _ b rest;
}

module _ {ℓ} {A : Type ℓ} where
  -- What the last call of a chain returned is what the client answered to it.
  pub Returns-last :
      (answer : List Call → Call → Result A Text) (c : Call)
      → Returns (λ a. (history : List Call) × (answer history c ≡ ok a)) (call answer c)
  Returns-last answer c = record { at = λ w a h. (w.trace, call-returned answer c w h) }

pub ruleset returns_rules = (Returns-bind, Returns-pure)
