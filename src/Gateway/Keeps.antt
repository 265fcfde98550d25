-- ===== src/Gateway/Keeps.antt =====
-- Invariants of actions: one rule for each way to build an action.
use fluss_gateway.Base.{
  ◌≡◌, Bool, true, false, Text, Result, ok, err, List, [], ◌∷◌, ◌++◌, if◌then◌else◌, Result-cases,
  inl, inr,
}
use fluss_gateway.Types.Errors.{GatewayError}
use fluss_gateway.Fluss.{Call}
use fluss_gateway.Gateway.{World, Run, Fault, pure, fail, panic, lift, continue, ◌>>=◌, call}

-- `m` keeps `P`, however it ends.
pub record Keeps {ℓ κ} {A : Type ℓ} (P : World → Type κ) (m : Run A) : Type κ where
  pub at : (w : World) → P w → P (m w).1

module _ {ℓ κ} {A : Type ℓ} {P : World → Type κ} where
  pub Keeps-pure : (a : A) → Keeps P (pure a)
  unfolding pure
  Keeps-pure a = record { at = λ w h. h }

  pub Keeps-fail : (e : GatewayError) → Keeps P (fail {A = A} e)
  unfolding fail
  Keeps-fail e = record { at = λ w h. h }

  pub Keeps-panic : (m : Text) → Keeps P (panic {A = A} m)
  unfolding panic
  Keeps-panic m = record { at = λ w h. h }

  pub Keeps-lift : (r : Result A GatewayError) → Keeps P (lift r)
  unfolding lift
  Keeps-lift (ok a) = record { at = λ w h. h }
  Keeps-lift (err e) = record { at = λ w h. h }

  pub Keeps-if : (b : Bool) (m n : Run A) → Keeps P m → Keeps P n → Keeps P (if b then m else n)
  Keeps-if true m n km kn = km
  Keeps-if false m n km kn = kn

  pub Keeps-continue {μ} :
      {B : Type μ} (r : Result A Fault) (f : A → Run B) (w : World)
      → ((a : A) → Keeps P (f a))
      → P w
      → P (continue r f w).1
  Keeps-continue (ok a) f w kf h = (kf a).at w h
  Keeps-continue (err e) f w kf h = h

  pub Keeps-bind {μ} :
      {B : Type μ} (m : Run A) (f : A → Run B)
      → Keeps P m
      → ((a : A) → Keeps P (f a))
      → Keeps P (m >>= f)
  unfolding ◌>>=◌
  Keeps-bind m f km kf = record { at = λ w h. Keeps-continue (m w).0 f (m w).1 kf (km.at w h) }

pub ruleset keeps_rules = (Keeps-pure, Keeps-fail, Keeps-panic, Keeps-lift, Keeps-if, Keeps-bind)

-- Whatever is answered, the call is recorded.
pub call-world {ℓ} :
    {A : Type ℓ} (answer : List Call → Call → Result A Text) (c : Call) (w : World)
    → (call answer c w).1 ≡ record w { trace = w.trace ++ c ∷ [] }
unfolding call
call-world answer c w = elim (Result-cases (answer w.trace c)) [
  | inl (a, done) ↦ rw done
  | inr (e, failed) ↦ rw failed
]
