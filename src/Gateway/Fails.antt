-- ===== src/Gateway/Fails.antt =====
-- The statuses of the errors with which actions fail.
use fluss_gateway.Base.{
  ℕ, ◌≡◌, refl, ◌==◌, ◌||◌, Bool, true, false, if◌then◌else◌, Text, Option, none, some, List, [],
  ◌∷◌, Result, ok, err, ok_or, ◌>>=◌ as and_then,
}
use fluss_gateway.Types.Errors.{GatewayError, fluss_error, status_code}
use fluss_gateway.Fluss.{Call}
use fluss_gateway.Gateway.{
  World, Run, Fault, fails, pure, fail, panic, lift, call, fluss_err, continue, ◌>>=◌,
}

abbrev pub lists : List ℕ → ℕ → Bool
lists [] status = false
lists (s ∷ ss) status = s == status || lists ss status

-- An error of `m` has one of the statuses; it may also return or panic.
pub record FailsIn {ℓ} {A : Type ℓ} (ss : List ℕ) (m : Run A) : Type ℓ where
  pub at :
      (w : World) (e : GatewayError) → (m w).0 ≡ err (fails e) → lists ss (status_code e) ≡ true

-- An error of a pure step has one of the statuses.
pub record ErrsIn {ℓ} {A : Type ℓ} (ss : List ℕ) (r : Result A GatewayError) : Type ℓ where
  pub errs : (e : GatewayError) → r ≡ err e → lists ss (status_code e) ≡ true

module _ {ℓ} {A : Type ℓ} (ss : List ℕ) where
  pub FailsIn-pure : (a : A) → FailsIn ss (pure a)
  unfolding pure
  FailsIn-pure a = record { at = λ w e h. cc }

  pub FailsIn-panic : (m : Text) → FailsIn ss (panic {A = A} m)
  unfolding panic
  FailsIn-panic m = record { at = λ w e h. cc }

  pub FailsIn-fail :
      (e : GatewayError) → lists ss (status_code e) ≡ true → FailsIn ss (fail {A = A} e)
  unfolding fail
  FailsIn-fail e p = record { at = λ w e' h. let same : e ≡ e' = cc in rw (← same) p }

  pub FailsIn-lift : (r : Result A GatewayError) → ErrsIn ss r → FailsIn ss (lift r)
  unfolding lift
  FailsIn-lift (ok a) p = FailsIn-pure a
  FailsIn-lift (err e) p = FailsIn-fail e (p.errs e refl)

  pub ErrsIn-ok : (a : A) → ErrsIn ss (ok a)
  ErrsIn-ok a = record { errs = λ e h. cc }

  pub ErrsIn-err : (e : GatewayError) → lists ss (status_code e) ≡ true → ErrsIn {A = A} ss (err e)
  ErrsIn-err e p = record { errs = λ e' h. let same : e ≡ e' = cc in rw (← same) p }

  pub ErrsIn-if :
      (b : Bool) (r s : Result A GatewayError)
      → ErrsIn ss r
      → ErrsIn ss s
      → ErrsIn ss (if b then r else s)
  ErrsIn-if true r s hr hs = hr
  ErrsIn-if false r s hr hs = hs

  pub ErrsIn-ok_or :
      (o : Option A) (e : GatewayError) → lists ss (status_code e) ≡ true → ErrsIn ss (ok_or o e)
  ErrsIn-ok_or none e p = ErrsIn-err e p
  ErrsIn-ok_or (some a) e p = ErrsIn-ok a

  pub ErrsIn-fluss : (r : Result A Text) → lists ss 500 ≡ true → ErrsIn ss (fluss_err r)
  unfolding status_code
  ErrsIn-fluss (ok a) p = ErrsIn-ok a
  ErrsIn-fluss (err m) p = ErrsIn-err (fluss_error m) p

  pub FailsIn-if :
      (b : Bool) (m n : Run A) → FailsIn ss m → FailsIn ss n → FailsIn ss (if b then m else n)
  FailsIn-if true m n hm hn = hm
  FailsIn-if false m n hm hn = hn

  pub FailsIn-call :
      (answer : List Call → Call → Result A Text) (c : Call)
      → lists ss 500 ≡ true
      → FailsIn ss (call answer c)
  unfolding call
  FailsIn-call answer c p = record {
    at = λ w e h. (FailsIn-lift (fluss_err (answer w.trace c)) (ErrsIn-fluss _ p)).at _ e h;
  }

module _ {ℓ κ} {A : Type ℓ} {B : Type κ} (ss : List ℕ) where
  pub ErrsIn-then :
      (r : Result A GatewayError) (f : A → Result B GatewayError)
      → ErrsIn ss r
      → ((a : A) → ErrsIn ss (f a))
      → ErrsIn ss (and_then r f)
  ErrsIn-then (ok a) f hr hf = hf a
  ErrsIn-then (err e) f hr hf = ErrsIn-err ss e (hr.errs e refl)

  FailsIn-continue :
      (r : Result A Fault) (f : A → Run B) (w : World) (e : GatewayError)
      → ((e : GatewayError) → r ≡ err (fails e) → lists ss (status_code e) ≡ true)
      → ((a : A) → FailsIn ss (f a))
      → (continue r f w).0 ≡ err (fails e)
      → lists ss (status_code e) ≡ true
  FailsIn-continue (ok a) f w e hr hf h = (hf a).at w e h
  FailsIn-continue (err x) f w e hr hf h = hr e cc

  pub FailsIn-bind :
      (m : Run A) (f : A → Run B)
      → FailsIn ss m
      → ((a : A) → FailsIn ss (f a))
      → FailsIn ss (m >>= f)
  unfolding ◌>>=◌
  FailsIn-bind m f hm hf = record {
    at = λ w e h. FailsIn-continue (m w).0 f (m w).1 e (hm.at w) hf h;
  }

pub ruleset fails_rules = (
  FailsIn-pure, FailsIn-panic, FailsIn-fail, FailsIn-lift, FailsIn-if, FailsIn-call, FailsIn-bind,
  ErrsIn-ok_or, ErrsIn-fluss,
)

pub ruleset errs_rules = (ErrsIn-ok, ErrsIn-err, ErrsIn-if, ErrsIn-then)
