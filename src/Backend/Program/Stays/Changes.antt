-- ===== src/Backend/Program/Stays/Changes.antt =====
-- Actions whose changes depend on the answers that they get.
use fluss_gateway.Base.{◌≡◌, refl, Option, List, [], Result, ok, err}
use fluss_gateway.Types.Errors.{GatewayError}
use fluss_gateway.Fluss.{Externals}
use fluss_gateway.Gateway.{Run, fails, pure, fail, lift, ◌>>=◌}
use fluss_gateway.Backend.Program.{ends, chain, returns, binds}
use fluss_gateway.Backend.Program.Safe.{Safe-chain}
use fluss_gateway.Backend.Program.Emits.{Whole-Part, Part-reply}
use fluss_gateway.Gateway.Writes.{Write}
use fluss_gateway.Server.Auth.{BasicAuthCredentials}
use fluss_gateway.Backend.Program.Stays.{Runs, MayRun}

module _ (x : Externals) (creds : Option BasicAuthCredentials) (Let : Type 0) where
  module _ {A : Type 0} (C : List Write → Type 0) where
    pub MayRun-fail : (e : GatewayError) → MayRun x creds Let C (fail {A = A} e)
    unfolding fail
    MayRun-fail e = record {
      prog = ends (err (fails e));
      does = returns _ _ (λ w. refl);
      safe = tt;
      emits = record { part = tt };
    }

    pub MayRun-whole :
        (m : Run A) (ws : List Write) → C ws → Runs x creds Let [] ws m → MayRun x creds Let C m
    MayRun-whole m ws c k = record {
      prog = k.prog;
      does = k.does;
      safe = k.safe;
      emits = record { part = Whole-Part C k.prog (ws, c, k.emits) };
    }

  module _ {A B : Type 0} (C : List Write → Type 0) where
    pub MayRun-lift :
        (r : Result A GatewayError) (f : A → Run B)
        → ((a : A) → r ≡ ok a → MayRun x creds Let C (f a))
        → MayRun x creds Let C (lift r >>= f)
    unfolding ◌>>=◌ lift
    MayRun-lift (ok a) f k = k a refl
    MayRun-lift (err e) f k = record {
      prog = ends (err (fails e));
      does = returns _ _ (λ w. refl);
      safe = tt;
      emits = record { part = tt };
    }

    -- A reply that is made of the result.
    pub MayRun-reply :
        (f : A → B) (m : Run A)
        → MayRun x creds Let C m
        → MayRun x creds Let C (m >>= λ a. pure (f a))
    unfolding pure
    MayRun-reply f m k = record {
      prog = chain k.prog (λ a. ends (ok (f a)));
      does = binds m _ k.prog (λ a. ends (ok (f a))) k.does (λ a. returns _ _ (λ w. refl));
      safe =
          Safe-chain x creds Let (λ hs a. Unit {0}) (λ hs a. Unit {0}) [] k.prog
            (λ a. ends (ok (f a))) k.safe (λ _ _ _ _. tt);
      emits = record { part = Part-reply C f k.prog k.emits.part };
    }
