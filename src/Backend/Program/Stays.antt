-- ===== src/Backend/Program/Stays.antt =====
-- Actions whose programs stay within the handles that they were given, and a rule for each way to
-- build one.
pub mod Takes
pub mod Changes
pub mod Gives
use mathlib.Core.List.{Memᴰ, append-nil}
use fluss_gateway.Base.{
  ◌≡◌, refl, sym, ap, ◌∙◌, Bool, true, false, ℕ, Text, Option, some, List, [], ◌∷◌, ◌++◌, Result,
  ok, err, if◌then◌else◌,
}
use fluss_gateway.Types.Errors.{GatewayError}
use fluss_gateway.Fluss.{Call, Externals}
use fluss_gateway.Gateway.{
  World, Run, Fault, fails, panics, pure, fail, panic, lift, fluss_err, ◌>>=◌, call,
}
use fluss_gateway.Pool.Confined.{handle_of}
use fluss_gateway.Backend.{conn}
use fluss_gateway.Backend.Program.{
  Prog, ends, calls, conns, chain, called, Does, returns, asks, connects, binds,
}
use fluss_gateway.Backend.Program.Safe.{
  gained, From, listed, scanned, Sub-cons, newest-From, Sub, Safe, Safe-Sub, Safe-chain,
}
use fluss_gateway.Backend.Program.Emits.{
  Emits, MayEmit, Whole-Part, Emits-chain, Part-chain, Part-reply,
}
use fluss_gateway.Gateway.Writes.{Write, written}
use fluss_gateway.Server.Auth.{BasicAuthCredentials}

-- What `?` makes of a result.
abbrev pub settled {ℓ} : {A : Type ℓ} → Result A GatewayError → Result A Fault
settled (ok a) = ok a
settled (err e) = err (fails e)

pub lift-settled : {A : Type 0} (r : Result A GatewayError) (w : World) → lift r w ≡ (settled r, w)
unfolding lift pure fail
lift-settled (ok a) w = refl
lift-settled (err e) w = refl

-- A call, by its answer.
pub call-settled :
    {A : Type 0} (answer : List Call → Call → Result A Text) (c : Call) (w : World)
    {r : Result A Text}
    → answer w.trace c ≡ r
    → call answer c w ≡ (settled (fluss_err r), called c w)
unfolding call
call-settled answer c w e =
    lift-settled (fluss_err (answer w.trace c)) (called c w)
    ∙ ap (λ r. (settled (fluss_err r), called c w)) e

module _ (x : Externals) (creds : Option BasicAuthCredentials) (Let : Type 0) where
  -- `m` has a program that stays within the handles `hs`, for requests with these credentials, and
  -- that satisfies `E`.
  pub record Stays {A : Type 0} (Q : List ℕ → A → Type 0) (E : Prog A → Type 0) (hs : List ℕ)
      (m : Run A) : Type 1 where
    pub prog : Prog A
    pub does : Does x A m prog
    pub safe : Safe x creds Let Q hs prog
    pub emits : E prog

  abbrev pub Acts : {A : Type 0} → (Prog A → Type 0) → List ℕ → Run A → Type 1
  Acts = Stays (λ hs a. Unit {0})

  -- What it changes in Fluss is `ws`.
  abbrev pub Runs : {A : Type 0} → List ℕ → List Write → Run A → Type 1
  Runs hs ws m = Acts (Emits ws) hs m

  -- What it changes satisfies `C`.
  abbrev pub MayRun : {A : Type 0} → (List Write → Type 0) → Run A → Type 1
  MayRun C m = Acts (MayEmit C) [] m

  -- What it returns is one of its handles, and it changes nothing.
  abbrev pub Takes : List ℕ → Run ℕ → Type 1
  Takes = Stays (From x) (Emits [])

  module _ {A : Type 0} (hs : List ℕ) where
    pub Runs-pure : (a : A) → Runs hs [] (pure a)
    unfolding pure
    Runs-pure a = record {
      prog = ends (ok a);
      does = returns _ _ (λ w. refl);
      safe = tt;
      emits = refl;
    }

    pub Runs-fail : (e : GatewayError) (ws : List Write) → Runs hs ws (fail {A = A} e)
    unfolding fail
    Runs-fail e ws = record {
      prog = ends (err (fails e));
      does = returns _ _ (λ w. refl);
      safe = tt;
      emits = tt;
    }

    pub Runs-panic : (m : Text) (ws : List Write) → Runs hs ws (panic {A = A} m)
    unfolding panic
    Runs-panic m ws = record {
      prog = ends (err (panics m));
      does = returns _ _ (λ w. refl);
      safe = tt;
      emits = tt;
    }

    pub Runs-lift : (r : Result A GatewayError) → Runs hs [] (lift r)
    unfolding lift
    Runs-lift (ok a) = Runs-pure a
    Runs-lift (err e) = Runs-fail e []

    pub Acts-if :
        {E : Prog A → Type 0} (b : Bool) (m n : Run A)
        → Acts E hs m
        → Acts E hs n
        → Acts E hs (if b then m else n)
    Acts-if true m n km kn = km
    Acts-if false m n km kn = kn

    pub Safe-answer :
        (r : Result A Fault) (hs' : List ℕ) → Safe x creds Let (λ hs a. Unit {0}) hs' (ends r)
    Safe-answer (ok a) hs' = tt
    Safe-answer (err e) hs' = tt

    pub Emits-answer : (r : Result A Fault) → Emits [] (ends r)
    Emits-answer (ok a) = refl
    Emits-answer (err e) = tt

    -- One call on a handle.
    pub asks-Runs :
        (m : Run A) (c : Call) (f : List Call → Result A Fault) (h : ℕ)
        → ((w : World) → m w ≡ (f w.trace, called c w))
        → handle_of c ≡ some h
        → Memᴰ h hs
        → Runs hs (written (c ∷ [])) m
    asks-Runs m c f h e on member = record {
      prog = calls c (λ t. ends (f t));
      does = asks m c f e;
      safe = ((h, on, listed h member), λ t. Safe-answer (f t) _);
      emits = ([], sym (append-nil _), λ t. Emits-answer (f t));
    }

    pub call-Runs :
        (answer : List Call → Call → Result A Text) (c : Call) (h : ℕ)
        → handle_of c ≡ some h
        → Memᴰ h hs
        → Runs hs (written (c ∷ [])) (call answer c)
    unfolding call
    call-Runs answer c h =
        asks-Runs (call answer c) c (λ t. settled (fluss_err (answer t c))) h
          (λ w. lift-settled (fluss_err (answer w.trace c)) (called c w))

  module _ {A B : Type 0} (E : Prog A → Type 0) (F : A → Prog B → Type 0) (G : Prog B → Type 0)
      (hs : List ℕ) where
    -- A chain of two, by what their changes amount to.
    pub Acts-bind :
        (m : Run A) (f : A → Run B)
        → ((p : Prog A) (q : A → Prog B) → E p → ((a : A) → F a (q a)) → G (chain p q))
        → Acts E hs m
        → ((a : A) → Acts (F a) hs (f a))
        → Acts G hs (m >>= f)
    Acts-bind m f both km kf = record {
      prog = chain km.prog (λ a. (kf a).prog);
      does = binds m f km.prog (λ a. (kf a).prog) km.does (λ a. (kf a).does);
      safe =
          Safe-chain x creds Let _ _ hs km.prog (λ a. (kf a).prog) km.safe
            (λ hs' a sub u.
              Safe-Sub x creds Let (λ hs a. Unit {0}) (λ _ _ a _ q. q) hs hs' (kf a).prog sub
                (kf a).safe);
      emits = both km.prog (λ a. (kf a).prog) km.emits (λ a. (kf a).emits);
    }

  pub Runs-bind :
      {A B : Type 0} (hs : List ℕ) (ws vs : List Write) (m : Run A) (f : A → Run B)
      → Runs hs ws m
      → ((a : A) → Runs hs vs (f a))
      → Runs hs (ws ++ vs) (m >>= f)
  Runs-bind hs ws vs m f =
      Acts-bind (Emits ws) (λ a. Emits vs) (Emits (ws ++ vs)) hs m f (Emits-chain ws vs)

  pub Runs-after :
      {A B : Type 0} (hs : List ℕ) (vs : List Write) (m : Run A) (f : A → Run B)
      → Runs hs [] m
      → ((a : A) → Runs hs vs (f a))
      → Runs hs vs (m >>= f)
  Runs-after hs vs m f = Runs-bind hs [] vs m f

pub ruleset runs_rules = (Runs-pure, Runs-fail, Runs-panic, Runs-lift, Acts-if, Runs-after)
