-- ===== src/Backend/Program.antt =====
-- An action of a request as a program of its calls: what a task does between two points at which
-- others may run. Only a call of the client and the pool's answer can be waited for.
pub mod Safe
pub mod Emits
pub mod Stays
pub mod Alone
pub mod Undisturbed
use fluss_gateway.Base.{◌≡◌, refl, sym, ◌∙◌, ap, ℕ, Option, List, [], ◌∷◌, ◌++◌, Result, ok, err}
use fluss_gateway.Fluss.{Call, Externals}
use fluss_gateway.Gateway.{World, Run, Fault, continue, ◌>>=◌}
use fluss_gateway.Backend.{conn}
use fluss_gateway.Server.Auth.{BasicAuthCredentials}

-- A call goes on with the history before it, on which the client's answer depends.
pub data Prog (A : Type 0) : Type 0 where
  ends : Result A Fault → Prog A
  calls : Call → (List Call → Prog A) → Prog A
  conns : Option BasicAuthCredentials → (Result ℕ Fault → Prog A) → Prog A

module _ {A B : Type 0} where
  unfoldable pub chain : Prog A → (A → Prog B) → Prog B
  chain (ends (ok a)) q = q a
  chain (ends (err e)) q = ends (err e)
  chain (calls c k) q = calls c (λ t. chain (k t) q)
  chain (conns creds k) q = conns creds (λ r. chain (k r) q)

-- The same calls, and another result.
unfoldable pub mapped : {A B : Type 0} → (Result A Fault → Result B Fault) → Prog A → Prog B
mapped g (ends r) = ends (g r)
mapped g (calls c k) = calls c (λ t. mapped g (k t))
mapped g (conns creds k) = conns creds (λ r. mapped g (k r))

abbrev pub called : Call → World → World
called c w = record w { trace = w.trace ++ c ∷ [] }

module _ (x : Externals) where
  -- A program that no other task disturbs.
  unfoldable pub run : {A : Type 0} → Prog A → Run A
  run (ends r) w = (r, w)
  run (calls c k) w = run (k w.trace) (called c w)
  run (conns creds k) w = run (k (conn x creds w).0) (conn x creds w).1

  -- The program of an action: a step that makes no call, one call with what is made of its answer,
  -- a connection from the pool, a chain of two, and one whose result is made into another.
  pub data Does : (A : Type 0) → Run A → Prog A → Type 1 where
    returns :
        {A : Type 0} (m : Run A) (r : Result A Fault)
        → ((w : World) → m w ≡ (r, w))
        → Does A m (ends r)
    asks :
        {A : Type 0} (m : Run A) (c : Call) (f : List Call → Result A Fault)
        → ((w : World) → m w ≡ (f w.trace, called c w))
        → Does A m (calls c (λ t. ends (f t)))
    connects : (creds : Option BasicAuthCredentials) → Does ℕ (conn x creds) (conns creds ends)
    binds :
        {A B : Type 0} (m : Run A) (f : A → Run B) (p : Prog A) (q : A → Prog B)
        → Does A m p
        → ((a : A) → Does B (f a) (q a))
        → Does B (m >>= f) (chain p q)
    maps :
        {A B : Type 0} (m : Run A) (n : Run B) (g : Result A Fault → Result B Fault) (p : Prog A)
        → ((w : World) → n w ≡ (g (m w).0, (m w).1))
        → Does A m p
        → Does B n (mapped g p)

  run-mapped :
      {A B : Type 0} (g : Result A Fault → Result B Fault) (p : Prog A) (w : World)
      → run (mapped g p) w ≡ (g (run p w).0, (run p w).1)
  unfolding run mapped
  run-mapped g (ends r) w = refl
  run-mapped g (calls c k) w = run-mapped g (k w.trace) (called c w)
  run-mapped g (conns creds k) w = run-mapped g (k (conn x creds w).0) (conn x creds w).1

  run-chain :
      {A B : Type 0} (p : Prog A) (q : A → Prog B) (w : World)
      → run (chain p q) w ≡ continue (run p w).0 (λ a. run (q a)) (run p w).1
  unfolding run chain
  run-chain (ends (ok a)) q w = refl
  run-chain (ends (err e)) q w = refl
  run-chain (calls c k) q w = run-chain (k w.trace) q (called c w)
  run-chain (conns creds k) q w = run-chain (k (conn x creds w).0) q (conn x creds w).1

  continue-same :
      {A B : Type 0} (r : Result A Fault) (f g : A → Run B) (w : World)
      → ((a : A) (w : World) → f a w ≡ g a w)
      → continue r f w ≡ continue r g w
  continue-same (ok a) f g w e = e a w
  continue-same (err e') f g w e = refl

  -- A program that is not disturbed does what the action does.
  pub Does-run : {A : Type 0} {m : Run A} {p : Prog A} → Does A m p → (w : World) → run p w ≡ m w
  unfolding run ◌>>=◌
  Does-run (returns m r e) w = sym (e w)
  Does-run (asks m c f e) w = sym (e w)
  Does-run (connects creds) w = refl
  Does-run (maps m n g p e d) w =
      run-mapped g p w ∙ ap (λ o. (g o.0, o.1)) (Does-run d w) ∙ sym (e w)
  Does-run (binds m f p q d k) w =
      run-chain p q w
      ∙ ap (λ o. continue o.0 (λ a. run (q a)) o.1) (Does-run d w)
      ∙ continue-same (m w).0 (λ a. run (q a)) f (m w).1 (λ a. Does-run (k a))
