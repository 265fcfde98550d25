-- ===== src/Backend/Program/Stays/Takes.antt =====
-- Actions that take a handle, and what may be done with it then.
use mathlib.Core.List.{Memᴰ, append-nil}
use fluss_gateway.Base.{◌≡◌, refl, sym, ◌∙◌, ℕ, Text, Option, some, List, [], ◌∷◌, Result, ok, err}
use fluss_gateway.Fluss.{Call, Externals}
use fluss_gateway.Gateway.{Run, Fault, pure, fluss_err, ◌>>=◌, call}
use fluss_gateway.Pool.Confined.{handle_of}
use fluss_gateway.Backend.{conn}
use fluss_gateway.Backend.Program.{
  ends, calls, conns, chain, called, returns, asks, connects, binds,
}
use fluss_gateway.Backend.Program.Safe.{
  gained, From, listed, scanned, Sub-cons, newest-From, Sub, Safe, Safe-Sub, Safe-chain,
}
use fluss_gateway.Backend.Program.Emits.{Emits, Emits-chain}
use fluss_gateway.Gateway.Writes.{Write, written}
use fluss_gateway.Server.Auth.{BasicAuthCredentials}
use fluss_gateway.Backend.Program.Stays.{settled, lift-settled, Stays, Runs, Takes, Emits-answer}

module _ (x : Externals) (creds : Option BasicAuthCredentials) (Let : Type 0) where
  -- A handle is taken, and then used.
  take-Stays :
      {B : Type 0} (Q : List ℕ → B → Type 0) (vs : List Write) (hs : List ℕ) (m : Run ℕ)
      (f : ℕ → Run B)
      → ((hs hs' : List ℕ) (b : B) → Sub x hs hs' → Q hs b → Q hs' b)
      → Takes x creds Let hs m
      → ((h : ℕ) → Stays x creds Let Q (Emits vs) (h ∷ hs) (f h))
      → Stays x creds Let Q (Emits vs) hs (m >>= f)
  take-Stays Q vs hs m f mono km kf = record {
    prog = chain km.prog (λ a. (kf a).prog);
    does = binds m f km.prog (λ a. (kf a).prog) km.does (λ a. (kf a).does);
    safe =
        Safe-chain x creds Let _ _ hs km.prog (λ a. (kf a).prog) km.safe
          (λ hs' a sub from.
            Safe-Sub x creds Let Q mono (a ∷ hs) hs' (kf a).prog (Sub-cons x a hs hs' sub from)
              (kf a).safe);
    emits = Emits-chain [] vs km.prog (λ a. (kf a).prog) km.emits (λ a. (kf a).emits);
  }

  pub take-Runs :
      {B : Type 0} (hs : List ℕ) (vs : List Write) (m : Run ℕ) (f : ℕ → Run B)
      → Takes x creds Let hs m
      → ((h : ℕ) → Runs x creds Let (h ∷ hs) vs (f h))
      → Runs x creds Let hs vs (m >>= f)
  take-Runs hs vs m f = take-Stays (λ hs a. Unit {0}) vs hs m f (λ _ _ a _ q. q)

  pub take-Takes :
      (hs : List ℕ) (m : Run ℕ) (f : ℕ → Run ℕ)
      → Takes x creds Let hs m
      → ((h : ℕ) → Takes x creds Let (h ∷ hs) (f h))
      → Takes x creds Let hs (m >>= f)
  take-Takes hs m f = take-Stays (From x) [] hs m f (λ hs1 hs2 h s. s h)

  Safe-gained :
      (r : Result ℕ Fault) (hs : List ℕ) → Safe x creds Let (From x) (gained r hs) (ends r)
  Safe-gained (ok h) hs = newest-From x h hs
  Safe-gained (err e) hs = tt

  pub conn-Takes : (hs : List ℕ) → Let → Takes x creds Let hs (conn x creds)
  conn-Takes hs l = record {
    prog = conns creds ends;
    does = connects creds;
    safe = (refl, l, λ r. Safe-gained r hs);
    emits = λ r. Emits-answer x creds Let hs r;
  }

  pub Safe-opened :
      (r : Result ℕ Text) (hs : List ℕ)
      → Safe x creds Let (From x) (gained r hs) (ends (settled (fluss_err r)))
  Safe-opened (ok h) hs = newest-From x h hs
  Safe-opened (err e) hs = tt

  unfoldable pub opens-Takes :
      (hs : List ℕ) (c : Call) (h : ℕ)
      → handle_of c ≡ some h
      → From x hs h
      → written (c ∷ []) ≡ []
      → Takes x creds Let hs (call x.client.opens c)
  unfolding call
  opens-Takes hs c h on from quiet = record {
    prog = calls c (λ t. ends (settled (fluss_err (x.client.opens t c))));
    does =
        asks _ c (λ t. settled (fluss_err (x.client.opens t c)))
          (λ w. lift-settled (fluss_err (x.client.opens w.trace c)) (called c w));
    safe = ((h, on, from), λ t. Safe-opened (x.client.opens t c) hs);
    emits = (
      [],
      sym quiet ∙ sym (append-nil _),
      λ t. Emits-answer x creds Let hs (settled (fluss_err (x.client.opens t c))),
    );
  }

  pub scan-Takes :
      (hs : List ℕ) (t : ℕ) → Memᴰ t hs → Takes x creds Let hs (pure (x.client.new_scan t))
  unfolding pure
  scan-Takes hs t member = record {
    prog = ends (ok (x.client.new_scan t));
    does = returns _ _ (λ w. refl);
    safe = scanned t (listed t member);
    emits = refl;
  }
