-- ===== src/Backend/Program/Alone.antt =====
-- A program that stays within its handles, undisturbed by others.
use fluss_gateway.Base.{◌≡◌, refl, ap, ℕ, Option, none, some, Text, List, [], Result, ok, err, All}
use fluss_gateway.Fluss.{Call, Externals}
use fluss_gateway.Gateway.{FlussBackend, World}
use fluss_gateway.Pool.Owned.{IsSound}
use fluss_gateway.Pool.Confined.{Owns, scans, answered, same, All-at}
use fluss_gateway.Pool.Confined.Holds.{Holds, Gives, called-Holds, with_handles}
use fluss_gateway.Pool.Confined.Take.{get_or_create-Gives}
use fluss_gateway.Backend.{conn, account}
use fluss_gateway.Backend.Program.{Prog, ends, calls, conns, called, run}
use fluss_gateway.Backend.Program.Safe.{gained, From, listed, scanned, Safe}
use fluss_gateway.Server.Auth.{BasicAuthCredentials}

account-same :
    (creds : Option BasicAuthCredentials) (b c : FlussBackend)
    → b.auth ≡ c.auth
    → account creds b ≡ account creds c
account-same none b c e = ap (λ a. (a.startup_username, a.startup_password)) e
account-same (some creds) b c e = refl

-- Handles that come from a user's handles are the user's.
pub From-Owns :
    (x : Externals) (coordinator username password : Text) (trace : List Call) (hs : List ℕ) (h : ℕ)
    → All (Owns x coordinator username password trace) hs
    → From x hs h
    → Owns x coordinator username password trace h
From-Owns x coordinator username password trace hs h owned (listed _ m) =
    All-at x coordinator username password trace hs h owned m
From-Owns x coordinator username password trace hs h owned (scanned t from) =
    scans trace t (From-Owns x coordinator username password trace hs t owned from)

-- So is a handle that was gained.
pub gained-All {ℓ κ} :
    {E : Type ℓ} (P : ℕ → Type κ) (r : Result ℕ E) (hs : List ℕ)
    → ((h : ℕ) → r ≡ ok h → P h)
    → All P hs
    → All P (gained r hs)
gained-All P (ok h) hs p owned = (p h refl, owned)
gained-All P (err e) hs p owned = owned

module _ (x : Externals) (creds : Option BasicAuthCredentials) (start : World) where
  -- What holds while a request with these credentials is handled alone, with the handles `hs` in
  -- its hands.
  abbrev pub Within : List ℕ → World → Type 0
  Within =
      Holds x start.backend.pool.coordinator (account creds start.backend).0
        (account creds start.backend).1 start

  pub starts : (s : IsSound x start) → Within [] start
  starts s = record {
    sound = s;
    same_coordinator = refl;
    same_auth = refl;
    grown = same;
    owned = tt;
  }

  conn-Gives :
      (hs : List ℕ)
      → Gives x start.backend.pool.coordinator
          (account creds start.backend).0
          (account creds start.backend).1
          start
          hs
          (conn x creds)
  unfolding conn
  conn-Gives hs =
      let taken =
        get_or_create-Gives x start.backend.pool.coordinator (account creds start.backend).0
          (account creds start.backend).1 start hs in
      record {
        keeps =
            λ w k. rw (account-same creds w.backend start.backend k.same_auth) (taken.keeps w k);
        gives = λ w h k e.
            let same = account-same creds w.backend start.backend k.same_auth in
            rw same (taken.gives w h k (rw same at e));
      }

  -- Whatever a safe program does, it is within the handles of its user.
  pub run-Within :
      {A : Type 0} (Let : Type 0) (Q : List ℕ → A → Type 0) (p : Prog A) (hs : List ℕ) (w : World)
      → Safe x creds Let Q hs p
      → Within hs w
      → Within [] (run x p w).1
  unfolding run
  run-Within Let Q (ends r) hs w s k = with_handles x _ _ _ start hs [] w k tt
  run-Within Let Q (calls c f) hs w ((h, on, from), s) k =
      let o = From-Owns x _ _ _ w.trace hs h k.owned from in
      let k' = called-Holds x _ _ _ start hs c h w on o k in
      let r = x.client.opens w.trace c in
      run-Within Let Q (f w.trace) (gained r hs) (called c w) (s w.trace) (
        with_handles x _ _ _ start hs (gained r hs) (called c w) k'
          (gained-All _ r hs (λ g e. answered w.trace c h g on o e) k'.owned))
  run-Within Let Q (conns creds' f) hs w (e, l, s) k =
      let g = conn-Gives hs in
      let k' = g.keeps w k in
      let r = (conn x creds w).0 in
      rw e (
        run-Within Let Q (f r) (gained r hs) (conn x creds w).1 (s r) (
          with_handles x _ _ _ start hs (gained r hs) (conn x creds w).1 k'
            (gained-All _ r hs (λ h done. g.gives w h k done) k'.owned)))
