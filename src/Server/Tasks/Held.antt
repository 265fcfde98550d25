-- ===== src/Server/Tasks/Held.antt =====
-- What a task holds, and what it is entitled to.
use fluss_gateway.Base.{ℕ, ◌≡◌, Text, List, [], ◌∷◌, ◌++◌, Result, All}
use fluss_gateway.Config.{AuthType, AuthConfig}
use fluss_gateway.Fluss.{Call, CredentialKey, Externals}
use fluss_gateway.Gateway.{World, Fault}
use fluss_gateway.Pool.Owned.{IsOwned, IsSound, All-Owned-append}
use fluss_gateway.Pool.Confined.{Owns, MayCall, All-still, still}
use fluss_gateway.Backend.Program.{Prog}
use fluss_gateway.Backend.Program.Safe.{gained, From, Safe}
use fluss_gateway.Server.Arrivals.{Arrival, acting_for, user_of, IsLetIn}
use fluss_gateway.Server.Tasks.{Todo, going, inserting, Task}

-- The settings of the gateway stay as they are.
module _ (x : Externals) (auth_type : AuthType) (auth : AuthConfig) (coordinator : Text) where
  abbrev pub user : Arrival → Text × Text
  user a = user_of auth_type a auth

  -- What a request may cause: its credentials were let in, and the call opens a connection with the
  -- credentials that it acts for, or is made on a handle that descends from a connection opened for
  -- this user and for a password with the same hash.
  pub record IsEntitled (trace : List Call) (a : Arrival) (c : Call) : Type 0 where
    pub let_in : IsLetIn auth_type a
    pub may_call : MayCall x coordinator (user a).0 (user a).1 trace c

  -- The history is that of the calls made since it began, each by a request that was entitled to it.
  pub data Entitled (begun : List Call) : List (Arrival × Call) → List Call → Type 0 where
    nothing : Entitled begun [] begun
    one_more :
        (made : List (Arrival × Call)) (trace : List Call) (a : Arrival) (c : Call)
        → Entitled begun made trace
        → IsEntitled trace a c
        → Entitled begun ((a, c) ∷ made) (trace ++ c ∷ [])

  abbrev pub Hands : Arrival → List Call → List ℕ → Type 0
  Hands a trace hs = All (Owns x coordinator (user a).0 (user a).1 trace) hs

  abbrev pub Stays : {A : Type 0} → Arrival → List ℕ → Prog A → Type 0
  Stays a = Safe x (acting_for auth_type a) (IsLetIn auth_type a) (λ hs r. Unit {0})

  -- A request that has a handle was let in.
  abbrev pub Admitted : Arrival → List ℕ → Type 0
  Admitted a hs = (h : ℕ) → From x hs h → IsLetIn auth_type a

  -- A task holds handles of its user, and what it has left to do stays within these.
  abbrev pub IsOwn : Arrival → List Call → Todo → Type 0
  IsOwn a trace (going p) = (hs : List ℕ) × Hands a trace hs × Admitted a hs × Stays a hs p
  IsOwn a trace (inserting key conn k) =
      (hs : List ℕ) × Hands a trace hs
      × IsLetIn auth_type a
      × ((r : Result ℕ Fault) → Stays a (gained r hs) (k r))
      × IsOwned x trace coordinator (key, conn)
      × Owns x coordinator (user a).0 (user a).1 trace conn

  abbrev pub OwnTask : List Call → Task → Type 0
  OwnTask trace t = IsOwn t.arrival trace t.todo

  pub IsOwned-still :
      (trace : List Call) (c : Call) (entry : CredentialKey × ℕ)
      → IsOwned x trace coordinator entry
      → IsOwned x (trace ++ c ∷ []) coordinator entry
  IsOwned-still trace c entry o =
      let (o', u) = All-Owned-append x trace coordinator c (entry ∷ []) (o, tt) in o'

  pub IsOwn-still :
      (a : Arrival) (trace : List Call) (c : Call) (todo : Todo)
      → IsOwn a trace todo
      → IsOwn a (trace ++ c ∷ []) todo
  IsOwn-still a trace c (going p) (hs, own, l, s) =
      (hs, All-still x coordinator (user a).0 (user a).1 trace c hs own, l, s)
  IsOwn-still a trace c (inserting key conn k) (hs, own, l, s, o, mine) = (
    hs,
    All-still x coordinator (user a).0 (user a).1 trace c hs own,
    l,
    s,
    IsOwned-still trace c (key, conn) o,
    still trace c conn mine,
  )

  pub All-OwnTask-still :
      (trace : List Call) (c : Call) (ts : List Task)
      → All (OwnTask trace) ts
      → All (OwnTask (trace ++ c ∷ [])) ts
  All-OwnTask-still trace c [] own = tt
  All-OwnTask-still trace c (t ∷ ts) (o, own) =
      (IsOwn-still t.arrival trace c t.todo o, All-OwnTask-still trace c ts own)

  -- The settings and a sound pool.
  pub record IsConfigured (w : World) : Type 0 where
    pub sound : IsSound x w
    pub same_coordinator : w.backend.pool.coordinator ≡ coordinator
    pub same_auth : w.backend.auth ≡ auth
