-- ===== src/Pool/Confined/Holds.antt =====
-- What holds while the request of a user is handled, and the rules of the actions that keep it.
use fluss_gateway.Base.{ℕ, ◌≡◌, Text, some, List, ◌∷◌, [], ◌++◌, ok, All}
use fluss_gateway.Fluss.{Call, Externals}
use fluss_gateway.Gateway.{World, Run}
use fluss_gateway.Pool.Owned.{IsSound, All-Owned-append}
use fluss_gateway.Pool.Confined.{handle_of, Owns, Grows, more, reaches, All-still}

module _ (x : Externals) (coordinator username password : Text) where
  abbrev Owned : List Call → ℕ → Type 0
  Owned = Owns x coordinator username password

  -- While a request of the user is handled: the pool is sound, its settings stay, the history has
  -- grown by calls that the user may cause, and the handles taken so far belong to the user.
  pub record Holds (start : World) (hs : List ℕ) (w : World) : Type 0 where
    pub sound : IsSound x w
    pub same_coordinator : w.backend.pool.coordinator ≡ coordinator
    pub same_auth : w.backend.auth ≡ start.backend.auth
    pub grown : Grows x coordinator username password start.trace w.trace
    pub owned : All (Owned w.trace) hs

  module _ (start : World) where
    -- A call on a handle of the user.
    pub called-Holds :
        (hs : List ℕ) (c : Call) (h : ℕ) (w : World)
        → handle_of c ≡ some h
        → Owned w.trace h
        → Holds start hs w
        → Holds start hs (record w { trace = w.trace ++ c ∷ [] })
    called-Holds hs c h w on o k = record {
      sound =
          All-Owned-append x w.trace w.backend.pool.coordinator c w.backend.pool.entries k.sound;
      same_coordinator = k.same_coordinator;
      same_auth = k.same_auth;
      grown = more w.trace c k.grown (reaches c h on o);
      owned = All-still x coordinator username password w.trace c hs k.owned;
    }

    -- Other handles of the user.
    pub with_handles :
        (hs hs' : List ℕ) (w : World)
        → Holds start hs w
        → All (Owned w.trace) hs'
        → Holds start hs' w
    with_handles hs hs' w k o = record {
      sound = k.sound;
      same_coordinator = k.same_coordinator;
      same_auth = k.same_auth;
      grown = k.grown;
      owned = o;
    }

    -- An action that takes a handle, unless it fails.
    pub record Gives (hs : List ℕ) (m : Run ℕ) : Type 0 where
      pub keeps : (w : World) → Holds start hs w → Holds start hs (m w).1
      pub gives : (w : World) (h : ℕ) → Holds start hs w → (m w).0 ≡ ok h → Owned (m w).1.trace h
