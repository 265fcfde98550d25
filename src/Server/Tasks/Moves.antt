-- ===== src/Server/Tasks/Moves.antt =====
-- A step of a task leaves to each what it holds, and makes only calls that it is entitled to.
use fluss_gateway.Base.{
  ℕ, ◌≡◌, refl, sym, subst, ap, ◌∙◌, Text, Option, none, some, List, ◌∷◌, Result, ok, err, All,
}
use fluss_gateway.Config.{AuthType, AuthConfig}
use fluss_gateway.Fluss.{Call, Externals}
use fluss_gateway.Gateway.{World, Fault}
use fluss_gateway.Pool.{inserted, hash_credentials, with_entries}
use fluss_gateway.Pool.Connect.{connecting, create_connection-called, create_connection-ok}
use fluss_gateway.Pool.Owned.{IsOwned, All-Owned-append, inserted-All}
use fluss_gateway.Pool.Isolation.{opened-IsOwned}
use fluss_gateway.Pool.Confined.{connected, answered, connects, reaches, All-still}
use fluss_gateway.Backend.{account}
use fluss_gateway.Backend.Program.{Prog, calls, conns, called}
use fluss_gateway.Backend.Program.Safe.{gained}
use fluss_gateway.Backend.Program.Alone.{From-Owns, gained-All}
use fluss_gateway.Server.Auth.{BasicAuthCredentials}
use fluss_gateway.Server.Rest.Api.{Reply}
use fluss_gateway.Server.Arrivals.{Arrival, acting_for, user_of, account-acting_for, IsLetIn}
use fluss_gateway.Server.Tasks.{
  Todo, going, inserting, Task, key_of, Move, asking, given, opening, panicking, insertion, noted,
}
use fluss_gateway.Server.Tasks.Held.{
  user, IsEntitled, Entitled, Hands, Stays, IsOwn, OwnTask, All-OwnTask-still, IsConfigured,
  one_more,
}

module _ (x : Externals) (auth_type : AuthType) (auth : AuthConfig) (coordinator : Text) where
  -- For these settings.
  abbrev Configured : World → Type 0
  Configured = IsConfigured x auth_type auth coordinator

  abbrev Own : Arrival → List Call → Todo → Type 0
  Own = IsOwn x auth_type auth coordinator

  abbrev MayMake : List Call → Arrival → Call → Type 0
  MayMake = IsEntitled x auth_type auth coordinator

  abbrev me : Arrival → Text × Text
  me = user x auth_type auth coordinator

  -- What a step of a task leaves.
  pub record Moved (a : Arrival) (w : World) (made : Option Call) (w' : World) (todo : Todo)
      : Type 0 where
    pub set : Configured w'
    pub own : Own a w'.trace todo
    pub others :
        (ts : List Task)
        → All (OwnTask x auth_type auth coordinator w.trace) ts
        → All (OwnTask x auth_type auth coordinator w'.trace) ts
    pub entitled :
        (begun : List Call) (log : List (Arrival × Call))
        → Entitled x auth_type auth coordinator begun log w.trace
        → Entitled x auth_type auth coordinator begun (noted a made log) w'.trace

  called-IsConfigured : (c : Call) (w : World) → Configured w → Configured (called c w)
  called-IsConfigured c w i = record {
    sound = All-Owned-append x w.trace w.backend.pool.coordinator c w.backend.pool.entries i.sound;
    same_coordinator = i.same_coordinator;
    same_auth = i.same_auth;
  }

  -- A call that the task is entitled to.
  called-Moved :
      (a : Arrival) (w : World) (c : Call) (todo : Todo)
      → Configured w
      → MayMake w.trace a c
      → Own a (called c w).trace todo
      → Moved a w (some c) (called c w) todo
  called-Moved a w c todo i e o = record {
    set = called-IsConfigured c w i;
    own = o;
    others = All-OwnTask-still x auth_type auth coordinator w.trace c;
    entitled = λ begun log done. one_more log w.trace a c done e;
  }

  account-user :
      (a : Arrival) (creds : Option BasicAuthCredentials) (w : World)
      → Configured w
      → creds ≡ acting_for auth_type a
      → account creds w.backend ≡ me a
  account-user a creds w i e =
      ap (λ c. account c w.backend) e
      ∙ account-acting_for auth_type a w.backend
      ∙ ap (user_of auth_type a) i.same_auth

  asking-Moved :
      (a : Arrival) (w : World) (c : Call) (k : List Call → Prog Reply)
      → Configured w
      → Own a w.trace (going (calls c k))
      → Moved a w (some c) (called c w) (going (k w.trace))
  asking-Moved a w c k i (hs, own, l, ((h, on, from), s)) =
      let let_in = l h from in
      let mine = From-Owns x coordinator (me a).0 (me a).1 w.trace hs h own from in
      let r = x.client.opens w.trace c in
      called-Moved a w c (going (k w.trace)) i
        (record { let_in = let_in; may_call = reaches c h on mine })
        (
          gained r hs,
          gained-All _ r hs (λ g e. answered w.trace c h g on mine e)
              (All-still x coordinator (me a).0 (me a).1 w.trace c hs own),
          λ g f. let_in,
          s w.trace,
        )

  -- A step that makes no call and leaves the pool sound.
  silent-Moved :
      (a : Arrival) (w w' : World) (todo : Todo)
      → Configured w'
      → w'.trace ≡ w.trace
      → Own a w.trace todo
      → Moved a w none w' todo
  silent-Moved a w w' todo i e o = record {
    set = i;
    own = rw e o;
    others = λ ts own. rw e own;
    entitled = λ begun log done. rw e done;
  }

  given-Moved :
      (a : Arrival) (w : World) (creds : Option BasicAuthCredentials)
      (k : Result ℕ Fault → Prog Reply) (conn : ℕ)
      → inserted (key_of x creds w.backend) w.backend.pool.entries ≡ some conn
      → Configured w
      → Own a w.trace (going (conns creds k))
      → Moved a w none w (going (k (ok conn)))
  given-Moved a w creds k conn found i (hs, own, l, (e, let_in, s)) =
      let found' : inserted (hash_credentials x (me a).0 (me a).1) w.backend.pool.entries
          ≡ some conn =
        subst (λ u. inserted (hash_credentials x u.0 u.1) w.backend.pool.entries ≡ some conn)
          (account-user a creds w i e) found in
      let owned =
        inserted-All x (IsOwned x w.trace w.backend.pool.coordinator) _ w.backend.pool.entries conn
          found' i.sound in
      silent-Moved a w w (going (k (ok conn))) i refl (
        conn ∷ hs,
        (connected w.trace conn (rw i.same_coordinator at owned), own),
        λ g f. let_in,
        s (ok conn),
      )

  -- An attempt to connect is a call that the task is entitled to.
  connects-IsEntitled :
      (a : Arrival) (w : World)
      → Configured w
      → IsLetIn auth_type a
      → MayMake w.trace a (connecting x (me a).0 (me a).1 w)
  connects-IsEntitled a w i let_in = record {
    let_in = let_in;
    may_call = rw i.same_coordinator connects;
  }

  opening-Moved :
      (a : Arrival) (w : World) (u : Text × Text) (k : Result ℕ Fault → Prog Reply) (conn : ℕ)
      (hs : List ℕ)
      → u ≡ me a
      → x.client.opens w.trace (connecting x u.0 u.1 w) ≡ ok conn
      → Configured w
      → Hands x auth_type auth coordinator a w.trace hs
      → IsLetIn auth_type a
      → ((r : Result ℕ Fault) → Stays x auth_type auth coordinator a (gained r hs) (k r))
      → Moved a w
          (some (connecting x u.0 u.1 w))
          (called (connecting x u.0 u.1 w) w)
          (inserting (hash_credentials x u.0 u.1) conn k)
  opening-Moved a w u k conn hs e done i own let_in s = rw e (
      let owned : IsOwned x (called (connecting x (me a).0 (me a).1 w) w).trace
          w.backend.pool.coordinator (hash_credentials x (me a).0 (me a).1, conn) =
        opened-IsOwned x (me a).0 (me a).1 w conn (rw e at done) in
      let mine =
        subst
          (λ c.
            IsOwned x (called (connecting x (me a).0 (me a).1 w) w).trace c
              (hash_credentials x (me a).0 (me a).1, conn))
          i.same_coordinator owned in
      called-Moved a w (connecting x (me a).0 (me a).1 w)
        (inserting (hash_credentials x (me a).0 (me a).1) conn k) i
        (connects-IsEntitled a w i let_in)
        (
          hs,
          All-still x coordinator (me a).0 (me a).1 w.trace _ hs own,
          let_in,
          s,
          mine,
          connected _ conn mine,
        ))

  pub Move-Moved :
      (a : Arrival) {w w' : World} {todo todo' : Todo} {made : Option Call}
      → Move x w todo made w' todo'
      → Configured w
      → Own a w.trace todo
      → Moved a w made w' todo'
  Move-Moved a (asking w c k) i o = asking-Moved a w c k i o
  Move-Moved a (given w creds k conn found) i o = given-Moved a w creds k conn found i o
  Move-Moved a (opening w w' creds k conn e) i (hs, own, l, (same, let_in, s)) =
      let u = account creds w.backend in
      let moved : w' ≡ called (connecting x u.0 u.1 w) w =
        sym (ap (λ o. o.1) e) ∙ create_connection-called x u.0 u.1 w in
      rw moved (
        opening-Moved a w u k conn hs (account-user a creds w i same)
          (create_connection-ok x u.0 u.1 w conn (ap (λ o. o.0) e)) i own let_in s)
  Move-Moved a (panicking w w' creds k m e) i (hs, own, l, (same, let_in, s)) =
      let u = account creds w.backend in
      let moved : w' ≡ called (connecting x u.0 u.1 w) w =
        sym (ap (λ o. o.1) e) ∙ create_connection-called x u.0 u.1 w in
      let is_user = account-user a creds w i same in
      rw moved (
        called-Moved a w (connecting x u.0 u.1 w) (going (k (err m))) i
          (rw is_user (connects-IsEntitled a w i let_in))
          (hs, All-still x coordinator (me a).0 (me a).1 w.trace _ hs own, l, s (err m)))
  Move-Moved a (insertion w key conn k) i (hs, own, l, s, o, mine) =
      silent-Moved a w (with_entries ((key, conn) ∷ w.backend.pool.entries) w) (going (k (ok conn)))
        (record {
          sound = (rw i.same_coordinator o, i.sound);
          same_coordinator = i.same_coordinator;
          same_auth = i.same_auth;
        })
        refl (conn ∷ hs, (mine, own), λ g f. l, s (ok conn))
