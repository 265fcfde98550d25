-- ===== src/Server/Tasks.antt =====
-- Requests that are handled at the same time, as src/server/mod.rs and src/pool.rs let them: each is
-- a task, and another may run wherever one waits for an answer of the client or for a connection.
pub mod Held
pub mod Moves
pub mod Entitled
pub mod Alone
pub mod Shares
pub mod Effects
use fluss_gateway.Base.{ℕ, ◌≡◌, Option, none, some, List, [], ◌∷◌, ◌++◌, Result, ok, err, All}
use fluss_gateway.Config.{AuthType}
use fluss_gateway.Fluss.{Call, CredentialKey, Externals}
use fluss_gateway.Gateway.{World, Fault, FlussBackend}
use fluss_gateway.Pool.{inserted, hash_credentials, create_connection, with_entries, close}
use fluss_gateway.Pool.Connect.{connecting}
use fluss_gateway.Backend.{account}
use fluss_gateway.Backend.Program.{Prog, calls, conns, called}
use fluss_gateway.Server.Auth.{BasicAuthCredentials}
use fluss_gateway.Server.Arrivals.{Arrival, program}
use fluss_gateway.Server.Rest.Api.{Reply}

-- What a task has left to do; a task that has opened a connection still has to insert it.
pub data Todo : Type 0 where
  going : Prog Reply → Todo
  inserting : CredentialKey → ℕ → (Result ℕ Fault → Prog Reply) → Todo

-- `did` are the calls that it has made.
pub record Task : Type 0 where
  pub arrival : Arrival
  pub todo : Todo
  pub did : List Call

-- The state that the handlers share (the breaker, which they only read, is given to each health
-- check; the mode is a parameter of the steps), the tasks, those that have left, and who made which call, the last
-- one first.
pub record System : Type 0 where
  pub world : World
  pub tasks : List Task
  pub gone : List Task
  pub made : List (Arrival × Call)

module _ (x : Externals) where
  abbrev pub key_of : Option BasicAuthCredentials → FlussBackend → CredentialKey
  key_of creds b = hash_credentials x (account creds b).0 (account creds b).1

  -- One step of a task, with the call that it makes. `Cache::get_with` may answer with what was
  -- inserted under the key, by this task or another, or await the future that connects. It runs this
  -- future at most once at a time for a key; here it may run more often.
  pub data Move : World → Todo → Option Call → World → Todo → Type 0 where
    asking :
        (w : World) (c : Call) (k : List Call → Prog Reply)
        → Move w (going (calls c k)) (some c) (called c w) (going (k w.trace))
    given :
        (w : World) (creds : Option BasicAuthCredentials) (k : Result ℕ Fault → Prog Reply)
        (conn : ℕ)
        → inserted (key_of creds w.backend) w.backend.pool.entries ≡ some conn
        → Move w (going (conns creds k)) none w (going (k (ok conn)))
    opening :
        (w w' : World) (creds : Option BasicAuthCredentials) (k : Result ℕ Fault → Prog Reply)
        (conn : ℕ)
        → create_connection x w.backend.pool.coordinator
            (account creds w.backend).0
            (account creds w.backend).1
            w
          ≡ (ok conn, w')
        → Move w
            (going (conns creds k))
            (some (connecting x (account creds w.backend).0 (account creds w.backend).1 w))
            w'
            (inserting (key_of creds w.backend) conn k)
    panicking :
        (w w' : World) (creds : Option BasicAuthCredentials) (k : Result ℕ Fault → Prog Reply)
        (e : Fault)
        → create_connection x w.backend.pool.coordinator
            (account creds w.backend).0
            (account creds w.backend).1
            w
          ≡ (err e, w')
        → Move w
            (going (conns creds k))
            (some (connecting x (account creds w.backend).0 (account creds w.backend).1 w))
            w'
            (going (k (err e)))
    insertion :
        (w : World) (key : CredentialKey) (conn : ℕ) (k : Result ℕ Fault → Prog Reply)
        → Move w
            (inserting key conn k)
            none
            (with_entries ((key, conn) ∷ w.backend.pool.entries) w)
            (going (k (ok conn)))

-- One of the tasks, before and after a step of it, and the tasks without it.
pub data Picks (t t' : Task) : List Task → List Task → Type 0 where
  this : (ts : List Task) → Picks t t' (t ∷ ts) (t' ∷ ts)
  other : (u : Task) {ts ts' : List Task} → Picks t t' ts ts' → Picks t t' (u ∷ ts) (u ∷ ts')

pub data Leaves (t : Task) : List Task → List Task → Type 0 where
  gone : (ts : List Task) → Leaves t (t ∷ ts) ts
  after : (u : Task) {ts ts' : List Task} → Leaves t ts ts' → Leaves t (u ∷ ts) (u ∷ ts')

abbrev pub done : Option Call → List Call → List Call
done none did = did
done (some c) did = did ++ c ∷ []

abbrev pub noted : Arrival → Option Call → List (Arrival × Call) → List (Arrival × Call)
noted a none made = made
noted a (some c) made = (a, c) ∷ made

module _ (x : Externals) (auth_type : AuthType) where
  -- A request arrives, also a health check; a task makes a step; a task leaves, at its end or when its client hangs up; the
  -- pool is closed.
  pub data Step (s : System) : System → Type 0 where
    arrives :
        (a : Arrival)
        → Step s (record s {
          tasks = record { arrival = a; todo = going (program x auth_type a); did = [] } ∷ s.tasks;
        })
    steps :
        (t : Task) (c : Option Call) (w : World) (todo : Todo) (ts : List Task)
        → Picks t (record t { todo = todo; did = done c t.did }) s.tasks ts
        → Move x s.world t.todo c w todo
        → Step s (record s { world = w; tasks = ts; made = noted t.arrival c s.made })
    leaves :
        (t : Task) (ts : List Task)
        → Leaves t s.tasks ts
        → Step s (record s { tasks = ts; gone = t ∷ s.gone })
    closes : Step s (record s { world = close s.world })

  pub data Reach (s : System) : System → Type 0 where
    here : Reach s s
    next : {t u : System} → Reach s t → Step t u → Reach s u

abbrev pub idle : World → System
idle w = record { world = w; tasks = []; gone = []; made = [] }

pub Reach-trans :
    {x : Externals} {auth_type : AuthType} {s t u : System}
    → Reach x auth_type s t
    → Reach x auth_type t u
    → Reach x auth_type s u
Reach-trans r here = r
Reach-trans r (next q st) = next (Reach-trans r q) st

pub Picks-All :
    (P : Task → Type 0) {t t' : Task} {ts ts' : List Task}
    → Picks t t' ts ts'
    → P t'
    → All P ts
    → All P ts'
Picks-All P (this ts) p' (p, ps) = (p', ps)
Picks-All P (other u picks) p' (p, ps) = (p, Picks-All P picks p' ps)

pub Picks-picked :
    (P : Task → Type 0) {t t' : Task} {ts ts' : List Task} → Picks t t' ts ts' → All P ts → P t
Picks-picked P (this ts) (p, ps) = p
Picks-picked P (other u picks) (p, ps) = Picks-picked P picks ps

pub Leaves-All :
    (P : Task → Type 0) {t : Task} {ts ts' : List Task} → Leaves t ts ts' → All P ts → All P ts'
Leaves-All P (gone ts) (p, ps) = ps
Leaves-All P (after u l) (p, ps) = (p, Leaves-All P l ps)

pub Leaves-left :
    (P : Task → Type 0) {t : Task} {ts ts' : List Task} → Leaves t ts ts' → All P ts → P t
Leaves-left P (gone ts) (p, ps) = p
Leaves-left P (after u l) (p, ps) = Leaves-left P l ps
