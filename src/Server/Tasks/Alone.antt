-- ===== src/Server/Tasks/Alone.antt =====
-- A task that no other disturbs does what its handler does.
use mathlib.Core.List.{Memᴰ}
use fluss_gateway.Base.{
  ℕ, ◌≡◌, refl, ap, subst, Option, List, [], ◌∷◌, Result, ok, Bool-cases, Option-cases,
  Result-cases, inl, inr,
}
use fluss_gateway.Config.{AuthType}
use fluss_gateway.Fluss.{Call, Externals}
use fluss_gateway.Gateway.{World, Fault}
use fluss_gateway.Pool.{inserted, get_with, get_or_create, create_and_insert, with_entries}
use fluss_gateway.Pool.Connect.{
  connecting, create_connection-answered, create_connection-refused, create_and_insert-ok,
  create_and_insert-err,
}
use fluss_gateway.Backend.{conn, account}
use fluss_gateway.Backend.Program.{Prog, ends, calls, conns, called, run}
use fluss_gateway.Server.Auth.{BasicAuthCredentials}
use fluss_gateway.Server.Rest.Api.{Reply}
use fluss_gateway.Server.Arrivals.{Arrival}
use fluss_gateway.Server.Tasks.{
  Todo, going, inserting, Task, System, key_of, Move, asking, given, opening, panicking, insertion,
  Picks, this, other, done, noted, steps, Reach, here, next,
}

-- Steps of one task, with none of another in between.
pub data Moves (x : Externals) (w : World) (todo : Todo) : World → Todo → Type 0 where
  unmoved : Moves x w todo w todo
  moved :
      {w' w'' : World} {todo' todo'' : Todo} {c : Option Call}
      → Moves x w todo w' todo'
      → Move x w' todo' c w'' todo''
      → Moves x w todo w'' todo''

module _ (x : Externals) (auth_type : AuthType) (start : System) (a : Arrival) (w0 : World)
    (todo0 : Todo) (among : Todo → List Call → List Task) (gone : List Task)
    (picks : (todo todo' : Todo) (did did' : List Call)
      → Picks
          (record { arrival = a; todo = todo; did = did })
          (record { arrival = a; todo = todo'; did = did' })
          (among todo did)
          (among todo' did')) where
  -- The system can come to be in this state by steps of this task alone, the others as they were.
  abbrev pub Comes : World → Todo → Type 0
  Comes w todo =
      (did : List Call) × (made : List (Arrival × Call)) × Moves x w0 todo0 w todo
      × Reach x auth_type start
          (record { world = w; tasks = among todo did; gone = gone; made = made })

  moves :
      {w w' : World} {todo todo' : Todo} {c : Option Call}
      → Move x w todo c w' todo'
      → Comes w todo
      → Comes w' todo'
  moves {w} {w'} {todo} {todo'} {c} m (did, made, own, r) = (
    done c did,
    noted a c made,
    moved own m,
    next r (
        steps (record { arrival = a; todo = todo; did = did }) c w' todo' _
          (picks todo todo' did (done c did)) m),
  )

  module _ (creds : Option BasicAuthCredentials) (k : Result ℕ Fault → Prog Reply) (w : World) where
    abbrev GoesOn : Result ℕ Fault × World → Type 0
    GoesOn (r, w') = Comes w' (going (k r))

    makes :
        Comes w (going (conns creds k))
        → GoesOn (
            create_and_insert x
              (account creds w.backend).0
              (account creds w.backend).1
              (key_of x creds w.backend)
              w)
    makes r =
        let u = account creds w.backend in
        elim (Result-cases (x.client.opens w.trace (connecting x u.0 u.1 w))) [
          | inl (conn, done) ↦
              rw (create_and_insert-ok x u.0 u.1 w (key_of x creds w.backend) conn done) (
                moves (insertion _ (key_of x creds w.backend) conn k) (
                  moves
                    (opening w _ creds k conn (create_connection-answered x u.0 u.1 w conn done))
                    r))
          | inr (e, failed) ↦
              rw (create_and_insert-err x u.0 u.1 w (key_of x creds w.backend) e failed)
                (moves (panicking w _ creds k _ (create_connection-refused x u.0 u.1 w e failed)) r)
        ]

    takes : Comes w (going (conns creds k)) → GoesOn (conn x creds w)
    unfolding conn get_or_create get_with
    takes r =
        elim (Bool-cases (
          x.holds w.backend.pool.cache w.backend.pool.entries w.trace (key_of x creds w.backend))) [
            | inl held ↦
                elim (Option-cases (inserted (key_of x creds w.backend) w.backend.pool.entries)) [
                  | inl missing ↦ rw (held, missing) (makes r)
                  | inr (conn, found) ↦ rw (held, found) (moves (given w creds k conn found) r)
                ]
            | inr dropped ↦ rw dropped (makes r)
          ]

  runs :
      (p : Prog Reply) (w : World)
      → Comes w (going p)
      → Comes (run x p w).1 (going (ends (run x p w).0))
  unfolding run
  runs (ends r) w c = c
  runs (calls c k) w r = runs (k w.trace) (called c w) (moves (asking w c k) r)
  runs (conns creds k) w r = runs (k (conn x creds w).0) (conn x creds w).1 (takes creds k w r)

  pub ends_of :
      (todo : Todo) (w : World)
      → Comes w todo
      → (r : Result Reply Fault) × (w' : World) × Comes w' (going (ends r))
  ends_of (going p) w c = ((run x p w).0, (run x p w).1, runs p w c)
  ends_of (inserting key conn k) w c =
      let p = k (ok conn) in
      let w' = with_entries ((key, conn) ∷ w.backend.pool.entries) w in
      ((run x p w').0, (run x p w').1, runs p w' (moves (insertion w key conn k) c))

-- The others around a task.
around : (t : Task) (ts : List Task) → Memᴰ t ts → Todo → List Call → List Task
around t [] m todo did = elim m [ ]
around t (u ∷ ts) (Memᴰ.head e) todo did =
    record { arrival = t.arrival; todo = todo; did = did } ∷ ts
around t (u ∷ ts) (Memᴰ.tail m) todo did = u ∷ around t ts m todo did

around-Picks :
    (t : Task) (ts : List Task) (m : Memᴰ t ts) (todo todo' : Todo) (did did' : List Call)
    → Picks
        (record { arrival = t.arrival; todo = todo; did = did })
        (record { arrival = t.arrival; todo = todo'; did = did' })
        (around t ts m todo did)
        (around t ts m todo' did')
unfolding around
around-Picks t [] m todo todo' did did' = elim m [ ]
around-Picks t (u ∷ ts) (Memᴰ.head e) todo todo' did did' = this ts
around-Picks t (u ∷ ts) (Memᴰ.tail m) todo todo' did did' =
    other u (around-Picks t ts m todo todo' did did')

around-same : (t : Task) (ts : List Task) (m : Memᴰ t ts) → around t ts m t.todo t.did ≡ ts
unfolding around
around-same t [] m = elim m [ ]
around-same t (u ∷ ts) (Memᴰ.head e) = ap (λ v. v ∷ ts) e
around-same t (u ∷ ts) (Memᴰ.tail m) = ap (λ l. u ∷ l) (around-same t ts m)

pub Reach-ends :
    (x : Externals) (auth_type : AuthType) (s : System) (t : Task)
    → Memᴰ t s.tasks
    → (r : Result Reply Fault) × (did : List Call) × (u : System) × Moves x s.world t.todo u.world
        (going (ends r))
      × Picks t (record t { todo = going (ends r); did = did }) s.tasks u.tasks
      × (u.gone ≡ s.gone)
      × Reach x auth_type s u
Reach-ends x auth_type s t m =
    let at_first : Reach x auth_type s (record s { tasks = around t s.tasks m t.todo t.did }) =
      rw (around-same t s.tasks m) here in
    let (r, w, (did, made, own, reach)) =
      ends_of x auth_type s t.arrival s.world t.todo (around t s.tasks m) s.gone
        (around-Picks t s.tasks m) t.todo s.world (t.did, s.made, unmoved, at_first) in
    let picks = around-Picks t s.tasks m t.todo (going (ends r)) t.did did in
    (
      r,
      did,
      record {
        world = w;
        tasks = around t s.tasks m (going (ends r)) did;
        gone = s.gone;
        made = made;
      },
      own,
      subst
          (λ ts.
            Picks t (record t { todo = going (ends r); did = did }) ts
              (around t s.tasks m (going (ends r)) did))
          (around-same t s.tasks m) picks,
      refl,
      reach,
    )
