-- ===== src/Server/Tasks/Shares.antt =====
-- Whatever the interleaving, the calls are those of the tasks, and of these the history consists.
use mathlib.Core.List.{Permᴰ, map-append, append_assoc, append-nil}
use mathlib.Core.List.Permᴰ
use fluss_gateway.Base.{
  ◌≡◌, refl, sym, ap, subst, ◌∙◌, Option, none, some, List, [], ◌∷◌, ◌++◌, map,
}
use fluss_gateway.Config.{AuthType}
use fluss_gateway.Fluss.{Call, Externals}
use fluss_gateway.Gateway.{World}
use fluss_gateway.Pool.{close}
use fluss_gateway.Pool.Connect.{create_connection-called}
use fluss_gateway.Backend.{account}
use fluss_gateway.Server.Arrivals.{Arrival}
use fluss_gateway.Server.Tasks.{
  Todo, Task, System, Move, asking, given, opening, panicking, insertion, Picks, this, other,
  Leaves, gone, after, done, noted, Step, arrives, steps, leaves, closes, Reach, here, next, idle,
}

-- The calls of tasks, each with the request that it was made for.
unfoldable pub calls_of : List Task → List (Arrival × Call)
calls_of [] = []
calls_of (t ∷ ts) = map (λ c. (t.arrival, c)) t.did ++ calls_of ts

-- In the order in which they were made.
unfoldable pub in_order : List (Arrival × Call) → List Call
in_order [] = []
in_order ((a, c) ∷ made) = in_order made ++ c ∷ []

grows :
    (a : Arrival) (did : List Call) (c : Option Call) (l : List (Arrival × Call))
    → Permᴰ (noted a c (map (λ c. (a, c)) did ++ l)) (map (λ c. (a, c)) (done c did) ++ l)
grows a did none l = Permᴰ.refl _
grows a did (some c) l =
    subst (λ m. Permᴰ ((a, c) ∷ map (λ c. (a, c)) did ++ l) m)
      (sym (
        ap (λ m. m ++ l) (map-append (λ c. (a, c)) did (c ∷ []))
        ∙ append_assoc (map (λ c. (a, c)) did) ((a, c) ∷ []) l))
      (Permᴰ.symm (Permᴰ.middle (a, c) (map (λ c. (a, c)) did) l))

noted-left :
    (a : Arrival) (c : Option Call) (l m : List (Arrival × Call))
    → Permᴰ (noted a c (l ++ m)) (l ++ noted a c m)
noted-left a none l m = Permᴰ.refl _
noted-left a (some c) l m = Permᴰ.symm (Permᴰ.middle (a, c) l m)

noted-Perm :
    (a : Arrival) (c : Option Call) {l m : List (Arrival × Call)}
    → Permᴰ l m
    → Permᴰ (noted a c l) (noted a c m)
noted-Perm a none p = p
noted-Perm a (some c) p = Permᴰ.append_left ((a, c) ∷ []) p

noted-append :
    (a : Arrival) (c : Option Call) (l m : List (Arrival × Call))
    → noted a c (l ++ m) ≡ noted a c l ++ m
noted-append a none l m = refl
noted-append a (some c) l m = refl

Picks-calls :
    {t : Task} {todo : Todo} (c : Option Call) {ts ts' : List Task}
    → Picks t (record t { todo = todo; did = done c t.did }) ts ts'
    → Permᴰ (noted t.arrival c (calls_of ts)) (calls_of ts')
unfolding calls_of
Picks-calls {t} c (this ts) = grows t.arrival t.did c (calls_of ts)
Picks-calls {t} c (other u {ts = ts} picks) =
    let mine = map (λ c. (u.arrival, c)) u.did in
    Permᴰ.trans (noted-left t.arrival c mine (calls_of ts))
      (Permᴰ.append_left mine (Picks-calls c picks))

across : (l m r : List (Arrival × Call)) → Permᴰ (l ++ (m ++ r)) (m ++ (l ++ r))
across l m r =
    subst (λ k. Permᴰ k (m ++ (l ++ r))) (append_assoc l m r)
      (subst (λ k. Permᴰ ((l ++ m) ++ r) k) (append_assoc m l r)
        (Permᴰ.append_right r (Permᴰ.append_comm l m)))

Leaves-calls :
    {t : Task} {ts ts' : List Task}
    → Leaves t ts ts'
    → Permᴰ (calls_of ts) (map (λ c. (t.arrival, c)) t.did ++ calls_of ts')
unfolding calls_of
Leaves-calls (gone ts) = Permᴰ.refl _
Leaves-calls {t} (after u {ts = ts} {ts' = ts'} l) =
    let mine = map (λ c. (u.arrival, c)) u.did in
    Permᴰ.trans (Permᴰ.append_left mine (Leaves-calls l))
      (across mine (map (λ c. (t.arrival, c)) t.did) (calls_of ts'))

Move-history :
    {x : Externals} {w w' : World} {todo todo' : Todo} {c : Option Call}
    → Move x w todo c w' todo'
    → w'.trace ≡ done c w.trace
Move-history (asking w c k) = refl
Move-history (given w creds k conn found) = refl
Move-history {x} (opening w w' creds k conn e) =
    let u = account creds w.backend in
    ap (λ o. o.1.trace) (sym e) ∙ ap (λ w. w.trace) (create_connection-called x u.0 u.1 w)
Move-history {x} (panicking w w' creds k m e) =
    let u = account creds w.backend in
    ap (λ o. o.1.trace) (sym e) ∙ ap (λ w. w.trace) (create_connection-called x u.0 u.1 w)
Move-history (insertion w key conn k) = refl

noted-history :
    (begun : List Call) (a : Arrival) (c : Option Call) (made : List (Arrival × Call))
    → done c (begun ++ in_order made) ≡ begun ++ in_order (noted a c made)
unfolding in_order
noted-history begun a none made = refl
noted-history begun a (some c) made = append_assoc begun (in_order made) (c ∷ [])

-- The calls since `begun` are those of the tasks.
pub record Shared (begun : List Call) (s : System) : Type 0 where
  pub history : s.world.trace ≡ begun ++ in_order s.made
  pub shares : Permᴰ s.made (calls_of s.tasks ++ calls_of s.gone)

Step-Shared :
    {x : Externals} {auth_type : AuthType} (begun : List Call) {s t : System}
    → Step x auth_type s t
    → Shared begun s
    → Shared begun t
unfolding calls_of close
Step-Shared begun (arrives a) v = record { history = v.history; shares = v.shares }
Step-Shared begun {s} (steps t c w todo ts picks move) v = record {
  history = Move-history move ∙ ap (done c) v.history ∙ noted-history begun t.arrival c s.made;
  shares = Permᴰ.trans (noted-Perm t.arrival c v.shares) (
      subst (λ l. Permᴰ l (calls_of ts ++ calls_of s.gone))
        (sym (noted-append t.arrival c (calls_of s.tasks) (calls_of s.gone)))
        (Permᴰ.append_right (calls_of s.gone) (Picks-calls c picks)));
}
Step-Shared begun {s} (leaves t ts l) v = record {
  history = v.history;
  shares =
      let mine = map (λ c. (t.arrival, c)) t.did in
      Permᴰ.trans v.shares (
        Permᴰ.trans (Permᴰ.append_right (calls_of s.gone) (Leaves-calls l)) (
          subst (λ k. Permᴰ k (calls_of ts ++ (mine ++ calls_of s.gone)))
            (sym (append_assoc mine (calls_of ts) (calls_of s.gone)))
            (across mine (calls_of ts) (calls_of s.gone))));
}
Step-Shared begun closes v = record { history = v.history; shares = v.shares }

pub Reach-Shared :
    {x : Externals} {auth_type : AuthType} {w : World} {s : System}
    → Reach x auth_type (idle w) s
    → Shared w.trace s
unfolding calls_of in_order
Reach-Shared {w = w} here = record { history = sym (append-nil w.trace); shares = Permᴰ.nil }
Reach-Shared {w = w} (next r st) = Step-Shared w.trace st (Reach-Shared r)
