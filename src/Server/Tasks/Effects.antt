-- ===== src/Server/Tasks/Effects.antt =====
-- Whatever the interleaving, what each task changes in Fluss is what its request asks for.
use fluss_gateway.Base.{◌≡◌, ◌⊎◌, ℕ, List, [], ◌++◌, Result, ok, All}
use fluss_gateway.Fluss.{Externals}
use fluss_gateway.Gateway.{Fault}
use fluss_gateway.Gateway.Writes.{Write, written}
use fluss_gateway.Backend.Program.{ends}
use fluss_gateway.Backend.Program.Emits.{Emits, Part}
use fluss_gateway.Server.Rest.Api.{Reply}
use fluss_gateway.Server.Arrivals.{Asks}
use fluss_gateway.Server.Tasks.{Todo, going, inserting, Task, System}

module _ (C : List Write → Type 0) where
  -- What is left is some of the changes with `C`, when `vs` were made: `undecided` if these are none
  -- and may still depend on answers, `rest us` if `us` are left.
  abbrev Owed : List Write → Type 0 → (List Write → Type 0) → Type 0
  Owed vs undecided rest =
      ((vs ≡ []) × undecided) ⊎ ((ws us : List Write) × C ws × (ws ≡ vs ++ us) × rest us)

  abbrev Owes : List Write → Todo → Type 0
  Owes vs (going p) = Owed vs (Part C p) (λ us. Emits us p)
  Owes vs (inserting key conn k) =
      Owed vs ((r : Result ℕ Fault) → Part C (k r)) (λ us. (r : Result ℕ Fault) → Emits us (k r))

-- What a task has changed is nothing, or a first part of what its request asks for, in its order; if
-- it has answered, it is all of it.
pub record IsAsked (x : Externals) (t : Task) : Type 0 where
  pub part :
      (written t.did ≡ [])
      ⊎ ((ws left : List Write) × Asks x t.arrival ws × (ws ≡ written t.did ++ left))
  pub whole : (r : Reply) → t.todo ≡ going (ends (ok r)) → Asks x t.arrival (written t.did)

module _ (x : Externals) where
  abbrev OwesTask : Task → Type 0
  OwesTask t = Owes (Asks x t.arrival) (written t.did) t.todo

  record AllOwe (s : System) : Type 0 where
    running : All OwesTask s.tasks
    left : All OwesTask s.gone
