-- ===== src/Examples/Interleaving.antt =====
-- Two requests at the same time.
use mathlib.Core.List.{Memᴰ}
use fluss_gateway.Base.{◌≡◌, refl, text, some, true, List, [], ◌∷◌, Result}
use fluss_gateway.Config.{passthrough}
use fluss_gateway.Fluss.{Call}
use fluss_gateway.Gateway.{Fault}
use fluss_gateway.Pool
use fluss_gateway.Backend.Program.{ends}
use fluss_gateway.Server.Rest.Api.{Api, Reply}
use fluss_gateway.Server.Arrivals.{Arrival, request, check, program}
use fluss_gateway.Resilience.Breaker
use fluss_gateway.Server.Tasks.{Task, Picks, System, Reach, going}
use fluss_gateway.Server.Tasks.Held.{Entitled}
use fluss_gateway.Server.Tasks.Alone.{Moves, Reach-ends}
use fluss_gateway.Examples.{cluster, start, ann, produced}

abbrev writing : Arrival
writing = request (Api.produce (text "shop") (text "users") produced) (some ann)

-- A deep health check, which needs no credentials.
abbrev checking : Arrival
checking = check 10 (Breaker.new Breaker.default_config) (some true)

abbrev task : Arrival → Task
task a = record { arrival = a; todo = going (program cluster passthrough a); did = [] }

abbrev both : System
both = record { world = start; tasks = task checking ∷ task writing ∷ []; gone = []; made = [] }

abbrev ended :
    (r : Result Reply Fault) × (did : List Call) × (u : System) × Moves cluster both.world
      (task writing).todo
      u.world
      (going (ends r))
    × Picks
        (task writing)
        (record (task writing) { todo = going (ends r); did = did })
        both.tasks
        u.tasks
    × (u.gone ≡ [])
    × Reach cluster passthrough both u
ended = Reach-ends cluster passthrough both (task writing) (Memᴰ.tail (Memᴰ.head refl))
