-- ===== src/Server/Tasks/Entitled.antt =====
-- Whatever the interleaving, each task stays within the handles of its own user.
use fluss_gateway.Base.{Text, List, All}
use fluss_gateway.Config.{AuthType, AuthConfig}
use fluss_gateway.Fluss.{Call, Externals}
use fluss_gateway.Server.Tasks.{System}
use fluss_gateway.Server.Tasks.Held.{Entitled, OwnTask, IsConfigured}

module _ (x : Externals) (auth_type : AuthType) (auth : AuthConfig) (coordinator : Text) where
  record Inv (begun : List Call) (s : System) : Type 0 where
    set : IsConfigured x auth_type auth coordinator s.world
    own : All (OwnTask x auth_type auth coordinator s.world.trace) s.tasks
    entitled : Entitled x auth_type auth coordinator begun s.made s.world.trace
