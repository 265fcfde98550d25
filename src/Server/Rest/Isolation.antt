-- ===== src/Server/Rest/Isolation.antt =====
-- The pool of connections under any requests.
use fluss_gateway.Base.{Option, List, [], ◌∷◌}
use fluss_gateway.Config.{AuthType}
use fluss_gateway.Fluss.{Externals}
use fluss_gateway.Gateway.{World}
use fluss_gateway.Pool.Owned.{IsSound}
use fluss_gateway.Backend
use fluss_gateway.Backend.Program.Alone.{starts}
use fluss_gateway.Server.Auth.{BasicAuthCredentials}
use fluss_gateway.Server.Rest.Api.{Api, handle}
use fluss_gateway.Server.Rest.Confined.{acting, handle-Within}

module _ (x : Externals) where
  -- Every route keeps the pool sound, in every mode, for every request, with or without credentials,
  -- and however the request ends: under each key stands a connection that was opened, in the history
  -- of calls, for the user of the key and for a password with the hash of the key.
  pub handle-IsSound :
      (auth_type : AuthType) (ext : Option BasicAuthCredentials) (req : Api) (w : World)
      → IsSound x w
      → IsSound x (handle x auth_type ext req w).1
  handle-IsSound auth_type ext req w s =
      ((handle-Within x auth_type ext w req).at w (starts x (acting auth_type ext) w s)).sound

  -- The requests that were served, each with the mode and the credentials it came with.
  unfoldable pub serve : List (AuthType × (Option BasicAuthCredentials × Api)) → World → World
  serve [] w = w
  serve ((auth_type, (ext, req)) ∷ reqs) w = serve reqs (handle x auth_type ext req w).1
