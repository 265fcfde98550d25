-- ===== src/Server/Rest/Produce/Written.antt =====
-- What a produce request leaves in Fluss.
use fluss_gateway.Base.{◌≡◌, Text, Option, List, ◌++◌, length}
use fluss_gateway.Config.{AuthType}
use fluss_gateway.Types.Requests.{WriteResult, ProduceRequest}
use fluss_gateway.Fluss.{Externals}
use fluss_gateway.Gateway.{World}
use fluss_gateway.Gateway.Returns.{Returns}
use fluss_gateway.Gateway.Partly.{PartOf}
use fluss_gateway.Gateway.Writes.{Write, written}
use fluss_gateway.Backend.Program.Undisturbed.{MayRun-PartOf}
use fluss_gateway.Server.Rest.Asked.{Converted}
use fluss_gateway.Server.Rest.Confined.{produce-Runs}
use fluss_gateway.Server.Auth.{BasicAuthCredentials}
use fluss_gateway.Server.Rest.Produce.{produce}

module _ (x : Externals) (auth_type : AuthType) (ext : Option BasicAuthCredentials) where
  -- The request was stored in the table `name` of `db`: the rows of the request were converted by the
  -- columns that the client describes for this table; exactly these rows were written, in their order,
  -- with one writer of this table and all in the same way; and their number is reported.
  pub record Stored (db name : Text) (req : ProduceRequest) (w w' : World) (r : WriteResult)
      : Type 0 where
    pub changes : List Write
    pub asked : Converted x db name req changes
    pub new : written w'.trace ≡ written w.trace ++ changes
    pub counted : r.row_count ≡ length req.rows

  module _ (db name : Text) (req : ProduceRequest) where
    -- However a produce request ends, in a result, an error or a panic: either it failed and Fluss
    -- received no row of it, or Fluss received a first part of its rows, in their order, as the columns
    -- of the table convert them, and all of them if the request is answered with a result. So a request
    -- in which some row cannot be converted writes nothing.
    pub produce-PartOf :
        (w : World) → PartOf (Converted x db name req) w (produce x auth_type ext db name req w)
    produce-PartOf w =
        MayRun-PartOf x (Converted x db name req) _ (produce-Runs x auth_type ext db name req) w
