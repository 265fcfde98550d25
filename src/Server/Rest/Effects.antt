-- ===== src/Server/Rest/Effects.antt =====
-- What every route may change in Fluss.
pub mod Replays
use fluss_gateway.Server.Rest.Api.{Api}
use fluss_gateway.Server.Rest.Asked.{Asked}
