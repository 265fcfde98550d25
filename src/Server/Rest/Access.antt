-- ===== src/Server/Rest/Access.antt =====
-- What the authentication mode decides, for every route.
use fluss_gateway.Base.{◌≡◌, refl, Bool, true, false, text, Option, none, err}
use fluss_gateway.Config.{AuthType, passthrough}
use fluss_gateway.Types.Errors.{unauthorized}
use fluss_gateway.Fluss.{Externals}
use fluss_gateway.Gateway.{World, fails, ◌>>=◌}
use fluss_gateway.Server.Auth.{BasicAuthCredentials}
use fluss_gateway.Server.Rest
use fluss_gateway.Server.Rest.{extract_creds}
use fluss_gateway.Server.Rest.Schemas
use fluss_gateway.Server.Rest.Produce
use fluss_gateway.Server.Rest.Api.{Api, list_databases, prefix_scan, handle}

-- Every route but the one that is not implemented.
abbrev pub is_implemented : Api → Bool
is_implemented (prefix_scan db name params) = false
is_implemented _ = true

module _ (x : Externals) where
  -- In passthrough mode, a request without credentials for any implemented route is answered with
  -- "authentication required", and nothing else happens: no connection, no call of Fluss.
  pub passthrough_refuses :
      (req : Api) (w : World)
      → is_implemented req ≡ true
      → handle x passthrough none req w
        ≡ (err (fails (unauthorized (text "authentication required"))), w)
  unfolding handle Rest.list_databases Rest.create_database Rest.drop_database Rest.list_tables
      Schemas.create_table Rest.table_info_put Rest.table_info_get Rest.drop_table Rest.lookup
      Rest.batch_lookup Rest.scan Produce.produce Rest.list_offsets Rest.list_partitions
      Rest.table_info_inner extract_creds ◌>>=◌
  passthrough_refuses list_databases w h = refl
  passthrough_refuses (prefix_scan db name params) w h = cc
  passthrough_refuses _ w h = refl

  -- In mode "none" the credentials of a request have no effect on any route: the same reply, and
  -- the same calls.
  pub none_ignores :
      (req : Api) (ext : Option BasicAuthCredentials) (w : World)
      → handle x AuthType.none ext req w ≡ handle x AuthType.none none req w
  unfolding handle Rest.list_databases Rest.create_database Rest.drop_database Rest.list_tables
      Schemas.create_table Rest.table_info_put Rest.table_info_get Rest.drop_table Rest.lookup
      Rest.batch_lookup Rest.scan Produce.produce Rest.list_offsets Rest.list_partitions
      Rest.table_info_inner Rest.lookup_keys extract_creds ◌>>=◌
  none_ignores list_databases ext w = refl
  none_ignores _ ext w = refl
