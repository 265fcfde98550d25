-- ===== src/UnitTests/Paths.antt =====
-- The tests of src/metrics.rs.
use fluss_gateway.Base.{◌≡◌, refl, Bool, true, ◌&&◌, text, text_eq}
use fluss_gateway.Metrics.{normalize_path}

test_normalize_path_api_routes : Bool
unfolding normalize_path text_eq
test_normalize_path_api_routes =
    text_eq (normalize_path (text "/v1/mydb/mytable/rows")) (text "/v1/{db}/{table}/rows")
    && text_eq (normalize_path (text "/v1/mydb/mytable/scan")) (text "/v1/{db}/{table}/scan")
    && text_eq (normalize_path (text "/v1/mydb/mytable")) (text "/v1/{db}/{table}")
    && text_eq (normalize_path (text "/v1/_databases")) (text "/v1/_databases")
    && text_eq (normalize_path (text "/v1/mydb/_tables")) (text "/v1/{db}/_tables")

test_normalize_path_api_routes_holds : test_normalize_path_api_routes ≡ true
unfolding test_normalize_path_api_routes
test_normalize_path_api_routes_holds = refl

test_normalize_path_system_routes : Bool
unfolding normalize_path text_eq
test_normalize_path_system_routes =
    text_eq (normalize_path (text "/health")) (text "/health")
    && text_eq (normalize_path (text "/metrics")) (text "/metrics")

test_normalize_path_system_routes_holds : test_normalize_path_system_routes ≡ true
unfolding test_normalize_path_system_routes
test_normalize_path_system_routes_holds = refl

test_normalize_path_with_query : Bool
unfolding normalize_path text_eq
test_normalize_path_with_query =
    text_eq (normalize_path (text "/v1/mydb/mytable/rows?format=arrow"))
      (text "/v1/{db}/{table}/rows")

test_normalize_path_with_query_holds : test_normalize_path_with_query ≡ true
unfolding test_normalize_path_with_query
test_normalize_path_with_query_holds = refl
