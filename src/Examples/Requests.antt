-- ===== src/Examples/Requests.antt =====
-- Reads, writes and the middleware at concrete requests.
use fluss_gateway.Base.{
  parse_int, pos, ◌≡◌, refl, inl, text, show, none, some, List, [], ◌∷◌, Result, ok, All, take,
  wrap, starts_with, find_char, find_char-eq-none, arith,
}
use fluss_gateway.Config.{passthrough}
use fluss_gateway.Types.Json.{Json, IsJson, IsNumber}
use fluss_gateway.Types.Datum.{Datum, int32, json_to_datum}
use fluss_gateway.Types.Requests.{LookupParams, ScanParams, WriteResult, ProduceRow}
use fluss_gateway.Fluss.{Row}
use fluss_gateway.Gateway.{World, Fault, ◌>>=◌}
use fluss_gateway.Metrics.{http_request, http_request_duration, error, normalize_path}
use fluss_gateway.Metrics.Labels.{under, query, normalize_path-routes}
use fluss_gateway.Pool
use fluss_gateway.Pool.{get_or_create}
use fluss_gateway.Backend
use fluss_gateway.Backend.Admin
use fluss_gateway.Backend.Arrow.{record_batch_to_json}
use fluss_gateway.Backend.Fits.{FitsAll}
use fluss_gateway.Backend.Read
use fluss_gateway.Backend.Read.{key_row, null_row}
use fluss_gateway.Backend.Read.Keys.{Outcome, key_row-total}
use fluss_gateway.Backend.Read.Lookup.{Found, lookup-Found}
use fluss_gateway.Server.Middleware.{Request, Codecs, Handler, layered, too_large}
use fluss_gateway.Server.Middleware.Layers.{in_decimal, layered-limit}
use fluss_gateway.Server.Rest.Produce.{produce, convert_rows}
use fluss_gateway.Server.Rest.Produce.Rows.{typed_rows, convert_rows-typed, convert_rows-FitsAll}
use fluss_gateway.Examples.{
  cluster, start, ann, columns, formats, seven, produced, two_produced, two_rows,
}

convert_rows-typed_example :
    convert_rows formats columns 0 two_produced ≡ typed_rows formats 0 columns two_produced
convert_rows-typed_example = convert_rows-typed formats 0 columns two_produced

abbrev two_converted : List Row
two_converted =
    (int32 (pos 7) ∷ Datum.string (text "a") ∷ []) ∷ (int32 (pos 7) ∷ Datum.null ∷ []) ∷ []

seven-IsNumber : IsNumber seven
seven-IsNumber z e = let same : pos 7 ≡ z = cc in rw (← same) (omega arith)

two_produced-IsJson : All (λ (prow : ProduceRow). All IsJson prow.values) two_produced
two_produced-IsJson = ((seven-IsNumber, (tt, tt)), ((seven-IsNumber, tt), tt))

convert_rows-FitsAll_example : All (FitsAll columns) two_converted
unfolding convert_rows json_to_datum wrap
convert_rows-FitsAll_example =
    convert_rows-FitsAll formats 0 columns two_produced two_converted two_produced-IsJson refl

abbrev writing : Result WriteResult Fault × World
writing = produce cluster passthrough (some ann) (text "shop") (text "users") produced start

abbrev key : LookupParams
key = record { params = (text "id", text "7") ∷ [] }

key_row-total_example :
    Outcome columns start (key_row formats columns key (text "id" ∷ []) (null_row columns) start)
key_row-total_example = key_row-total formats columns key start (text "id" ∷ [])

lookup-Found_example :
    Found cluster (text "shop") (text "users") key (record_batch_to_json cluster two_rows)
unfolding Read.lookup ◌>>=◌ Backend.table Backend.conn get_or_create Pool.new key_row json_to_datum
    parse_int
lookup-Found_example =
    lookup-Found cluster (text "shop") (text "users") (some ann) key start
      (record_batch_to_json cluster two_rows) refl

abbrev one_row : ScanParams
one_row = record { projection = none; limit = some 1; timeout_ms = none }

abbrev first_row : List Json
first_row = take 1 (record_batch_to_json cluster two_rows)

abbrev pub codecs : Codecs
codecs = record { to_str = λ s. some s; decode = λ s. some s }

abbrev posting : Request
posting = record {
  method = text "POST";
  path = text "/v1/shop/users/rows";
  content_length = some (text "11");
  authorization = none;
  extension = none;
}

abbrev routes : Handler
routes req w = (ok (record { status = 200; error_body = none; max_body_size = none }), w)

layered-limit_example : layered codecs 10 routes posting start ≡ (
  http_request (text "POST") (normalize_path (text "/v1/shop/users/rows")) 413
      ∷ http_request_duration (text "POST") (normalize_path (text "/v1/shop/users/rows"))
      ∷ error (text "client_error")
      ∷ [],
  (ok (too_large 10), start),
)
unfolding show
layered-limit_example =
    layered-limit codecs 10 routes posting start (some 11)
      (in_decimal 11 (text "11") (omega arith) refl refl (inl refl))

normalize_path-routes_example :
    (normalize_path (query (under (text "shop") (text "users" ∷ text "scan" ∷ [])) (text "x=1"))
      ≡ text "/v1/{db}/{table}/scan")
    × (normalize_path (query (under (text "shop") (text "users" ∷ [])) (text "x=1"))
        ≡ text "/v1/{db}/{table}")
unfolding under find_char starts_with
normalize_path-routes_example =
    normalize_path-routes (text "shop") (text "users") (text "scan") (text "x=1")
      (
        find_char-eq-none b'/' (text "shop") refl,
        (
          find_char-eq-none b'/' (text "users") refl,
          (find_char-eq-none b'/' (text "scan") refl, tt),
        ),
      )
      (find_char-eq-none b'?' (under (text "shop") (text "users" ∷ [])) refl)
      (find_char-eq-none b'?' (under (text "shop") (text "users" ∷ text "scan" ∷ [])) refl)
