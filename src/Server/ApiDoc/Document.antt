-- ===== src/Server/ApiDoc/Document.antt =====
-- The whole description (src/api_doc.rs): what the attributes of `ApiDoc` declare, and what
-- `SecurityAddon` adds to it.
use mathlib.Core.List.{Memᴰ}
use fluss_gateway.Base.{
  refl, sym, subst, ◌≡◌, Text, text, Option, none, some, List, [], ◌∷◌, All, map, if◌then◌else◌,
}
use fluss_gateway.Server.Routes.{app}
use fluss_gateway.Server.ApiDoc.{Annotation, paths, tags}
use fluss_gateway.Server.ApiDoc.Documented.{IsRouted, Accounted, paths-IsRouted}

-- A schema with the schemas that its fields refer to; the fields of plain types are left out.
pub record Schema : Type 0 where
  pub name : Text
  pub refers : List Text

pub data SecurityScheme : Type 0 where
  http_basic : SecurityScheme

pub record Components : Type 0 where
  pub schemas : List Schema
  pub security_schemes : List (Text × SecurityScheme)

pub record OpenApi : Type 0 where
  pub title : Text
  pub paths : List Annotation
  pub components : Option Components
  pub tags : List Text
  pub servers : List Text

abbrev plain : Text → Schema
plain name = record { name = name; refers = [] }

-- `components(schemas(…))`.
abbrev pub schemas : List Schema
schemas =
    plain (text "ScanParams")
    ∷ plain (text "WriteResult")
    ∷ record { name = text "ProduceRequest"; refers = text "ProduceRow" ∷ [] }
    ∷ plain (text "ProduceRow")
    ∷ plain (text "CreateDatabaseRequest")
    ∷ plain (text "DropDatabaseRequest")
    ∷ plain (text "ColumnSpec")
    ∷ plain (text "PrimaryKeySpec")
    ∷ record {
      name = text "CreateTableRequest";
      refers = text "ColumnSpec" ∷ text "PrimaryKeySpec" ∷ [];
    }
    ∷ plain (text "DropTableRequest")
    ∷ plain (text "BucketOffset")
    ∷ record { name = text "ListOffsetsResponse"; refers = text "BucketOffset" ∷ [] }
    ∷ record { name = text "ListPartitionsResponse"; refers = text "PartitionInfo" ∷ [] }
    ∷ plain (text "PartitionInfo")
    ∷ record { name = text "TableInfoResponse"; refers = text "ColumnInfo" ∷ [] }
    ∷ plain (text "ColumnInfo")
    ∷ plain (text "BatchLookupRequest")
    ∷ plain (text "ListOffsetsRequest")
    ∷ []

-- What the attributes declare.
abbrev pub declared : OpenApi
declared = record {
  title = text "Fluss Gateway API";
  paths = paths;
  components = some (record { schemas = schemas; security_schemes = [] });
  tags = tags;
  servers = text "http://localhost:8081" ∷ [];
}

-- `SecurityAddon::modify`; `add` is `add_security_scheme` of the utoipa crate.
unfoldable pub modify : (Text → SecurityScheme → Components → Components) → OpenApi → OpenApi
modify add openapi = elim (openapi.components) [
  | none ↦ openapi
  | some components ↦ record openapi {
    components = some (add (text "basic_auth") http_basic components);
  }
]

-- `ApiDoc::openapi()`.
unfoldable pub openapi : (Text → SecurityScheme → Components → Components) → OpenApi
unfolding modify
openapi add = modify add declared

-- What is documented of `add_security_scheme`: the name is declared then, and the schemas stay.
pub record Adds (add : Text → SecurityScheme → Components → Components) : Type 0 where
  pub declares :
      (name : Text) (scheme : SecurityScheme) (c : Components)
      → Memᴰ name (map (λ (s : Text × SecurityScheme). s.0) (add name scheme c).security_schemes)
  pub keeps :
      (name : Text) (scheme : SecurityScheme) (c : Components)
      → (add name scheme c).schemas ≡ c.schemas

abbrev schema_names : Option Components → List Text
schema_names none = []
schema_names (some c) = map (λ (s : Schema). s.name) c.schemas

abbrev scheme_names : Option Components → List Text
scheme_names none = []
scheme_names (some c) = map (λ (s : Text × SecurityScheme). s.0) c.security_schemes

abbrev schemas_of : Option Components → List Schema
schemas_of none = []
schemas_of (some c) = c.schemas

abbrev bodies : Annotation → List Text
bodies a = elim (a.request_body) [ none ↦ a.response_bodies | some b ↦ b ∷ a.response_bodies ]

abbrev needs : Annotation → List Text
needs a = if a.basic_auth then text "basic_auth" ∷ [] else []

abbrev AllIn : List Text → List Text → Type 0
AllIn names found = All (λ n. Memᴰ n found) names

-- Whatever a description names, it declares: the schemas of the bodies of its operations, the schemas
-- that these refer to, and the security schemes that the operations need.
pub record IsClosed (d : OpenApi) : Type 0 where
  pub bodies_declared : All (λ a. AllIn (bodies a) (schema_names d.components)) d.paths
  pub fields_declared :
      All (λ (s : Schema). AllIn s.refers (schema_names d.components)) (schemas_of d.components)
  pub security_declared : All (λ a. AllIn (needs a) (scheme_names d.components)) d.paths

module _ {A : Type 0} where
  here : (a : A) (xs : List A) → Memᴰ a (a ∷ xs)
  here a xs = Memᴰ.head refl

  there : (a x : A) (xs : List A) → Memᴰ a xs → Memᴰ a (x ∷ xs)
  there a x xs m = Memᴰ.tail m

abbrev names_of : List Schema → List Text
names_of = map (λ (s : Schema). s.name)

all_bodies : All (λ a. AllIn (bodies a) (names_of schemas)) paths
all_bodies = search (here, there) depth 40

all_fields : All (λ (s : Schema). AllIn s.refers (names_of schemas)) schemas
all_fields = search (here, there) depth 40

all_needs :
    (found : List Text) → Memᴰ (text "basic_auth") found → All (λ a. AllIn (needs a) found) paths
all_needs found m = search (here, there) depth 40

module _ (add : Text → SecurityScheme → Components → Components) (adds : Adds add) where
  openapi-IsClosed : IsClosed (openapi add)
  unfolding openapi
  openapi-IsClosed =
      let c : Components = record { schemas = schemas; security_schemes = [] } in
      let same : schemas ≡ (add (text "basic_auth") http_basic c).schemas =
        sym (adds.keeps (text "basic_auth") http_basic c) in
      record {
        bodies_declared =
            subst (λ ss. All (λ a. AllIn (bodies a) (names_of ss)) paths) same all_bodies;
        fields_declared =
            subst (λ ss. All (λ (s : Schema). AllIn s.refers (names_of ss)) ss) same all_fields;
        security_declared = all_needs _ (adds.declares (text "basic_auth") http_basic c);
      }

  -- The description is in order: every operation that it lists stands on a function that is routed at
  -- the same method and path, names the parameters that the path captures, in their order, and has
  -- one of the declared tags; every route but the one of the metrics is described; and every schema
  -- and every security scheme that it names is declared.
  pub openapi-IsConsistent :
      All IsRouted (openapi add).paths × All Accounted app × IsClosed (openapi add)
  unfolding openapi
  openapi-IsConsistent = (paths-IsRouted.0, paths-IsRouted.1, openapi-IsClosed)
