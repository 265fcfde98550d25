-- ===== src/Server/ApiDoc/Documented.antt =====
-- The description against the routes.
use mathlib.Core.List.{Memᴰ}
use fluss_gateway.Base.{
  ◌≡◌, refl, ◌==◌, Text, Option, none, some, List, [], ◌∷◌, ◌++◌, All, ◌⊎◌, inl, inr, if◌then◌else◌,
}
use fluss_gateway.Server.Routes.{Route, metrics_handler, app}
use fluss_gateway.Server.ApiDoc
use fluss_gateway.Server.ApiDoc.{Annotation, paths, tags}

-- The names between braces in a path, from the name that was begun.
abbrev pub captures : Option Text → Text → List Text
captures name [] = []
captures none (c ∷ path) = if c == b'{' then captures (some []) path else captures none path
captures (some name) (c ∷ path) =
    if c == b'}' then name ∷ captures none path else captures (some (name ++ c ∷ [])) path

abbrev pub route_of : Annotation → Route
route_of a = record { method = a.method; path = a.path; handler = a.handler }

pub record IsRouted (a : Annotation) : Type 0 where
  pub routed : Memᴰ (route_of a) app
  pub captured : a.path_params ≡ captures none a.path
  pub tagged : Memᴰ a.tag tags

pub record IsDescribed (r : Route) : Type 0 where
  pub annotation : Annotation
  pub listed : Memᴰ annotation paths
  pub same : route_of annotation ≡ r

-- A route is either described or the one of the metrics.
abbrev pub Accounted : Route → Type 0
Accounted r = IsDescribed r ⊎ (r.handler ≡ metrics_handler)

module _ {A : Type 0} where
  here : (a : A) (xs : List A) → Memᴰ a (a ∷ xs)
  here a xs = Memᴰ.head refl

  there : (a x : A) (xs : List A) → Memᴰ a xs → Memᴰ a (x ∷ xs)
  there a x xs m = Memᴰ.tail m

all-IsRouted : All IsRouted paths
all-IsRouted = search (here, there) depth 40

-- An annotation of the list accounts for the route that it describes.
described : (a : Annotation) → Memᴰ a paths → Accounted (route_of a)
described a m = inl (record { annotation = a; listed = m; same = refl })

exempt : (r : Route) → r.handler ≡ metrics_handler → Accounted r
exempt r h = inr h

all-Accounted : All Accounted app
all-Accounted =
    search
      (
        refl,
        here,
        there,
        exempt,
        described ApiDoc.health,
        described ApiDoc.list_databases,
        described ApiDoc.create_database,
        described ApiDoc.drop_database,
        described ApiDoc.list_tables,
        described ApiDoc.create_table,
        described ApiDoc.table_info_put,
        described ApiDoc.drop_table,
        described ApiDoc.table_info_get,
        described ApiDoc.lookup,
        described ApiDoc.prefix_scan,
        described ApiDoc.batch_lookup,
        described ApiDoc.scan,
        described ApiDoc.produce,
        described ApiDoc.list_offsets,
        described ApiDoc.list_partitions,
      )
      depth 40

-- The description lists exactly the routes, and describes them as they are routed: every annotation
-- that it lists stands on a function that is routed at the same method and path, names the
-- parameters that the path captures, in their order, and has one of the declared tags; and every
-- route but the one of the metrics has such an annotation.
pub paths-IsRouted : All IsRouted paths × All Accounted app
paths-IsRouted = (all-IsRouted, all-Accounted)
