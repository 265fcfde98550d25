-- ===== src/Metrics/Labels.antt =====
-- Which labels the routes get.
use fluss_gateway.Base.{
  ◌≡◌, refl, ap, ◌∙◌, Text, text, starts_with, split, All, IsFree, split-IsFree, split-append, List,
  [], ◌∷◌, ◌++◌, if◌then◌else◌,
}
use fluss_gateway.Metrics.{label_of, normalize_path}

-- Parts joined by slashes.
unfoldable pub path_of : List Text → Text
path_of [] = []
path_of (p ∷ []) = p
path_of (p ∷ q ∷ ps) = p ++ (text "/" ++ path_of (q ∷ ps))

split-path_of :
    (p : Text) (ps : List Text)
    → All (IsFree b'/') (p ∷ ps)
    → split b'/' (path_of (p ∷ ps)) ≡ p ∷ ps
unfolding path_of
split-path_of p [] (h, hs) = split-IsFree b'/' p h
split-path_of p (q ∷ ps) (h, hs) =
    split-append b'/' p _ h ∙ ap (λ qs. p ∷ qs) (split-path_of q ps hs)

abbrev pub query : Text → Text → Text
query path q = path ++ b'?' ∷ q

-- A query does not matter.
normalize_path-query :
    (path q : Text) → IsFree b'?' path → normalize_path (query path q) ≡ normalize_path path
unfolding normalize_path
normalize_path-query path q h = rw (split-append b'?' path q h, split-IsFree b'?' path h) refl

normalize_path-parts :
    (p : Text) (ps : List Text)
    → IsFree b'?' (path_of (p ∷ ps))
    → All (IsFree b'/') (p ∷ ps)
    → normalize_path (path_of (p ∷ ps)) ≡ label_of (path_of (p ∷ ps)) (p ∷ ps)
unfolding normalize_path
normalize_path-parts p ps h k =
    rw (split-IsFree b'?' (path_of (p ∷ ps)) h, split-path_of p ps k) refl

-- A path under a database.
unfoldable pub under : Text → List Text → Text
unfolding path_of
under db ps = path_of ([] ∷ text "v1" ∷ db ∷ ps)

v1-IsFree : IsFree b'/' (text "v1")
v1-IsFree = (λ e. cc, (λ e. cc, tt))

normalize_path-under :
    (db q : Text) (ps : List Text)
    → IsFree b'?' (under db ps)
    → All (IsFree b'/') (db ∷ ps)
    → normalize_path (query (under db ps) q) ≡ label_of (under db ps) ([] ∷ text "v1" ∷ db ∷ ps)
unfolding under
normalize_path-under db q ps h free =
    normalize_path-query _ q h
    ∙ normalize_path-parts [] (text "v1" ∷ db ∷ ps) h (tt, (v1-IsFree, free))

module _ (path db table : Text) where
  label_of-action :
      (action : Text)
      → label_of path ([] ∷ text "v1" ∷ db ∷ table ∷ action ∷ [])
        ≡ text "/v1/{db}/{table}/" ++ action
  unfolding label_of
  label_of-action action = refl

  label_of-table : label_of path ([] ∷ text "v1" ∷ db ∷ table ∷ []) ≡ (
      if starts_with table (text "_") then text "/v1/{db}/" ++ table else text "/v1/{db}/{table}")
  unfolding label_of
  label_of-table = refl

-- The label of a request under a database and a table: the names of the database and of the table
-- are replaced by placeholders, the query is dropped, and what follows the table stands as it is,
-- whatever the database is called. A second part that starts with "_" is taken for a collection,
-- and kept. (The parts hold no slash and no question mark.)
pub normalize_path-routes :
    (db table action q : Text)
    → All (IsFree b'/') (db ∷ table ∷ action ∷ [])
    → IsFree b'?' (under db (table ∷ []))
    → IsFree b'?' (under db (table ∷ action ∷ []))
    → (normalize_path (query (under db (table ∷ action ∷ [])) q)
        ≡ text "/v1/{db}/{table}/" ++ action)
      × (normalize_path (query (under db (table ∷ [])) q) ≡ (
          if starts_with table (text "_")
          then text "/v1/{db}/" ++ table
          else text "/v1/{db}/{table}"))
normalize_path-routes db table action q (fd, (ft, (fa, u))) h k = (
  normalize_path-under db q (table ∷ action ∷ []) k (fd, (ft, (fa, tt)))
      ∙ label_of-action _ db table action,
  normalize_path-under db q (table ∷ []) h (fd, (ft, tt)) ∙ label_of-table _ db table,
)
