-- ===== src/Metrics.antt =====
-- src/metrics.rs: the labels of the counters, and what a request adds to them.
pub mod Labels
pub mod Recorder
use fluss_gateway.Base.{
  ℕ, Bool, true, false, ◌&&◌, Text, text, text_eq, starts_with, split, List, [], ◌∷◌, ◌++◌, leb,
  length, if◌then◌else◌, Option, none, some,
}

-- The head of a list of parts.
abbrev pub head_or {ℓ} : {A : Type ℓ} → A → List A → A
head_or d [] = d
head_or d (a ∷ rest) = a

-- `normalize_path`, by the parts between the slashes; the first one is empty for an absolute path.
unfoldable pub label_of : Text → List Text → Text
unfolding text_eq starts_with
label_of path (p0 ∷ p1 ∷ p2 ∷ []) = path
label_of path (p0 ∷ p1 ∷ p2 ∷ p3 ∷ []) =
    if text_eq p1 (text "v1")
    then (if starts_with p3 (text "_") then text "/v1/{db}/" ++ p3 else text "/v1/{db}/{table}")
    else path
label_of path (p0 ∷ p1 ∷ p2 ∷ p3 ∷ p4 ∷ ps) =
    if text_eq p1 (text "v1") then text "/v1/{db}/{table}" ++ (text "/" ++ p4) else path
label_of path ps = path

unfoldable pub normalize_path : Text → Text
unfolding split label_of
normalize_path uri = let path = head_or uri (split b'?' uri) in label_of path (split b'/' path)

-- What a request adds to the counters and the histogram.
pub data Sample : Type 0 where
  http_request : Text → Text → ℕ → Sample
  http_request_duration : Text → Text → Sample
  error : Text → Sample

-- The measurements of `metrics_middleware` after the response; the duration itself is not modelled.
unfoldable pub samples : Text → Text → ℕ → List Sample
unfolding normalize_path
samples method path status =
    http_request method (normalize_path path) status
    ∷ http_request_duration method (normalize_path path)
    ∷ (if leb 400 status
        then error (if leb 500 status then text "server_error" else text "client_error") ∷ []
        else [])
