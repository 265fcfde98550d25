-- ===== src/Server/ApiDoc/Answers.antt =====
-- Every answer has a status that the description lists.
use mathlib.Core.List.{Memᴰ}
use fluss_gateway.Base.{
  ℕ, ◌≡◌, refl, Bool, true, Option, some, List, ◌⊎◌, inl, inr, Result, ok, err, arith, false,
  Bool-cases, ◌==◌, ◌∷◌, if◌then◌else◌,
}
use fluss_gateway.Config.{AuthType}
use fluss_gateway.Types.Errors.{GatewayError, status_code}
use fluss_gateway.Fluss.{Externals}
use fluss_gateway.Gateway.{World, Fault, fail, fails, panics, ◌>>=◌}
use fluss_gateway.Gateway.Fails.{lists}
use fluss_gateway.Gateway.Returns.{Returns, Returns-bind, Returns-pure}
use fluss_gateway.Server.Auth.{BasicAuthCredentials}
use fluss_gateway.Server.Rest
use fluss_gateway.Server.Rest.Api.{Api, Reply, handle}
use fluss_gateway.Server.Routes.{answer_status, reply_status, handler_of}
use fluss_gateway.Server.ApiDoc.{Annotation, paths}
use fluss_gateway.Server.ApiDoc.Statuses.{annotation_of, needs_kind, statuses, handle-FailsIn}

abbrev Succeeds : Api → Reply → Type 0
Succeeds req r = lists (annotation_of req).responses (reply_status r) ≡ true

-- The status of an answer, for a request: what is described, and 422.
pub record IsExpected (req : Api) (status : ℕ) : Type 0 where
  pub annotation : Annotation
  pub listed : Memᴰ annotation paths
  pub same_handler : annotation.handler ≡ handler_of req
  pub described :
      (lists annotation.responses status ≡ true) ⊎ ((status ≡ 422) × (needs_kind req ≡ true))

split_off :
    (b : Bool) (ss : List ℕ) (s : ℕ)
    → lists (if b then 422 ∷ ss else ss) s ≡ true
    → (lists ss s ≡ true) ⊎ ((s ≡ 422) × (b ≡ true))
split_off true ss s h = elim (Bool-cases (422 == s)) [
  | inl same ↦ inr (ground arith, refl)
  | inr other ↦ inl (rw other at h)
]
split_off false ss s h = inl h

module _ (x : Externals) (auth_type : AuthType) (ext : Option BasicAuthCredentials) where
  handle-Returns : (req : Api) → Returns (Succeeds req) (handle x auth_type ext req)
  unfolding handle Rest.prefix_scan ◌>>=◌ fail
  handle-Returns Api.list_databases = Returns-bind _ _ λ a. Returns-pure _ refl
  handle-Returns (Api.prefix_scan db name params) = record { at = λ w a h. cc }
  handle-Returns _ = Returns-bind _ _ λ a. Returns-pure _ refl

  answered :
      (req : Api) (out : Result Reply Fault × World) (s : ℕ)
      → ((r : Reply) → out.0 ≡ ok r → Succeeds req r)
      → ((e : GatewayError) → out.0 ≡ err (fails e) → lists (statuses req) (status_code e) ≡ true)
      → answer_status out.0 ≡ some s
      → (lists (annotation_of req).responses s ≡ true) ⊎ ((s ≡ 422) × (needs_kind req ≡ true))
  unfolding answer_status
  answered req (ok r, w) s good bad h =
      let same : reply_status r ≡ s = cc in inl (rw (← same) (good r refl))
  answered req (err (fails e), w) s good bad h =
      let same : status_code e ≡ s = cc in
      split_off (needs_kind req) (annotation_of req).responses s (rw (← same) (bad e refl))
  answered req (err (panics m), w) s good bad h = cc

  here : (a : Annotation) (as' : List Annotation) → Memᴰ a (a ∷ as')
  here a as' = Memᴰ.head refl

  there : (a b : Annotation) (as' : List Annotation) → Memᴰ a as' → Memᴰ a (b ∷ as')
  there a b as' m = Memᴰ.tail m

  annotation_of-listed :
      (req : Api) → Memᴰ (annotation_of req) paths × ((annotation_of req).handler ≡ handler_of req)
  annotation_of-listed Api.list_databases = search (refl, here, there) depth 40
  annotation_of-listed _ = search (refl, here, there) depth 40

  -- In every mode, for every request and in every state: an answer has a status that the description
  -- lists for the function that the request is routed to, whether it is a reply or an error; but a
  -- lookup, a batch of lookups and a request that writes rows may also be answered with 422.
  pub handle-IsExpected :
      (req : Api) (w : World) (status : ℕ)
      → answer_status (handle x auth_type ext req w).0 ≡ some status
      → IsExpected req status
  handle-IsExpected req w status h =
      let (listed, same) = annotation_of-listed req in
      record {
        annotation = annotation_of req;
        listed = listed;
        same_handler = same;
        described =
            answered req (handle x auth_type ext req w) status ((handle-Returns req).at w)
              ((handle-FailsIn x auth_type ext req).at w) h;
      }
