-- ===== src/Gateway.antt =====
-- The state that requests share, and the actions on it: an action returns a value, fails with a
-- `GatewayError`, or panics, and the state comes back with each.
pub mod Keeps
pub mod Writes
pub mod Returns
pub mod Partly
pub mod Fails
use mathlib.Core.Path.{◌≡◌}
use fluss_gateway.Base.{ℕ, Text, List, [], ◌∷◌, ◌++◌, Result, ok, err, map_err}
use fluss_gateway.Config.{AuthConfig}
use fluss_gateway.Types.Errors.{GatewayError, fluss_error}
use fluss_gateway.Fluss.{Call, CacheSpec, CredentialKey}

-- `ConnectionPool` of src/pool.rs. `entries` is what was inserted in the cache since it was last
-- cleared, the last one first; the cache may have dropped any of it.
pub record ConnectionPool : Type 0 where
  pub cache : CacheSpec
  pub entries : List (CredentialKey × ℕ)
  pub coordinator : Text
  pub auth : AuthConfig

-- `FlussBackend` of src/backend/mod.rs.
pub record FlussBackend : Type 0 where
  pub pool : ConnectionPool
  pub auth : AuthConfig

-- The backend, and the calls that the client has received, the first one first.
pub record World : Type 0 where
  pub backend : FlussBackend
  pub trace : List Call

pub data Fault : Type 0 where
  fails : GatewayError → Fault
  panics : Text → Fault

abbrev pub Run {ℓ} : Type ℓ → Type ℓ
Run A = World → Result A Fault × World

module _ {ℓ} {A : Type ℓ} where
  unfoldable pub pure : A → Run A
  pure a w = (ok a, w)

  unfoldable pub fail : GatewayError → Run A
  fail e w = (err (fails e), w)

  unfoldable pub panic : Text → Run A
  panic m w = (err (panics m), w)

  -- A pure step that may fail, and `?` on it.
  unfoldable pub lift : Result A GatewayError → Run A
  unfolding pure fail
  lift (ok a) = pure a
  lift (err e) = fail e

  abbrev pub fluss_err : Result A Text → Result A GatewayError
  fluss_err = map_err fluss_error

  -- A call of the client, with `map_err(fluss_err)?`.
  unfoldable pub call : (List Call → Call → Result A Text) → Call → Run A
  unfolding lift
  call answer c w = lift (fluss_err (answer w.trace c)) (record w { trace = w.trace ++ c ∷ [] })

module _ {ℓ κ} {A : Type ℓ} {B : Type κ} where
  abbrev pub continue : Result A Fault → (A → Run B) → Run B
  continue (ok a) f w = f a w
  continue (err e) f w = (err e, w)

  infixl 5 ◌>>=◌
  -- Opening this opens the actions above too.
  unfoldable pub ◌>>=◌ : Run A → (A → Run B) → Run B
  unfolding pure fail panic lift call
  ◌>>=◌ m f w = continue (m w).0 f (m w).1

infixl 5 ◌>>◌
abbrev pub ◌>>◌ {ℓ} : {B : Type ℓ} → Run (Unit {0}) → Run B → Run B
m >> k = m >>= λ _. k
