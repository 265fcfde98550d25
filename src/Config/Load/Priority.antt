-- ===== src/Config/Load/Priority.antt =====
-- Which source of the configuration wins.
use fluss_gateway.Base.{
  ◌≡◌, ◌↔◌, inl, inr, refl, Text, Option, none, some, [], ◌∷◌, List, Result, ok, err, ◌>>=◌, text,
  Option-cases, text_eq, if◌then◌else◌,
}
use fluss_gateway.Config.{AuthType, passthrough}
use fluss_gateway.Config.Load.{Files, ServeArgs, from_file, overridden, load_config}

-- The first value that is given, or the last resort.
unfoldable pub first_of {ℓ} : {A : Type ℓ} → List (Option A) → A → A
first_of [] d = d
first_of (none ∷ os) d = first_of os d
first_of (some a ∷ os) d = a

-- The mode of a name.
unfoldable pub mode_named : Option Text → Option AuthType
unfolding text_eq
mode_named none = none
mode_named (some v) =
    if text_eq v (text "none")
    then some AuthType.none
    else if text_eq v (text "passthrough")
    then some passthrough
    else none

bind-ok-err {ℓ κ} :
    {A : Type ℓ} {E : Type κ} (r : Result A E) (f : A → A) {e : E}
    → ((r >>= λ a. ok (f a)) ≡ err e) ↔ (r ≡ err e)
bind-ok-err (ok a) f = (λ h. cc, λ h. cc)
bind-ok-err (err e) f = (λ h. h, λ h. h)

module _ (fs : Files) (args : ServeArgs) where
  -- A configuration is refused exactly if a file was named on the command line and the file is
  -- refused. In particular, when none is named, an unreadable or malformed `gateway.toml` is not
  -- an error.
  pub load_config_err_iff :
      (e : Text)
      → (load_config fs args ≡ err e)
        ↔ ((path : Text) × (args.config ≡ some path) × (from_file fs path ≡ err e))
  unfolding load_config
  load_config_err_iff e = elim (Option-cases args.config) [
    | inl h ↦ rw (h, load_config) (λ e. cc, λ (path, given, bad). cc)
    | inr (path, h) ↦
        rw (h, load_config)
          (
            λ e'. (path, refl, (bind-ok-err (from_file fs path) (overridden args)).0 e'),
            λ (other, same, bad).
                let e' : path ≡ other = cc in
                (bind-ok-err (from_file fs path) (overridden args)).1 (rw e' bad),
          )
  ]
