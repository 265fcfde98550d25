-- ===== src/Gateway/Partly.antt =====
-- Changes of which a first part was made.
use mathlib.Core.List.{append-nil}
use fluss_gateway.Base.{◌≡◌, refl, ap, ◌∙◌, ◌⊎◌, inl, inr, Result, err, List, [], ◌∷◌, ◌++◌}
use fluss_gateway.Gateway.{World, Fault}
use fluss_gateway.Gateway.Writes.{Write, written, Added}

-- Nothing was written and the action failed, or a first part of some `ws` with `C` was written, all of
-- it if the action returned.
abbrev pub PartOf {ℓ κ} :
    {A : Type ℓ} → (List Write → Type κ) → World → Result A Fault × World → Type (ℓ ⊔ κ)
PartOf C w out =
    ((written out.1.trace ≡ written w.trace) × (e : Fault) × (out.0 ≡ err e))
    ⊎ ((ws : List Write) × C ws × Added w ws out)

none_done : (ds ls : List Write) → [] ≡ ds ++ ls → ds ≡ []
none_done [] ls h = refl
none_done (d ∷ ds) ls h = cc

pub quiet {ℓ} :
    {A : Type ℓ} (w : World) (out : Result A Fault × World)
    → Added w [] out
    → written out.1.trace ≡ written w.trace
quiet w out h =
    h.new ∙ ap (λ l. written w.trace ++ l) (none_done h.done h.left h.parts) ∙ append-nil _

module _ {κ μ} {B : Type κ} {C : List Write → Type μ} where
  pub PartOf-moved :
      (w w' : World) (out : Result B Fault × World)
      → written w'.trace ≡ written w.trace
      → PartOf C w' out
      → PartOf C w out
  PartOf-moved w w' out e (inl (h, f, failed)) = inl (h ∙ e, f, failed)
  PartOf-moved w w' out e (inr (ws, c, a)) = inr (
    ws,
    c,
    record {
      done = a.done;
      left = a.left;
      parts = a.parts;
      new = a.new ∙ ap (λ l. l ++ a.done) e;
      whole = a.whole;
    },
  )
