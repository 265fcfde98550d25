-- ===== src/Backend/Program/Undisturbed.antt =====
-- What an undisturbed run of a program changes in Fluss.
use mathlib.Core.List.{append_assoc, append-nil}
use fluss_gateway.Base.{
  ◌≡◌, refl, sym, ap, subst, ◌∙◌, inl, inr, Option, List, [], ◌∷◌, ◌++◌, Result, ok, err,
}
use fluss_gateway.Fluss.{Call, Externals}
use fluss_gateway.Gateway.{World, Run, Fault}
use fluss_gateway.Gateway.Writes.{Write, written, written-append, Added, nothing_yet}
use fluss_gateway.Gateway.Partly.{PartOf, PartOf-moved, quiet}
use fluss_gateway.Backend.{conn}
use fluss_gateway.Backend.Written.{conn-Writes}
use fluss_gateway.Backend.Program.{Prog, ends, calls, conns, called, run, Does-run}
use fluss_gateway.Backend.Program.Emits.{Emits, Part}
use fluss_gateway.Backend.Program.Stays.{MayRun}
use fluss_gateway.Server.Auth.{BasicAuthCredentials}

module _ {A : Type 0} where
  called-Added :
      (c : Call) (w : World) (us : List Write) (out : Result A Fault × World)
      → Added (called c w) us out
      → Added w (written (c ∷ []) ++ us) out
  called-Added c w us out h = record {
    done = written (c ∷ []) ++ h.done;
    left = h.left;
    parts =
        ap (λ l. written (c ∷ []) ++ l) h.parts
        ∙ sym (append_assoc (written (c ∷ [])) h.done h.left);
    new =
        h.new
        ∙ ap (λ l. l ++ h.done) (written-append w.trace (c ∷ []))
        ∙ append_assoc (written w.trace) (written (c ∷ [])) h.done;
    whole = h.whole;
  }

  moved-Added :
      (w w' : World) (ws : List Write) (out : Result A Fault × World)
      → written w'.trace ≡ written w.trace
      → Added w' ws out
      → Added w ws out
  moved-Added w w' ws out e h = record {
    done = h.done;
    left = h.left;
    parts = h.parts;
    new = h.new ∙ ap (λ l. l ++ h.done) e;
    whole = h.whole;
  }

module _ (x : Externals) where
  conn-quiet :
      (creds : Option BasicAuthCredentials) (w : World)
      → written (conn x creds w).1.trace ≡ written w.trace
  conn-quiet creds w = quiet w (conn x creds w) ((conn-Writes x creds).at w)

module _ (x : Externals) {A : Type 0} where
  run-Added : (ws : List Write) (p : Prog A) (w : World) → Emits ws p → Added w ws (run x p w)
  unfolding run
  run-Added ws (ends (ok a)) w e = nothing_yet w ws (ok a) (inl e)
  run-Added ws (ends (err e)) w u = nothing_yet w ws (err e) (inr (e, refl))
  run-Added ws (calls c k) w (us, e, g) =
      let out = run x (k w.trace) (called c w) in
      subst (λ l. Added w l out) (sym e)
        (called-Added c w us out (run-Added us (k w.trace) (called c w) (g w.trace)))
  run-Added ws (conns creds k) w g =
      let (r, w') = conn x creds w in
      moved-Added w w' ws (run x (k r) w') (conn-quiet x creds w) (run-Added ws (k r) w' (g r))

  run-PartOf :
      (C : List Write → Type 0) (p : Prog A) (w : World) → Part C p → PartOf C w (run x p w)
  unfolding run
  run-PartOf C (ends (ok a)) w c = inr ([], c, nothing_yet w [] (ok a) (inl refl))
  run-PartOf C (ends (err e)) w u = inl (refl, e, refl)
  run-PartOf C (calls c k) w (inl (ws, asked, e)) = inr (ws, asked, run-Added ws (calls c k) w e)
  run-PartOf C (calls c k) w (inr (q, g)) =
      PartOf-moved w (called c w) (run x (k w.trace) (called c w))
        (written-append w.trace (c ∷ []) ∙ ap (λ l. written w.trace ++ l) q ∙ append-nil _)
        (run-PartOf C (k w.trace) (called c w) (g w.trace))
  run-PartOf C (conns creds k) w (inl (ws, asked, e)) =
      inr (ws, asked, run-Added ws (conns creds k) w e)
  run-PartOf C (conns creds k) w (inr g) =
      let (r, w') = conn x creds w in
      PartOf-moved w w' (run x (k r) w') (conn-quiet x creds w) (run-PartOf C (k r) w' (g r))

  module _ {creds : Option BasicAuthCredentials} {Let : Type 0} where
    pub MayRun-PartOf :
        (C : List Write → Type 0) (m : Run A)
        → MayRun x creds Let C m
        → (w : World) → PartOf C w (m w)
    MayRun-PartOf C m k w =
        subst (λ out. PartOf C w out) (Does-run x k.does w) (run-PartOf C k.prog w k.emits.part)
