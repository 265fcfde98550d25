-- ===== src/Backend/Program/Stays/Gives.antt =====
-- Actions of which it is known what they give, and changes that depend on that.
use fluss_gateway.Base.{◌≡◌, refl, ℕ, Text, Option, some, List, [], ◌∷◌, Result, ok, err}
use fluss_gateway.Fluss.{Call, Externals}
use fluss_gateway.Gateway.{Run, pure, fluss_err, ◌>>=◌, call}
use fluss_gateway.Pool.Confined.{handle_of}
use fluss_gateway.Backend.Program.{Prog, ends, chain, returns, binds}
use fluss_gateway.Backend.Program.Safe.{From, Sub, Sub-cons, Safe-Sub, Safe-chain}
use fluss_gateway.Backend.Program.Emits.{
  Emits, Emits-chain, MayEmit, MayGive, Whole-Part, Part-given, Part-weaken, Ends, Ends-any,
  Ends-weaken, Ends-chain,
}
use fluss_gateway.Gateway.Writes.{Write, written}
use fluss_gateway.Server.Auth.{BasicAuthCredentials}
use fluss_gateway.Backend.Program.Stays.{settled, Stays, Acts, Runs, Takes, Acts-bind}
use fluss_gateway.Backend.Program.Stays.Takes.{opens-Takes}

module _ (x : Externals) (creds : Option BasicAuthCredentials) (Let : Type 0) where
  -- A handle with `P`.
  abbrev pub Gives : (ℕ → Type 0) → List ℕ → Run ℕ → Type 1
  Gives P = Stays x creds Let (From x) (MayGive P)

  -- What it changes satisfies `C`.
  abbrev pub MayRunOn : {A : Type 0} → List ℕ → (List Write → Type 0) → Run A → Type 1
  MayRunOn hs C m = Acts x creds Let (MayEmit C) hs m

  Ends-opened :
      (c : Call) (t : List Call) (r : Result ℕ Text)
      → x.client.opens t c ≡ r
      → Ends
          (λ h. (history : List Call) × (x.client.opens history c ≡ ok h))
          (ends (settled (fluss_err r)))
  Ends-opened c t (ok h) e = (t, e)
  Ends-opened c t (err m) e = tt

  -- A handle that the client answered with.
  pub opens-Gives :
      (hs : List ℕ) (c : Call) (h : ℕ)
      → handle_of c ≡ some h
      → From x hs h
      → written (c ∷ []) ≡ []
      → Gives
          (λ g. (history : List Call) × (x.client.opens history c ≡ ok g))
          hs
          (call x.client.opens c)
  unfolding opens-Takes
  opens-Gives hs c h on from quiet =
      let k = opens-Takes x creds Let hs c h on from quiet in
      record {
        prog = k.prog;
        does = k.does;
        safe = k.safe;
        emits = record { quiet = k.emits; gives = λ t. Ends-opened c t (x.client.opens t c) refl };
      }

  take-Stays :
      {B : Type 0} (Q : List ℕ → B → Type 0) (E : Prog ℕ → Type 0) (F : ℕ → Prog B → Type 0)
      (G : Prog B → Type 0) (hs : List ℕ) (m : Run ℕ) (f : ℕ → Run B)
      → ((hs hs' : List ℕ) (b : B) → Sub x hs hs' → Q hs b → Q hs' b)
      → ((p : Prog ℕ) (q : ℕ → Prog B) → E p → ((a : ℕ) → F a (q a)) → G (chain p q))
      → Stays x creds Let (From x) E hs m
      → ((h : ℕ) → Stays x creds Let Q (F h) (h ∷ hs) (f h))
      → Stays x creds Let Q G hs (m >>= f)
  take-Stays Q E F G hs m f mono both km kf = record {
    prog = chain km.prog (λ a. (kf a).prog);
    does = binds m f km.prog (λ a. (kf a).prog) km.does (λ a. (kf a).does);
    safe =
        Safe-chain x creds Let _ _ hs km.prog (λ a. (kf a).prog) km.safe
          (λ hs' a sub from.
            Safe-Sub x creds Let Q mono (a ∷ hs) hs' (kf a).prog (Sub-cons x a hs hs' sub from)
              (kf a).safe);
    emits = both km.prog (λ a. (kf a).prog) km.emits (λ a. (kf a).emits);
  }

  pub weaken-Gives :
      (P Q : ℕ → Type 0) (hs : List ℕ) (m : Run ℕ)
      → ((h : ℕ) → P h → Q h)
      → Gives P hs m
      → Gives Q hs m
  weaken-Gives P Q hs m f k = record {
    prog = k.prog;
    does = k.does;
    safe = k.safe;
    emits = record { quiet = k.emits.quiet; gives = Ends-weaken P Q f k.prog k.emits.gives };
  }

  pub take-Gives :
      (P : ℕ → Type 0) (hs : List ℕ) (m : Run ℕ) (f : ℕ → Run ℕ)
      → Takes x creds Let hs m
      → ((h : ℕ) → Gives P (h ∷ hs) (f h))
      → Gives P hs (m >>= f)
  take-Gives P hs m f =
      take-Stays (From x) (Emits []) (λ a. MayGive P) (MayGive P) hs m f (λ hs1 hs2 h s. s h)
        (λ p q e k. record {
          quiet = Emits-chain [] [] p q e (λ a. (k a).quiet);
          gives = Ends-chain (λ a. Unit {0}) P p q (Ends-any p) (λ a u. (k a).gives);
        })

  -- A handle with `P`, and changes that are known to satisfy `C` then.
  pub take-MayRun :
      {B : Type 0} (P : ℕ → Type 0) (D : ℕ → List Write → Type 0) (C : List Write → Type 0)
      (hs : List ℕ) (m : Run ℕ) (f : ℕ → Run B)
      → ((h : ℕ) (ws : List Write) → P h → D h ws → C ws)
      → Gives P hs m
      → ((h : ℕ) → MayRunOn (h ∷ hs) (D h) (f h))
      → MayRunOn hs C (m >>= f)
  take-MayRun P D C hs m f known =
      take-Stays (λ hs a. Unit {0}) (MayGive P) (λ h. MayEmit (D h)) (MayEmit C) hs m f
        (λ _ _ a _ q. q)
        (λ p q e k. record {
          part =
              Part-given C P p q e.quiet e.gives
                (λ h is. Part-weaken (D h) C (λ ws. known h ws is) (q h) (k h).part);
        })

  pub given-MayRun :
      {A B : Type 0} (P : A → Type 0) (D : A → List Write → Type 0) (C : List Write → Type 0)
      (hs : List ℕ) (m : Run A) (f : A → Run B)
      → ((a : A) (ws : List Write) → P a → D a ws → C ws)
      → Acts x creds Let (MayGive P) hs m
      → ((a : A) → MayRunOn hs (D a) (f a))
      → MayRunOn hs C (m >>= f)
  given-MayRun P D C hs m f known =
      Acts-bind x creds Let (MayGive P) (λ a. MayEmit (D a)) (MayEmit C) hs m f
        (λ p q e k. record {
          part =
              Part-given C P p q e.quiet e.gives
                (λ a is. Part-weaken (D a) C (λ ws. known a ws is) (q a) (k a).part);
        })

  pub after-MayRun :
      {A B : Type 0} (C : List Write → Type 0) (hs : List ℕ) (m : Run A) (f : A → Run B)
      → Runs x creds Let hs [] m
      → ((a : A) → MayRunOn hs C (f a))
      → MayRunOn hs C (m >>= f)
  after-MayRun C hs m f =
      Acts-bind x creds Let (Emits []) (λ a. MayEmit C) (MayEmit C) hs m f
        (λ p q e k. record {
          part = Part-given C (λ a. Unit {0}) p q e (Ends-any p) (λ a u. (k a).part);
        })

  pub whole-MayRun :
      {A : Type 0} (C : List Write → Type 0) (hs : List ℕ) (m : Run A) (ws : List Write)
      → C ws
      → Runs x creds Let hs ws m
      → MayRunOn hs C m
  whole-MayRun C hs m ws c k = record {
    prog = k.prog;
    does = k.does;
    safe = k.safe;
    emits = record { part = Whole-Part C k.prog (ws, c, k.emits) };
  }

  pub weaken-MayRun :
      {A : Type 0} (C D : List Write → Type 0) (hs : List ℕ) (m : Run A)
      → ((ws : List Write) → C ws → D ws)
      → MayRunOn hs C m
      → MayRunOn hs D m
  weaken-MayRun C D hs m f k = record {
    prog = k.prog;
    does = k.does;
    safe = k.safe;
    emits = record { part = Part-weaken C D f k.prog k.emits.part };
  }

  -- What is made of a handle with `P`.
  pub made-Gives :
      {A : Type 0} (P : ℕ → Type 0) (Q : A → Type 0) (hs : List ℕ) (m : Run ℕ) (g : ℕ → A)
      → ((h : ℕ) → P h → Q (g h))
      → Gives P hs m
      → Acts x creds Let (MayGive Q) hs (m >>= λ h. pure (g h))
  unfolding pure
  made-Gives P Q hs m g known k = record {
    prog = chain k.prog (λ h. ends (ok (g h)));
    does = binds m _ k.prog (λ h. ends (ok (g h))) k.does (λ h. returns _ _ (λ w. refl));
    safe =
        Safe-chain x creds Let _ (λ hs a. Unit {0}) hs k.prog (λ h. ends (ok (g h))) k.safe
          (λ _ _ _ _. tt);
    emits = record {
      quiet = Emits-chain [] [] k.prog (λ h. ends (ok (g h))) k.emits.quiet (λ h. refl);
      gives = Ends-chain P Q k.prog (λ h. ends (ok (g h))) k.emits.gives (λ h. known h);
    };
  }
