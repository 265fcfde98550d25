-- ===== src/Backend/Program/Safe.antt =====
-- Programs that stay within the handles which they were given.
use mathlib.Core.List.{Memᴰ}
use fluss_gateway.Base.{◌≡◌, refl, ℕ, Option, some, List, ◌∷◌, Result, ok, err}
use fluss_gateway.Fluss.{Call, Externals}
use fluss_gateway.Gateway.{Fault}
use fluss_gateway.Pool.Confined.{handle_of}
use fluss_gateway.Backend.Program.{Prog, ends, calls, conns, chain}
use fluss_gateway.Server.Auth.{BasicAuthCredentials}

-- The handle that an answer gives.
abbrev pub gained {ℓ} : {E : Type ℓ} → Result ℕ E → List ℕ → List ℕ
gained (ok h) hs = h ∷ hs
gained (err e) hs = hs

module _ (x : Externals) where
  -- The handles in hand, and the scans that are built on them.
  pub data From (hs : List ℕ) : ℕ → Type 0 where
    listed : (h : ℕ) → Memᴰ h hs → From hs h
    scanned : (t : ℕ) → From hs t → From hs (x.client.new_scan t)

  abbrev pub Sub : List ℕ → List ℕ → Type 0
  Sub hs hs' = (h : ℕ) → From hs h → From hs' h

  pub Sub-refl : (hs : List ℕ) → Sub hs hs
  Sub-refl hs h f = f

  pub Sub-cons : (h : ℕ) (hs hs' : List ℕ) → Sub hs hs' → From hs' h → Sub (h ∷ hs) hs'
  Sub-cons h hs hs' sub f g (listed _ (Memᴰ.head e)) = rw e f
  Sub-cons h hs hs' sub f g (listed _ (Memᴰ.tail m)) = sub g (listed g m)
  Sub-cons h hs hs' sub f g (scanned t from) = scanned t (Sub-cons h hs hs' sub f t from)

  pub newest-From : (h : ℕ) (hs : List ℕ) → From (h ∷ hs) h
  newest-From h hs = listed h (Memᴰ.head refl)

  pub Sub-more : (h : ℕ) (hs : List ℕ) → Sub hs (h ∷ hs)
  Sub-more h hs g (listed _ m) = listed g (Memᴰ.tail m)
  Sub-more h hs g (scanned t from) = scanned t (Sub-more h hs t from)

  pub Sub-gained {ℓ} :
      {E : Type ℓ} (r : Result ℕ E) (hs hs' : List ℕ)
      → Sub hs hs'
      → Sub (gained r hs) (gained r hs')
  Sub-gained (ok h) hs hs' sub =
      Sub-cons h hs (h ∷ hs') (λ g f. Sub-more h hs' g (sub g f)) (newest-From h hs')
  Sub-gained (err e) hs hs' sub = sub

  pub Sub-grow {ℓ} : {E : Type ℓ} (r : Result ℕ E) (hs : List ℕ) → Sub hs (gained r hs)
  Sub-grow (ok h) hs = Sub-more h hs
  Sub-grow (err e) hs = Sub-refl hs

  -- The credentials of the connections that it takes, and whether it may take any.
  module _ (creds : Option BasicAuthCredentials) (Let : Type 0) where
    module _ {A : Type 0} (Q : List ℕ → A → Type 0) where
      -- With the handles `hs` in hand: every call is made on one of them, every connection is taken
      -- with these credentials, and `Q` holds of a value and the handles at the end.
      abbrev pub Safe : List ℕ → Prog A → Type 0
      Safe hs (ends (ok a)) = Q hs a
      Safe hs (ends (err e)) = Unit {0}
      Safe hs (calls c k) =
          ((h : ℕ) × (handle_of c ≡ some h) × From hs h)
          × ((t : List Call) → Safe (gained (x.client.opens t c) hs) (k t))
      Safe hs (conns creds' k) =
          (creds' ≡ creds) × Let × ((r : Result ℕ Fault) → Safe (gained r hs) (k r))

      pub Safe-Sub :
          ((hs hs' : List ℕ) (a : A) → Sub hs hs' → Q hs a → Q hs' a)
          → (hs hs' : List ℕ) (p : Prog A) → Sub hs hs'
          → Safe hs p
          → Safe hs' p
      Safe-Sub mono hs hs' (ends (ok a)) sub s = mono hs hs' a sub s
      Safe-Sub mono hs hs' (ends (err e)) sub s = tt
      Safe-Sub mono hs hs' (calls c k) sub ((h, on, f), s) = (
        (h, on, sub h f),
        λ t.
            Safe-Sub mono (gained (x.client.opens t c) hs) (gained (x.client.opens t c) hs') (k t)
              (Sub-gained (x.client.opens t c) hs hs' sub) (s t),
      )
      Safe-Sub mono hs hs' (conns creds' k) sub (e, l, s) = (
        e,
        l,
        λ r. Safe-Sub mono (gained r hs) (gained r hs') (k r) (Sub-gained r hs hs' sub) (s r),
      )

    pub Safe-chain :
        {A B : Type 0} (Q : List ℕ → A → Type 0) (R : List ℕ → B → Type 0) (hs : List ℕ)
        (p : Prog A) (q : A → Prog B)
        → Safe Q hs p
        → ((hs' : List ℕ) (a : A) → Sub hs hs' → Q hs' a → Safe R hs' (q a))
        → Safe R hs (chain p q)
    unfolding chain
    Safe-chain Q R hs (ends (ok a)) q s k = k hs a (Sub-refl hs) s
    Safe-chain Q R hs (ends (err e)) q s k = tt
    Safe-chain Q R hs (calls c f) q (on, s) k = (
      on,
      λ t.
          Safe-chain Q R (gained (x.client.opens t c) hs) (f t) q (s t)
            (λ hs' a sub. k hs' a (λ h from. sub h (Sub-grow (x.client.opens t c) hs h from))),
    )
    Safe-chain Q R hs (conns creds' f) q (e, l, s) k = (
      e,
      l,
      λ r.
          Safe-chain Q R (gained r hs) (f r) q (s r)
            (λ hs' a sub. k hs' a (λ h from. sub h (Sub-grow r hs h from))),
    )
