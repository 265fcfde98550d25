-- ===== src/Backend/Program/Emits.antt =====
-- What a program changes in Fluss, whatever the answers are that it gets.
use mathlib.Core.List.{append_assoc}
use fluss_gateway.Base.{
  ◌≡◌, refl, sym, ap, subst, ◌∙◌, ◌⊎◌, inl, inr, ℕ, List, [], ◌∷◌, ◌++◌, Result, ok, err,
}
use fluss_gateway.Fluss.{Call}
use fluss_gateway.Gateway.{Fault}
use fluss_gateway.Gateway.Writes.{Write, written}
use fluss_gateway.Backend.Program.{Prog, ends, calls, conns, chain}

-- Along every path a first part of `ws`, in its order, and all of it if a value is returned.
abbrev pub Emits : {A : Type 0} → List Write → Prog A → Type 0
Emits ws (ends (ok a)) = ws ≡ []
Emits ws (ends (err e)) = Unit {0}
Emits ws (calls c k) =
    (vs : List Write) × (ws ≡ written (c ∷ []) ++ vs) × ((t : List Call) → Emits vs (k t))
Emits ws (conns creds k) = (r : Result ℕ Fault) → Emits ws (k r)

module _ {A : Type 0} (C : List Write → Type 0) where
  abbrev pub Whole : Prog A → Type 0
  Whole p = (ws : List Write) × C ws × Emits ws p

  -- Along every path nothing at first, and then a first part of some `ws` with `C`, which may depend
  -- on the answers until then; all of it if a value is returned.
  abbrev pub Part : Prog A → Type 0
  Part (ends (ok a)) = C []
  Part (ends (err e)) = Unit {0}
  Part (calls c k) = Whole (calls c k) ⊎ ((written (c ∷ []) ≡ []) × ((t : List Call) → Part (k t)))
  Part (conns creds k) = Whole (conns creds k) ⊎ ((r : Result ℕ Fault) → Part (k r))

  pub Whole-Part : (p : Prog A) → Whole p → Part p
  Whole-Part (ends (ok a)) (ws, c, e) = subst C e c
  Whole-Part (ends (err e)) w = tt
  Whole-Part (calls c k) w = inl w
  Whole-Part (conns creds k) w = inl w

-- The same, as a predicate that keeps its `C`.
pub record MayEmit {A : Type 0} (C : List Write → Type 0) (p : Prog A) : Type 0 where
  pub part : Part C p

pub none_first : (us vs : List Write) → [] ≡ us ++ vs → (us ≡ []) × (vs ≡ [])
none_first [] vs e = (refl, sym e)
none_first (u ∷ us) vs e = cc

module _ {A B : Type 0} where
  pub Emits-chain :
      (ws vs : List Write) (p : Prog A) (q : A → Prog B)
      → Emits ws p
      → ((a : A) → Emits vs (q a))
      → Emits (ws ++ vs) (chain p q)
  unfolding chain
  Emits-chain ws vs (ends (ok a)) q e k = subst (λ l. Emits (l ++ vs) (q a)) (sym e) (k a)
  Emits-chain ws vs (ends (err e)) q u k = tt
  Emits-chain ws vs (calls c f) q (us, e, g) k = (
    us ++ vs,
    ap (λ l. l ++ vs) e ∙ append_assoc (written (c ∷ [])) us vs,
    λ t. Emits-chain us vs (f t) q (g t) k,
  )
  Emits-chain ws vs (conns creds f) q g k = λ r. Emits-chain ws vs (f r) q (g r) k

  -- After a program that changes nothing.
  pub Part-chain :
      (C : List Write → Type 0) (p : Prog A) (q : A → Prog B)
      → Emits [] p
      → ((a : A) → Part C (q a))
      → Part C (chain p q)
  unfolding chain
  Part-chain C (ends (ok a)) q e k = k a
  Part-chain C (ends (err e)) q u k = tt
  Part-chain C (calls c f) q (us, e, g) k =
      let (quiet, rest) = none_first (written (c ∷ [])) us e in
      inr (quiet, λ t. Part-chain C (f t) q (subst (λ l. Emits l (f t)) rest (g t)) k)
  Part-chain C (conns creds f) q g k = inr (λ r. Part-chain C (f r) q (g r) k)

  Emits-reply :
      (f : A → B) (ws : List Write) (p : Prog A)
      → Emits ws p
      → Emits ws (chain p (λ a. ends (ok (f a))))
  unfolding chain
  Emits-reply f ws (ends (ok a)) e = e
  Emits-reply f ws (ends (err e)) u = tt
  Emits-reply f ws (calls c k) (us, e, g) = (us, e, λ t. Emits-reply f us (k t) (g t))
  Emits-reply f ws (conns creds k) g = λ r. Emits-reply f ws (k r) (g r)

  pub Part-reply :
      (C : List Write → Type 0) (f : A → B) (p : Prog A)
      → Part C p
      → Part C (chain p (λ a. ends (ok (f a))))
  unfolding chain
  Part-reply C f (ends (ok a)) c = c
  Part-reply C f (ends (err e)) u = tt
  Part-reply C f (calls c k) (inl (ws, asked, (us, e, g))) =
      inl (ws, asked, (us, e, λ t. Emits-reply f us (k t) (g t)))
  Part-reply C f (calls c k) (inr (q, g)) = inr (q, λ t. Part-reply C f (k t) (g t))
  Part-reply C f (conns creds k) (inl (ws, asked, g)) =
      inl (ws, asked, λ r. Emits-reply f ws (k r) (g r))
  Part-reply C f (conns creds k) (inr g) = inr (λ r. Part-reply C f (k r) (g r))

-- Every value that it returns satisfies `P`, whatever the answers.
abbrev pub Ends : {A : Type 0} → (A → Type 0) → Prog A → Type 0
Ends P (ends (ok a)) = P a
Ends P (ends (err e)) = Unit {0}
Ends P (calls c k) = (t : List Call) → Ends P (k t)
Ends P (conns creds k) = (r : Result ℕ Fault) → Ends P (k r)

-- It changes nothing, and gives a value with `P`.
pub record MayGive {A : Type 0} (P : A → Type 0) (p : Prog A) : Type 0 where
  pub quiet : Emits [] p
  pub gives : Ends P p

pub Part-weaken :
    {A : Type 0} (C D : List Write → Type 0)
    → ((ws : List Write) → C ws → D ws)
    → (p : Prog A) → Part C p
    → Part D p
Part-weaken C D f (ends (ok a)) c = f [] c
Part-weaken C D f (ends (err e)) u = tt
Part-weaken C D f (calls c k) (inl (ws, asked, e)) = inl (ws, f ws asked, e)
Part-weaken C D f (calls c k) (inr (q, g)) = inr (q, λ t. Part-weaken C D f (k t) (g t))
Part-weaken C D f (conns creds k) (inl (ws, asked, e)) = inl (ws, f ws asked, e)
Part-weaken C D f (conns creds k) (inr g) = inr (λ r. Part-weaken C D f (k r) (g r))

module _ {A B : Type 0} where
  -- After a program that changes nothing, with what is known of its value.
  pub Part-given :
      (C : List Write → Type 0) (P : A → Type 0) (p : Prog A) (q : A → Prog B)
      → Emits [] p
      → Ends P p
      → ((a : A) → P a → Part C (q a))
      → Part C (chain p q)
  unfolding chain
  Part-given C P (ends (ok a)) q e v k = k a v
  Part-given C P (ends (err e)) q u v k = tt
  Part-given C P (calls c f) q (us, e, g) v k =
      let (quiet, rest) = none_first (written (c ∷ [])) us e in
      inr (quiet, λ t. Part-given C P (f t) q (subst (λ l. Emits l (f t)) rest (g t)) (v t) k)
  Part-given C P (conns creds f) q g v k = inr (λ r. Part-given C P (f r) q (g r) (v r) k)

  pub Ends-chain :
      (Q : A → Type 0) (P : B → Type 0) (p : Prog A) (q : A → Prog B)
      → Ends Q p
      → ((a : A) → Q a → Ends P (q a))
      → Ends P (chain p q)
  unfolding chain
  Ends-chain Q P (ends (ok a)) q v k = k a v
  Ends-chain Q P (ends (err e)) q v k = tt
  Ends-chain Q P (calls c f) q v k = λ t. Ends-chain Q P (f t) q (v t) k
  Ends-chain Q P (conns creds f) q v k = λ r. Ends-chain Q P (f r) q (v r) k

pub Ends-any : {A : Type 0} (p : Prog A) → Ends (λ a. Unit {0}) p
Ends-any (ends (ok a)) = tt
Ends-any (ends (err e)) = tt
Ends-any (calls c k) = λ t. Ends-any (k t)
Ends-any (conns creds k) = λ r. Ends-any (k r)

pub Ends-weaken :
    {A : Type 0} (P Q : A → Type 0) → ((a : A) → P a → Q a) → (p : Prog A) → Ends P p → Ends Q p
Ends-weaken P Q f (ends (ok a)) v = f a v
Ends-weaken P Q f (ends (err e)) v = tt
Ends-weaken P Q f (calls c k) v = λ t. Ends-weaken P Q f (k t) (v t)
Ends-weaken P Q f (conns creds k) v = λ r. Ends-weaken P Q f (k r) (v r)
