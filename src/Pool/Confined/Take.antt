-- ===== src/Pool/Confined/Take.antt =====
-- Taking a connection from the pool.
use fluss_gateway.Base.{
  ℕ, ◌≡◌, refl, ◌∙◌, Text, some, List, [], ◌∷◌, ◌++◌, Result, All, ◌⊎◌, inl, inr, Result-cases,
  Option-cases, Bool-cases,
}
use fluss_gateway.Fluss.{CredentialKey, Externals}
use fluss_gateway.Gateway.{World, Fault}
use fluss_gateway.Pool.{inserted, create_and_insert, get_with, get_or_create}
use fluss_gateway.Pool.Connect.{connecting, create_and_insert-ok, create_and_insert-err}
use fluss_gateway.Pool.Isolation.{get_or_create-IsGranted}
use fluss_gateway.Pool.Confined.{Owns, connected, Grows, more, connects, All-still}
use fluss_gateway.Pool.Confined.Holds.{Gives}

module _ (x : Externals) where
  -- At most one call was made: to open a connection with these credentials.
  pub record Connected (username password : Text) (w : World) (out : Result ℕ Fault × World)
      : Type 0 where
    pub same_auth : out.1.backend.auth ≡ w.backend.auth
    pub called :
        (out.1.trace ≡ w.trace) ⊎ (out.1.trace ≡ w.trace ++ connecting x username password w ∷ [])

  module _ (username password : Text) (w : World) where
    create_and_insert-Connected :
        (key : CredentialKey)
        → Connected username password w (create_and_insert x username password key w)
    create_and_insert-Connected key =
        elim (Result-cases (x.client.opens w.trace (connecting x username password w))) [
          | inl (conn, done) ↦
              rw (create_and_insert-ok x username password w key conn done)
                (record { same_auth = refl; called = inr refl })
          | inr (e, failed) ↦
              rw (create_and_insert-err x username password w key e failed)
                (record { same_auth = refl; called = inr refl })
        ]

    get_with-Connected :
        (key : CredentialKey) → Connected username password w (get_with x username password key w)
    unfolding get_with
    get_with-Connected key =
        elim (Bool-cases (x.holds w.backend.pool.cache w.backend.pool.entries w.trace key)) [
          | inl held ↦ rw held (elim (Option-cases (inserted key w.backend.pool.entries)) [
            | inl missing ↦ rw missing (create_and_insert-Connected key)
            | inr (conn, found) ↦ rw found (record { same_auth = refl; called = inl refl })
          ])
          | inr dropped ↦ rw dropped (create_and_insert-Connected key)
        ]

    pub get_or_create-Connected :
        Connected username password w (get_or_create x (some (username, password)) w)
    unfolding get_or_create
    get_or_create-Connected = get_with-Connected _

  module _ (coordinator username password : Text) (start : World) (hs : List ℕ) where
    after :
        (w w' : World)
        → w.backend.pool.coordinator ≡ coordinator
        → (w'.trace ≡ w.trace) ⊎ (w'.trace ≡ w.trace ++ connecting x username password w ∷ [])
        → Grows x coordinator username password start.trace w.trace
        → All (Owns x coordinator username password w.trace) hs
        → Grows x coordinator username password start.trace w'.trace
          × All (Owns x coordinator username password w'.trace) hs
    after w w' c (inl e) g o = rw e (g, o)
    after w w' c (inr e) g o = rw e (
      more w.trace (connecting x username password w) g (rw c connects),
      All-still x coordinator username password w.trace (connecting x username password w) hs o,
    )

    -- A connection with the user's credentials is one of the user's handles.
    pub get_or_create-Gives :
        Gives x coordinator username password start hs (get_or_create x (some (username, password)))
    get_or_create-Gives = record {
      keeps = λ w k.
          let granted = get_or_create-IsGranted x username password w k.sound in
          let out = get_or_create-Connected username password w in
          let (g, o) =
            after w (get_or_create x (some (username, password)) w).1 k.same_coordinator out.called
              k.grown k.owned in
          record {
            sound = granted.sound;
            same_coordinator = granted.same_coordinator ∙ k.same_coordinator;
            same_auth = out.same_auth ∙ k.same_auth;
            grown = g;
            owned = o;
          };
      gives = λ w conn k e.
          let granted = get_or_create-IsGranted x username password w k.sound in
          connected _ conn
            (rw (granted.same_coordinator ∙ k.same_coordinator) at (granted.owned conn e));
    }
