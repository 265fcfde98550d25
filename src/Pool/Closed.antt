-- ===== src/Pool/Closed.antt =====
-- The pool after it was closed.
use fluss_gateway.Base.{◌≡◌, refl, Text, [], ◌∷◌, ◌++◌, some, Result-cases, Bool-cases, inl, inr}
use fluss_gateway.Fluss.{CredentialKey, Externals, connect}
use fluss_gateway.Gateway.{World}
use fluss_gateway.Pool.{
  close, conn_config, create_and_insert, get_or_create, hash_credentials, inserted,
}
use fluss_gateway.Pool.Connect.{connecting, create_and_insert-ok, create_and_insert-err}

module _ (x : Externals) (username password : Text) where
  create_and_insert-trace :
      (key : CredentialKey) (w : World)
      → (create_and_insert x username password key w).1.trace
        ≡ w.trace ++ connecting x username password w ∷ []
  create_and_insert-trace key w =
      elim (Result-cases (x.client.opens w.trace (connecting x username password w))) [
        | inl (c, e) ↦ rw (create_and_insert-ok x username password w key c e) refl
        | inr (m, e) ↦ rw (create_and_insert-err x username password w key m e) refl
      ]

  -- After the pool was closed, whatever it held and whatever the cache says it still holds, a
  -- request for a connection is never given an old one: the client is asked, once, to open a
  -- connection with exactly the given credentials.
  pub get_or_create-close :
      (w : World)
      → (get_or_create x (some (username, password)) (close w)).1.trace
        ≡ w.trace ++ connect (conn_config w.backend.pool.coordinator username password) ∷ []
  unfolding get_or_create close inserted
  get_or_create-close w =
      let key = hash_credentials x username password in
      let closed = close w in
      elim (Bool-cases (x.holds closed.backend.pool.cache [] closed.trace key)) [
        | inl held ↦ rw held (create_and_insert-trace key closed)
        | inr dropped ↦ rw dropped (create_and_insert-trace key closed)
      ]
