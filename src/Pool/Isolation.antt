-- ===== src/Pool/Isolation.antt =====
-- Whose connection a request is given.
use fluss_gateway.Base.{
  ℕ, ◌≡◌, refl, ap, Text, text, Option, none, some, List, [], ◌++◌, Result, ok, Result-cases,
  Option-cases, Bool-cases, inl, inr,
}
use fluss_gateway.Config.{AuthConfig, PoolConfig}
use fluss_gateway.Fluss.{Call, CredentialKey, Externals}
use fluss_gateway.Gateway.{World, Fault}
use fluss_gateway.Gateway.Keeps.{Keeps}
use fluss_gateway.Pool.Connect.{connecting, called, create_and_insert-ok, create_and_insert-err}
use fluss_gateway.Pool.{inserted, hash_credentials, create_and_insert, get_with, get_or_create, new}
use fluss_gateway.Pool.Owned.{Opened, IsOwned, IsSound, All-Owned-append, inserted-All}

module _ (x : Externals) where
  -- What an action that asks for a connection leaves: a sound pool with the same coordinator and,
  -- if it returns, a connection opened for this user and for a password with the same hash.
  pub record IsGranted (w : World) (username password : Text) (out : Result ℕ Fault × World)
      : Type 0 where
    pub sound : IsSound x out.1
    pub same_coordinator : out.1.backend.pool.coordinator ≡ w.backend.pool.coordinator
    pub owned :
        (conn : ℕ)
        → out.0 ≡ ok conn
        → IsOwned x out.1.trace out.1.backend.pool.coordinator
            (hash_credentials x username password, conn)

  module _ (username password : Text) (w : World) where
    -- A new connection belongs to the user.
    pub opened-IsOwned :
        (conn : ℕ)
        → x.client.opens w.trace (connecting x username password w) ≡ ok conn
        → IsOwned x
            (called x username password w).trace
            w.backend.pool.coordinator
            (hash_credentials x username password, conn)
    unfolding hash_credentials
    opened-IsOwned conn done = record {
      password = password;
      same_key = refl;
      opened = record { before = w.trace; after = []; happened = refl; answered = done };
    }

    create_and_insert-IsGranted :
        IsSound x w
        → IsGranted w username password
            (create_and_insert x username password (hash_credentials x username password) w)
    create_and_insert-IsGranted s =
        elim (Result-cases (x.client.opens w.trace (connecting x username password w))) [
          | inl (conn, done) ↦
              let own = opened-IsOwned conn done in
              rw
                (create_and_insert-ok x username password w (hash_credentials x username password)
                  conn done)
                (record {
                  sound = (
                    own,
                    All-Owned-append x w.trace w.backend.pool.coordinator
                        (connecting x username password w) w.backend.pool.entries s,
                  );
                  same_coordinator = refl;
                  owned = λ c e. let same : conn ≡ c = cc in rw (← same) own;
                })
          | inr (e, failed) ↦
              rw
                (create_and_insert-err x username password w (hash_credentials x username password)
                  e failed)
                (record {
                  sound =
                      All-Owned-append x w.trace w.backend.pool.coordinator
                        (connecting x username password w) w.backend.pool.entries s;
                  same_coordinator = refl;
                  owned = λ c e. cc;
                })
        ]

    get_with-IsGranted :
        IsSound x w
        → IsGranted w username password
            (get_with x username password (hash_credentials x username password) w)
    unfolding get_with
    get_with-IsGranted s =
        elim (Bool-cases (
          x.holds w.backend.pool.cache w.backend.pool.entries w.trace
            (hash_credentials x username password))) [
              | inl held ↦
                  rw held
                    (elim (Option-cases
                      (inserted (hash_credentials x username password) w.backend.pool.entries)) [
                        | inl missing ↦ rw missing (create_and_insert-IsGranted s)
                        | inr (conn, found) ↦ rw found (record {
                          sound = s;
                          same_coordinator = refl;
                          owned = λ c e.
                              let same : conn ≡ c = cc in
                              rw (← same) (
                                inserted-All x (IsOwned x w.trace w.backend.pool.coordinator)
                                  (hash_credentials x username password) w.backend.pool.entries conn
                                  found s);
                        })
                      ])
              | inr dropped ↦ rw dropped (create_and_insert-IsGranted s)
            ]

  pub IsSound-new :
      (coordinator : Text) (auth : AuthConfig) (pool : PoolConfig) (trace : List Call)
      → IsSound x (record {
        backend = record { pool = new coordinator auth pool; auth = auth };
        trace = trace;
      })
  unfolding new
  IsSound-new coordinator auth pool trace = tt

  -- In a sound state, a request for a connection with some credentials leaves a sound state, and the
  -- connection that it returns was opened, in the history of calls, for the same user and for a
  -- password whose hash together with the user is the same. (Without a collision of the hash, it is
  -- the same password.)
  pub get_or_create-IsGranted :
      (username password : Text) (w : World)
      → IsSound x w
      → IsGranted w username password (get_or_create x (some (username, password)) w)
  unfolding get_or_create
  get_or_create-IsGranted username password w s = get_with-IsGranted username password w s

  -- So in a sound state, if no other password of the user has the hash of this one, the connection
  -- that is returned was opened with exactly these credentials.
  pub get_or_create-Opened :
      (username password : Text) (w : World) (conn : ℕ)
      → ((other : Text)
          → x.sha256 (username ++ (text ":" ++ other))
            ≡ x.sha256 (username ++ (text ":" ++ password))
          → other ≡ password)
      → IsSound x w
      → (get_or_create x (some (username, password)) w).0 ≡ ok conn
      → let w' = (get_or_create x (some (username, password)) w).1 in
        Opened x w'.trace w.backend.pool.coordinator username password conn
  unfolding hash_credentials
  get_or_create-Opened username password w conn unique s done =
      let granted = get_or_create-IsGranted username password w s in
      let own = granted.owned conn done in
      let same = unique own.password (ap (λ (k : CredentialKey). k.1) own.same_key) in
      rw same at (rw granted.same_coordinator at own.opened)

  -- No credentials are the credentials of the start.
  pub get_or_create-none :
      (w : World)
      → get_or_create x none w
        ≡ get_or_create x
            (some (w.backend.pool.auth.startup_username, w.backend.pool.auth.startup_password))
            w
  unfolding get_or_create
  get_or_create-none w = refl

  -- Every request for a connection keeps the pool sound.
  pub get_or_create-Keeps :
      (creds : Option (Text × Text)) → Keeps (IsSound x) (get_or_create x creds)
  get_or_create-Keeps none = record {
    at = λ w s. rw (get_or_create-none w) ((get_or_create-IsGranted _ _ w s).sound);
  }
  get_or_create-Keeps (some (u, p)) = record { at = λ w s. (get_or_create-IsGranted u p w s).sound }
