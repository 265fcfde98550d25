-- ===== src/Pool/Connect.antt =====
-- What an attempt to connect does, by the client's answer.
use fluss_gateway.Base.{
  ℕ, ◌≡◌, Text, text, [], ◌∷◌, ◌++◌, ok, err, arith, ap, inl, inr, Result-cases,
}
use fluss_gateway.Fluss.{Call, CredentialKey, Externals, connect}
use fluss_gateway.Gateway.{World, panics}
use fluss_gateway.Pool.{conn_config, create_connection, create_and_insert, with_entries}

module _ (x : Externals) where
  module _ (username password : Text) (w : World) where
    abbrev pub connecting : Call
    connecting = connect (conn_config w.backend.pool.coordinator username password)

    abbrev pub called : World
    called = record w { trace = w.trace ++ connecting ∷ [] }

    abbrev pub refusal : Text → Text
    refusal e =
        text "failed to connect to Fluss coordinator "
        ++ (w.backend.pool.coordinator ++ (text ": " ++ e))

    pub create_connection-answered :
        (conn : ℕ)
        → x.client.opens w.trace connecting ≡ ok conn
        → create_connection x w.backend.pool.coordinator username password w ≡ (ok conn, called)
    unfolding create_connection
    create_connection-answered conn done = ground arith

    pub create_connection-refused :
        (e : Text)
        → x.client.opens w.trace connecting ≡ err e
        → create_connection x w.backend.pool.coordinator username password w
          ≡ (err (panics (refusal e)), called)
    unfolding create_connection
    create_connection-refused e failed = ground arith

    -- However an attempt ends, it is one call.
    pub create_connection-called :
        (create_connection x w.backend.pool.coordinator username password w).1 ≡ called
    create_connection-called = elim (Result-cases (x.client.opens w.trace connecting)) [
      | inl (conn, done) ↦ ap (λ o. o.1) (create_connection-answered conn done)
      | inr (e, failed) ↦ ap (λ o. o.1) (create_connection-refused e failed)
    ]

    -- A connection that it gives is the client's answer.
    pub create_connection-ok :
        (conn : ℕ)
        → (create_connection x w.backend.pool.coordinator username password w).0 ≡ ok conn
        → x.client.opens w.trace connecting ≡ ok conn
    create_connection-ok conn e = elim (Result-cases (x.client.opens w.trace connecting)) [
      | inl (other, done) ↦
          let given = ap (λ o. o.0) (create_connection-answered other done) in
          let same : other ≡ conn = cc in rw (← same) done
      | inr (m, failed) ↦ let given = ap (λ o. o.0) (create_connection-refused m failed) in cc
    ]

    pub create_and_insert-ok :
        (key : CredentialKey) (conn : ℕ)
        → x.client.opens w.trace connecting ≡ ok conn
        → create_and_insert x username password key w
          ≡ (ok conn, with_entries ((key, conn) ∷ w.backend.pool.entries) called)
    unfolding create_and_insert
    create_and_insert-ok key conn done = ground arith

    pub create_and_insert-err :
        (key : CredentialKey) (e : Text)
        → x.client.opens w.trace connecting ≡ err e
        → create_and_insert x username password key w ≡ (err (panics (refusal e)), called)
    unfolding create_and_insert
    create_and_insert-err key e failed = ground arith
