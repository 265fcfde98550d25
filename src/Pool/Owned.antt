-- ===== src/Pool/Owned.antt =====
-- What it is for a connection to belong to a user, and for a pool to be sound.
use mathlib.Core.List.{append_assoc}
use fluss_gateway.Base.{
  text, ℕ, ◌≡◌, ap, ◌∙◌, true, Text, text_eq_iff, some, List, [], ◌∷◌, ◌++◌, ok, Bool-cases, inl,
  inr, arith, All,
}
use fluss_gateway.Fluss.{Call, CredentialKey, Externals, connect}
use fluss_gateway.Gateway.{World}
use fluss_gateway.Pool.{inserted, key_eq, conn_config}

module _ (x : Externals) where
  -- The client opened the connection `conn` for these credentials at some time in the history.
  pub record Opened (trace : List Call) (coordinator username password : Text) (conn : ℕ)
      : Type 0 where
    pub before : List Call
    pub after : List Call
    pub happened : trace ≡ before ++ connect (conn_config coordinator username password) ∷ after
    pub answered :
        x.client.opens before (connect (conn_config coordinator username password)) ≡ ok conn

  -- Under a key stands a connection opened for the user of the key and for a password with the
  -- hash of the key.
  pub record IsOwned (trace : List Call) (coordinator : Text) (entry : CredentialKey × ℕ)
      : Type 0 where
    pub password : Text
    pub same_key : (entry.0.0, x.sha256 (entry.0.0 ++ (text ":" ++ password))) ≡ entry.0
    pub opened : Opened trace coordinator entry.0.0 password entry.1

  abbrev pub IsSound : World → Type 0
  IsSound w = All (IsOwned w.trace w.backend.pool.coordinator) w.backend.pool.entries

  pub Opened-append :
      {trace : List Call} {coordinator username password : Text} {conn : ℕ} (c : Call)
      → Opened trace coordinator username password conn
      → Opened (trace ++ c ∷ []) coordinator username password conn
  Opened-append c o = record {
    before = o.before;
    after = o.after ++ c ∷ [];
    happened = ap (λ t. t ++ c ∷ []) o.happened ∙ append_assoc o.before _ _;
    answered = o.answered;
  }

  pub All-Owned-append :
      (trace : List Call) (coordinator : Text) (c : Call) (entries : List (CredentialKey × ℕ))
      → All (IsOwned trace coordinator) entries
      → All (IsOwned (trace ++ c ∷ []) coordinator) entries
  All-Owned-append trace coordinator c [] h = tt
  All-Owned-append trace coordinator c (entry ∷ entries) (o, h) = (
    record { password = o.password; same_key = o.same_key; opened = Opened-append c o.opened },
    All-Owned-append trace coordinator c entries h,
  )

  pub key_eq→eq : (k key : CredentialKey) → key_eq k key ≡ true → k ≡ key
  unfolding key_eq
  key_eq→eq (u, h) (u', h') e = ground (arith, text_eq_iff u u', text_eq_iff h h')

  pub inserted-All :
      (P : CredentialKey × ℕ → Type 0) (key : CredentialKey) (entries : List (CredentialKey × ℕ))
      (conn : ℕ)
      → inserted key entries ≡ some conn
      → All P entries
      → P (key, conn)
  unfolding inserted
  inserted-All P key [] conn e h = cc
  inserted-All P key ((k, c) ∷ entries) conn e (p, h) = elim (Bool-cases (key_eq k key)) [
    | inl same ↦ let found : c ≡ conn = ground arith in rw (← key_eq→eq k key same, ← found) p
    | inr other ↦ inserted-All P key entries conn (rw other at e) h
  ]
