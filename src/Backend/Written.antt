-- ===== src/Backend/Written.antt =====
-- What taking a connection changes in Fluss, and what the writers report.
use fluss_gateway.Base.{
  ◌≡◌, refl, Text, Option, List, [], ◌∷◌, ◌++◌, ok, length, Result-cases, Option-cases, Bool-cases,
  inl, inr,
}
use fluss_gateway.Fluss.{Externals, CredentialKey, Row}
use fluss_gateway.Gateway.Returns.{Returns, Returns-bind, Returns-pure}
use fluss_gateway.Types.Requests.{WriteResult}
use fluss_gateway.Gateway.Writes.{written-append, written, Writes, nothing_yet}
use fluss_gateway.Pool.Connect.{connecting, create_and_insert-ok, create_and_insert-err}
use fluss_gateway.Pool.{get_or_create, get_with, create_and_insert, inserted}
use fluss_gateway.Backend.{conn}
use fluss_gateway.Backend.Write.{append_rows, upsert_rows, delete_rows}
use fluss_gateway.Server.Auth.{BasicAuthCredentials}

module _ (x : Externals) where
  create_and_insert-Writes :
      (u p : Text) (key : CredentialKey) → Writes (create_and_insert x u p key) []
  unfolding written
  create_and_insert-Writes u p key = record {
    at = λ w.
        let quiet : written (w.trace ++ connecting x u p w ∷ []) ≡ written w.trace ++ [] =
          written-append w.trace (connecting x u p w ∷ []) in
        elim (Result-cases (x.client.opens w.trace (connecting x u p w))) [
          | inl (c, e) ↦
              rw (create_and_insert-ok x u p w key c e)
                (record { done = []; left = []; parts = refl; new = quiet; whole = inl refl })
          | inr (m, e) ↦
              rw (create_and_insert-err x u p w key m e)
                (record { done = []; left = []; parts = refl; new = quiet; whole = inl refl })
        ];
  }

  get_with-Writes : (u p : Text) (key : CredentialKey) → Writes (get_with x u p key) []
  unfolding get_with
  get_with-Writes u p key = record {
    at = λ w. elim (Bool-cases (x.holds w.backend.pool.cache w.backend.pool.entries w.trace key)) [
      | inl held ↦ rw held (elim (Option-cases (inserted key w.backend.pool.entries)) [
        | inl missing ↦ rw missing ((create_and_insert-Writes u p key).at w)
        | inr (c, found) ↦ rw found (nothing_yet w [] (ok c) (inl refl))
      ])
      | inr dropped ↦ rw dropped ((create_and_insert-Writes u p key).at w)
    ];
  }

  pub conn-Writes : (creds : Option BasicAuthCredentials) → Writes (conn x creds) []
  unfolding conn get_or_create
  conn-Writes creds = record { at = λ w. (get_with-Writes _ _ _).at w }

  module _ (creds : Option BasicAuthCredentials) (db name : Text) (rows : List Row) where
    -- The number that is reported is the number of the rows.
    abbrev pub Counts : WriteResult → Type 0
    Counts r = r.row_count ≡ length rows

    pub append_rows-Returns : Returns Counts (append_rows x creds db name rows)
    unfolding append_rows
    append_rows-Returns = Returns-bind _ _ λ t. Returns-bind _ _ λ u. Returns-bind _ _ λ a.
        Returns-bind _ _
          λ writer. Returns-bind _ _ λ done. Returns-bind _ _ λ flushed. Returns-pure _ refl

    pub upsert_rows-Returns : Returns Counts (upsert_rows x creds db name rows)
    unfolding upsert_rows
    upsert_rows-Returns = Returns-bind _ _ λ t. Returns-bind _ _ λ u. Returns-bind _ _ λ a.
        Returns-bind _ _
          λ writer. Returns-bind _ _ λ done. Returns-bind _ _ λ flushed. Returns-pure _ refl

    pub delete_rows-Returns : Returns Counts (delete_rows x creds db name rows)
    unfolding delete_rows
    delete_rows-Returns = Returns-bind _ _ λ t. Returns-bind _ _ λ u. Returns-bind _ _ λ a.
        Returns-bind _ _
          λ writer. Returns-bind _ _ λ done. Returns-bind _ _ λ flushed. Returns-pure _ refl
