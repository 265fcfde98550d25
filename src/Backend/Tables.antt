-- ===== src/Backend/Tables.antt =====
-- Which table a handle is for, by the answers of the client.
use fluss_gateway.Base.{ℕ, ◌≡◌, Text, Option, List, ok}
use fluss_gateway.Fluss.{Call, Externals, get_table}
use fluss_gateway.Gateway.Returns.{Returns, Returns-bind, Returns-last}
use fluss_gateway.Backend.{table}
use fluss_gateway.Server.Auth.{BasicAuthCredentials}

-- The client answered with the handle `t` when it was asked for this table.
pub data IsTable (x : Externals) (db name : Text) (t : ℕ) : Type 0 where
  is_table :
      (c : ℕ) (history : List Call)
      → x.client.opens history (get_table c (record { database = db; table = name })) ≡ ok t
      → IsTable x db name t

pub table-Returns :
    (x : Externals) (creds : Option BasicAuthCredentials) (db name : Text)
    → Returns (IsTable x db name) (table x (record { database = db; table = name }) creds)
unfolding table
table-Returns x creds db name = Returns-bind _ _ λ c. record {
  at = λ w t h. let (history, e) = (Returns-last x.client.opens _).at w t h in is_table c history e;
}

-- A writer of this table: the client answered with it when it was asked for a writer of what it had
-- answered with when asked to begin writing.
pub record IsWriterOf (x : Externals) (db name : Text) (begin_write get_writer : ℕ → Call)
    (writer : ℕ) : Type 0 where
  pub t : ℕ
  pub on_table : IsTable x db name t
  pub o : ℕ
  pub first : List Call
  pub opened : x.client.opens first (begin_write t) ≡ ok o
  pub second : List Call
  pub begun : x.client.opens second (get_writer o) ≡ ok writer
