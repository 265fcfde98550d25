-- ===== src/Backend/Read/Keys.antt =====
-- The row that a lookup is made with.
use fluss_gateway.Base.{
  ℕ, suc, ◌≡◌, refl, inl, inr, Text, text_eq, Option, none, some, List, [], ◌∷◌, get_elem?, Result,
  ok, err, ok_or, Bool-cases, set,
}
use fluss_gateway.Types.Errors.{GatewayError}
use fluss_gateway.Types.Json.{Json}
use fluss_gateway.Types.Datum.{Datum, Formats}
use fluss_gateway.Types.Datum.Range.{json_to_datum-Fits}
use fluss_gateway.Types.Requests.{LookupParams}
use fluss_gateway.Fluss.{Column, Row}
use fluss_gateway.Gateway.{World, Run, Fault, fails, pure, lift, ◌>>=◌}
use fluss_gateway.Backend.Fits.{FitsAll, set-FitsAll, nulls-FitsAll}
use fluss_gateway.Backend.Read.{find_column, column_position, key_row, null_row, bad_datum}

-- A column that is found stands at the position that is found.
pub find_column-position :
    (name : Text) (columns : List Column) (c : Column)
    → find_column name columns ≡ some c
    → (i : ℕ) × (column_position name columns ≡ some i) × (get_elem? columns i ≡ some c)
unfolding find_column column_position
find_column-position name [] c h = cc
find_column-position name (c' ∷ columns) c h = elim (Bool-cases (text_eq c'.name name)) [
  | inl same ↦ (0, rw same refl, rw same at h)
  | inr other ↦
      let (i, at_i, is_c) = find_column-position name columns c (rw other at h) in
      (suc i, rw (other, at_i) refl, is_c)
]

-- What the loop over the key comes to: a row, or an error; the state is left and nothing panics.
pub data Outcome (columns : List Column) (w : World) : Result Row Fault × World → Type 0 where
  a_row : {row : Row} → FitsAll columns row → Outcome columns w (ok row, w)
  an_error : {e : GatewayError} → Outcome columns w (err (fails e), w)

Outcome-lift {ℓ} :
    {A : Type ℓ} (columns : List Column) (w : World) (r : Result A GatewayError) (f : A → Run Row)
    → ((a : A) → r ≡ ok a → Outcome columns w (f a w))
    → Outcome columns w ((lift r >>= f) w)
unfolding ◌>>=◌
Outcome-lift columns w (ok a) f k = k a refl
Outcome-lift columns w (err e) f k = an_error

Outcome-pure {ℓ} :
    {A : Type ℓ} (columns : List Column) (w : World) (a : A) (f : A → Run Row)
    → Outcome columns w (f a w)
    → Outcome columns w ((pure a >>= f) w)
unfolding ◌>>=◌
Outcome-pure columns w a f h = h

pub ok_or-eq-ok {ℓ κ} :
    {A : Type ℓ} {E : Type κ} (o : Option A) (e : E) {a : A} → ok_or o e ≡ ok a → o ≡ some a
ok_or-eq-ok (some a) e h = cc
ok_or-eq-ok none e h = cc

pub bad_datum-eq-ok : (r : Result Datum Text) {d : Datum} → bad_datum r ≡ ok d → r ≡ ok d
bad_datum-eq-ok (ok d) h = cc
bad_datum-eq-ok (err e) h = cc

module _ (f : Formats) (columns : List Column) (params : LookupParams) (w : World) where
  key_row-Outcome :
      (names : List Text) (row : Row)
      → FitsAll columns row
      → Outcome columns w (key_row f columns params names row w)
  unfolding key_row pure
  key_row-Outcome [] row fits = a_row fits
  key_row-Outcome (name ∷ names) row fits = Outcome-lift columns w _ _ λ value given.
      Outcome-lift columns w _ _ λ col found. Outcome-lift columns w _ _ λ datum converted.
        let (i, at_i, is_col) = find_column-position name columns col (ok_or-eq-ok _ _ found) in
        let fits' = set-FitsAll columns row i col datum fits is_col (
          json_to_datum-Fits f (Json.string value) col.data_type datum tt
            (bad_datum-eq-ok _ converted)) in
        rw at_i (Outcome-pure columns w i _ (key_row-Outcome names (set row i datum) fits'))

  -- Whatever parameters a lookup is given, and whatever the key of the table is, the loop over the
  -- key ends in an error of the gateway or in a row with one datum for each column of the table, null
  -- or of the column's type and in its range; it never panics, and the state is as before.
  pub key_row-total :
      (names : List Text) → Outcome columns w (key_row f columns params names (null_row columns) w)
  key_row-total names = key_row-Outcome names (null_row columns) (nulls-FitsAll columns)
