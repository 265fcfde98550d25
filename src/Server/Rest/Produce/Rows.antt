-- ===== src/Server/Rest/Produce/Rows.antt =====
-- What the rows of a produce request become.
use mathlib.Core.List.{append_assoc, append-nil}
use fluss_gateway.Base.{
  ℕ, suc, ◌+◌, ◌≡◌, refl, sym, ap, subst, ◌∙◌, none, some, List, [], ◌∷◌, ◌++◌, ok, err,
  ◌>>=◌ as and_then, length, get_elem?, set, replicate, Result-cases, inl, inr, All, length-append,
  map_ok, bind-eq-ok, map_ok-id, get_elem?-past, get_elem?-middle, set-middle, Text, Result,
}
use fluss_gateway.Types.Errors.{GatewayError}
use fluss_gateway.Types.Json.{Json, IsJson}
use fluss_gateway.Types.Datum.{Datum, Formats, json_to_datum}
use fluss_gateway.Types.Datum.Range.{json_to_datum-Fits}
use fluss_gateway.Types.Requests.{ProduceRow}
use fluss_gateway.Fluss.{Column, Row}
use fluss_gateway.Backend.Fits.{FitsAll, fit_end, fit_next, nulls-FitsAll}
use fluss_gateway.Server.Rest.Produce.{at_field, fill_row, convert_rows}

module _ (f : Formats) where
  -- A row described with no index: a datum for each column, that of its value, or null for the
  -- columns that are left when the values are used up.
  unfoldable pub typed_row : ℕ → ℕ → List Column → List Json → Result Row GatewayError
  typed_row i j [] values = ok []
  typed_row i j (c ∷ columns) [] = ok (replicate (suc (length columns)) Datum.null)
  typed_row i j (c ∷ columns) (v ∷ values) =
      and_then (at_field i j (json_to_datum f v c.data_type))
        λ d. and_then (typed_row i (j + 1) columns values) λ row. ok (d ∷ row)

map_ok-cons :
    (done : Row) (d : Datum) (r : Result Row GatewayError)
    → map_ok (λ row. (done ++ d ∷ []) ++ row) r
      ≡ map_ok (λ row. done ++ row) (and_then r (λ row. ok (d ∷ row)))
map_ok-cons done d (ok row) = ap ok (append_assoc done (d ∷ []) row)
map_ok-cons done d (err e) = refl

at_field-eq-ok : (i j : ℕ) (r : Result Datum Text) (d : Datum) → at_field i j r ≡ ok d → r ≡ ok d
at_field-eq-ok i j (ok a) d h = cc
at_field-eq-ok i j (err e) d h = cc

module _ (f : Formats) where
  -- A step of the loop, past the last column and on a column.
  module _ (columns : List Column) (i j : ℕ) (v : Json) (values : List Json) (row : Row) where
    fill_row-end : get_elem? columns j ≡ none → fill_row f columns i j (v ∷ values) row ≡ ok row
    unfolding fill_row
    fill_row-end h = rw (h, fill_row) refl

    fill_row-next :
        (c : Column)
        → get_elem? columns j ≡ some c
        → fill_row f columns i j (v ∷ values) row
          ≡ and_then
              (at_field i j (json_to_datum f v c.data_type))
              (λ d. fill_row f columns i (j + 1) values (set row j d))
    unfolding fill_row
    fill_row-next c h = rw (h, fill_row) refl

  -- The loop, once the columns `pre` have their datums `done`.
  fill_row-from :
      (i j : ℕ) (pre : List Column) (columns : List Column) (done : Row) (values : List Json)
      → length pre ≡ j
      → length done ≡ j
      → fill_row f (pre ++ columns) i j values (done ++ replicate (length columns) Datum.null)
        ≡ map_ok (λ row. done ++ row) (typed_row f i j columns values)
  unfolding fill_row typed_row
  fill_row-from i j pre [] done [] e e' = refl
  fill_row-from i j pre (c ∷ columns) done [] e e' = refl
  fill_row-from i j pre [] done (v ∷ values) e e' =
      fill_row-end (pre ++ []) i j v values (done ++ [])
        (rw (append-nil pre, ← e) (get_elem?-past pre))
  fill_row-from i j pre (c ∷ columns) done (v ∷ values) e e' =
      elim (Result-cases (json_to_datum f v c.data_type)) [
        | inl (d, converted) ↦
            let here : get_elem? (pre ++ c ∷ columns) j ≡ some c =
              subst (λ k. get_elem? (pre ++ c ∷ columns) k ≡ some c) e
                (get_elem?-middle pre c columns) in
            let put : set (done ++ Datum.null ∷ replicate (length columns) Datum.null) j d
                ≡ (done ++ d ∷ []) ++ replicate (length columns) Datum.null =
              subst
                (λ k.
                  set (done ++ Datum.null ∷ replicate (length columns) Datum.null) k d
                  ≡ done ++ d ∷ replicate (length columns) Datum.null)
                e' (set-middle done Datum.null d _)
              ∙ sym (append_assoc done (d ∷ []) _) in
            let rest =
              fill_row-from i (j + 1) (pre ++ c ∷ []) columns (done ++ d ∷ []) values
                (length-append pre (c ∷ []) ∙ ap (λ k. k + 1) e)
                (length-append done (d ∷ []) ∙ ap (λ k. k + 1) e') in
            fill_row-next (pre ++ c ∷ columns) i j v values _ c here
            ∙ (rw (converted, put, ← append_assoc pre (c ∷ []) columns, rest)
                (map_ok-cons done d _))
        | inr (m, refused) ↦
            let here : get_elem? (pre ++ c ∷ columns) j ≡ some c =
              subst (λ k. get_elem? (pre ++ c ∷ columns) k ≡ some c) e
                (get_elem?-middle pre c columns) in
            fill_row-next (pre ++ c ∷ columns) i j v values _ c here ∙ (rw refused refl)
      ]

  typed_row-FitsAll :
      (i j : ℕ) (columns : List Column) (values : List Json) (row : Row)
      → All IsJson values
      → typed_row f i j columns values ≡ ok row
      → FitsAll columns row
  unfolding typed_row
  typed_row-FitsAll i j [] values row v h = let e : row ≡ [] = cc in rw e fit_end
  typed_row-FitsAll i j (c ∷ columns) [] row v h =
      let e : row ≡ Datum.null ∷ replicate (length columns) Datum.null = cc in
      rw e (nulls-FitsAll (c ∷ columns))
  typed_row-FitsAll i j (c ∷ columns) (x ∷ values) row (v, vs) h =
      let (d, converted, h') = bind-eq-ok (at_field i j (json_to_datum f x c.data_type)) _ h in
      let (row', rest, e) = bind-eq-ok (typed_row f i (j + 1) columns values) _ h' in
      let same : row ≡ d ∷ row' = cc in
      rw same (
        fit_next (json_to_datum-Fits f x c.data_type d v (at_field-eq-ok i j _ d converted))
          (typed_row-FitsAll i (j + 1) columns values row' vs rest))

  pub fill_row-typed :
      (i : ℕ) (columns : List Column) (values : List Json)
      → fill_row f columns i 0 values (replicate (length columns) Datum.null)
        ≡ typed_row f i 0 columns values
  fill_row-typed i columns values = fill_row-from i 0 [] columns [] values refl refl ∙ map_ok-id _

  -- The conversion described with no index: row by row, the first error of the first bad row.
  unfoldable pub typed_rows : ℕ → List Column → List ProduceRow → Result (List Row) GatewayError
  unfolding typed_row
  typed_rows i columns [] = ok []
  typed_rows i columns (prow ∷ prows) =
      and_then (typed_row f i 0 columns prow.values)
        λ row. and_then (typed_rows (i + 1) columns prows) λ rows. ok (row ∷ rows)

  -- The conversion by indices and writes into a row of nulls is the one that walks over the columns
  -- and the values together: the datum of each value in the type of its column, null where values
  -- are missing, and nothing for values that are left over, with the same first error.
  pub convert_rows-typed :
      (i : ℕ) (columns : List Column) (prows : List ProduceRow)
      → convert_rows f columns i prows ≡ typed_rows i columns prows
  unfolding convert_rows typed_rows
  convert_rows-typed i columns [] = refl
  convert_rows-typed i columns (prow ∷ prows) =
      rw (fill_row-typed i columns prow.values, convert_rows-typed (i + 1) columns prows) refl

  -- Whatever rows are sent, if they are converted, each has one datum for each column, which is
  -- null or of the column's type and in its range. (`IsJson`: a number that says it is an `i64` is
  -- one.)
  pub convert_rows-FitsAll :
      (i : ℕ) (columns : List Column) (prows : List ProduceRow) (rows : List Row)
      → All (λ (prow : ProduceRow). All IsJson prow.values) prows
      → convert_rows f columns i prows ≡ ok rows
      → All (FitsAll columns) rows
  unfolding convert_rows
  convert_rows-FitsAll i columns [] rows v h = let e : rows ≡ [] = cc in rw e tt
  convert_rows-FitsAll i columns (prow ∷ prows) rows (v, vs) h =
      let (row, first, h') = bind-eq-ok (fill_row f columns i 0 prow.values _) _ h in
      let (rows', later, e) = bind-eq-ok (convert_rows f columns (i + 1) prows) _ h' in
      let same : rows ≡ row ∷ rows' = cc in
      let fit = convert_rows-FitsAll (i + 1) columns prows rows' vs later in
      rw same (
        typed_row-FitsAll i 0 columns prow.values row v
            (sym (fill_row-typed i columns prow.values) ∙ first),
        fit,
      )

  pub convert_rows-length :
      (i : ℕ) (columns : List Column) (prows : List ProduceRow) (rows : List Row)
      → convert_rows f columns i prows ≡ ok rows
      → length rows ≡ length prows
  unfolding convert_rows
  convert_rows-length i columns [] rows h = let e : rows ≡ [] = cc in rw e refl
  convert_rows-length i columns (prow ∷ prows) rows h =
      let (row, first, h') = bind-eq-ok (fill_row f columns i 0 prow.values _) _ h in
      let (rows', later, e) = bind-eq-ok (convert_rows f columns (i + 1) prows) _ h' in
      let same : rows ≡ row ∷ rows' = cc in
      rw same (ap suc (convert_rows-length (i + 1) columns prows rows' later))
