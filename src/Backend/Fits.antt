-- ===== src/Backend/Fits.antt =====
-- Rows of which each datum is of the type of its column.
use fluss_gateway.Base.{ℕ, zero, suc, ◌≡◌, some, List, [], ◌∷◌, length, replicate, get_elem?, set}
use fluss_gateway.Types.Datum.{Datum}
use fluss_gateway.Types.Datum.Range.{Fits, a_null}
use fluss_gateway.Fluss.{Column, Row}

-- A datum for each column, of the type of the column.
pub data FitsAll : List Column → Row → Type 0 where
  fit_end : FitsAll [] []
  fit_next :
      {c : Column} {columns : List Column} {d : Datum} {row : Row}
      → Fits c.data_type d
      → FitsAll columns row
      → FitsAll (c ∷ columns) (d ∷ row)

pub nulls-FitsAll :
    (columns : List Column) → FitsAll columns (replicate (length columns) Datum.null)
nulls-FitsAll [] = fit_end
nulls-FitsAll (c ∷ columns) = fit_next a_null (nulls-FitsAll columns)

pub set-FitsAll :
    (columns : List Column) (row : Row) (i : ℕ) (c : Column) (d : Datum)
    → FitsAll columns row
    → get_elem? columns i ≡ some c
    → Fits c.data_type d
    → FitsAll columns (set row i d)
set-FitsAll _ _ i c d fit_end e h = fit_end
set-FitsAll (c' ∷ columns) _ zero c d (fit_next f fs) e h =
    let same : c' ≡ c = cc in fit_next (rw same h) fs
set-FitsAll _ _ (suc i) c d (fit_next f fs) e h = fit_next f (set-FitsAll _ _ i c d fs e h)
