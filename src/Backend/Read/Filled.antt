-- ===== src/Backend/Read/Filled.antt =====
-- What stands in the row that a lookup is made with.
use fluss_gateway.Base.{
  ℕ, zero, suc, ◌≡◌, refl, sym, ap, ◌∙◌, inl, inr, Text, text_eq, text_eq_sound, Option-cases, some,
  List, [], ◌∷◌, ◌<◌, arith, get_elem?, length, length-set, ok, Bool-cases, set, All,
}
use fluss_gateway.Types.Json.{Json}
use fluss_gateway.Types.Datum.{Datum, Formats, json_to_datum}
use fluss_gateway.Types.Requests.{LookupParams, get_param}
use fluss_gateway.Fluss.{Column, Row}
use fluss_gateway.Gateway.{lift}
use fluss_gateway.Gateway.Returns.{Returns, Returns-pure, Returns-lift}
use fluss_gateway.Backend.Read.{find_column, column_position, key_row}
use fluss_gateway.Backend.Read.Keys.{find_column-position, ok_or-eq-ok, bad_datum-eq-ok}

-- The column at the position of a name has this name.
position-name :
    (name : Text) (columns : List Column) (i : ℕ) (c : Column)
    → column_position name columns ≡ some i
    → get_elem? columns i ≡ some c
    → c.name ≡ name
unfolding column_position
position-name name [] i c h e = cc
position-name name (c' ∷ columns) i c h e = elim (Bool-cases (text_eq c'.name name)) [
  | inl same ↦
      let at_0 : i ≡ 0 = let p = rw same at h in cc in
      let is_c : c' ≡ c = let p = rw at_0 at e in cc in
      rw (← is_c) (text_eq_sound c'.name name same)
  | inr other ↦ elim (Option-cases (column_position name columns)) [
    | inl missing ↦ let p = rw (other, missing) at h in cc
    | inr (j, found) ↦
        let at_j : i ≡ suc j = let p = rw (other, found) at h in cc in
        position-name name columns j c found (rw at_j at e)
  ]
]

module _ {ℓ} {A : Type ℓ} where
  get_elem?-set_here :
      (xs : List A) (i : ℕ) (z : A) → i < length xs → get_elem? (set xs i z) i ≡ some z
  get_elem?-set_here [] i z h = absurd (omega (arith, h))
  get_elem?-set_here (x ∷ xs) zero z h = refl
  get_elem?-set_here (x ∷ xs) (suc i) z h = get_elem?-set_here xs i z (omega (arith, h))

  get_elem?-set :
      (xs : List A) (i j : ℕ) (y z : A)
      → get_elem? xs j ≡ some y
      → (i ≡ j → z ≡ y)
      → get_elem? (set xs i z) j ≡ some y
  get_elem?-set [] i j y z h k = cc
  get_elem?-set (x ∷ xs) zero zero y z h k = ap some (k refl)
  get_elem?-set (x ∷ xs) zero (suc j) y z h k = h
  get_elem?-set (x ∷ xs) (suc i) zero y z h k = h
  get_elem?-set (x ∷ xs) (suc i) (suc j) y z h k = get_elem?-set xs i j y z h (λ e. k (ap suc e))

  get_elem?-bound : (xs : List A) (i : ℕ) (y : A) → get_elem? xs i ≡ some y → i < length xs
  get_elem?-bound [] i y h = cc
  get_elem?-bound (x ∷ xs) zero y h = omega arith
  get_elem?-bound (x ∷ xs) (suc i) y h = omega (arith, get_elem?-bound xs i y h)

module _ (f : Formats) (columns : List Column) (params : LookupParams) where
  -- The parameter with this name, converted to the type of the column with this name, stands at the
  -- place of this column.
  pub record IsFilled (row : Row) (name : Text) : Type 0 where
    pub value : Text
    pub column : Column
    pub place : ℕ
    pub datum : Datum
    pub given : get_param params name ≡ some value
    pub found : find_column name columns ≡ some column
    pub placed : column_position name columns ≡ some place
    pub converted : json_to_datum f (Json.string value) column.data_type ≡ ok datum
    pub filled : get_elem? row place ≡ some datum

  -- Two names with the same place are the same, so that their datum is.
  set-IsFilled :
      (row : Row) (name other : Text) (value : Text) (column : Column) (i : ℕ) (datum : Datum)
      → get_param params name ≡ some value
      → find_column name columns ≡ some column
      → column_position name columns ≡ some i
      → get_elem? columns i ≡ some column
      → json_to_datum f (Json.string value) column.data_type ≡ ok datum
      → IsFilled row other
      → IsFilled (set row i datum) other
  set-IsFilled row name other value column i datum given found placed at_i converted o = record {
    value = o.value;
    column = o.column;
    place = o.place;
    datum = o.datum;
    given = o.given;
    found = o.found;
    placed = o.placed;
    converted = o.converted;
    filled = get_elem?-set row i o.place o.datum datum o.filled λ e.
        let same : name ≡ other =
          sym (position-name name columns i column placed at_i)
          ∙ position-name other columns i column (o.placed ∙ ap some (sym e)) at_i in
        let v : value ≡ o.value = let g = rw same at given in cc in
        let c : column ≡ o.column = let g = rw same at found in cc in
        let d = rw (v, c) at converted in cc;
  }

  All-set :
      (row : Row) (name : Text) (value : Text) (column : Column) (i : ℕ) (datum : Datum)
      (done : List Text)
      → get_param params name ≡ some value
      → find_column name columns ≡ some column
      → column_position name columns ≡ some i
      → get_elem? columns i ≡ some column
      → json_to_datum f (Json.string value) column.data_type ≡ ok datum
      → All (IsFilled row) done
      → All (IsFilled (set row i datum)) done
  All-set row name value column i datum [] given found placed at_i converted o = tt
  All-set row name value column i datum (d ∷ done) given found placed at_i converted (o, os) = (
    set-IsFilled row name d value column i datum given found placed at_i converted o,
    All-set row name value column i datum done given found placed at_i converted os,
  )

  abbrev FilledRow : List Text → List Text → Row → Type 0
  FilledRow done names row = All (IsFilled row) done × All (IsFilled row) names

  pub fills :
      (names done : List Text) (row : Row)
      → length row ≡ length columns
      → All (IsFilled row) done
      → Returns (FilledRow done names) (key_row f columns params names row)
  unfolding key_row lift
  fills [] done row wide o = Returns-pure row (o, tt)
  fills (name ∷ names) done row wide o = Returns-lift _ _ λ value given.
      Returns-lift _ _ λ col found. Returns-lift _ _ λ datum converted.
        let found' = ok_or-eq-ok _ _ found in
        let (i, placed, at_i) = find_column-position name columns col found' in
        let converted' = bad_datum-eq-ok _ converted in
        let given' = ok_or-eq-ok _ _ given in
        let here : IsFilled (set row i datum) name = record {
          value = value;
          column = col;
          place = i;
          datum = datum;
          given = given';
          found = found';
          placed = placed;
          converted = converted';
          filled = get_elem?-set_here row i datum (rw wide (get_elem?-bound columns i col at_i));
        } in
        let before =
          All-set row name value col i datum done given' found' placed at_i converted' o in
        let later =
          fills names (name ∷ done) (set row i datum) (length-set row i datum ∙ wide)
            (here, before) in
        rw placed (
          Returns-lift (ok i) _ λ j at_j. record {
            at = λ w r h.
                let same : i ≡ j = cc in
                let ((n, d), ns) = later.at w r (rw same h) in (d, (n, ns));
          })
