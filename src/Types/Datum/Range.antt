-- ===== src/Types/Datum/Range.antt =====
-- What `json_to_datum` accepts, and which datum it makes of it.
use fluss_gateway.Base.{
  ℕ, ◌<◌, ◌≡◌, refl, ap, ◌⊎◌, inl, inr, Option, some, none, ok, err, ℤ, InRange, InRange-cases,
  wrap, wrap-InRange, wrap_of_InRange, half8, half16, half32, half64, parse_int-InRange, Bool,
  parse_int-show_ℤ, parse_int-show_ℤ_over, show_ℤ, show_error, Text, text, arith, Result, ◌↔◌,
  map_err,
}
use fluss_gateway.Types.Json.{Number, Json, IsJson}
use fluss_gateway.Types.Datum.{
  DataType, Datum, Formats, json_to_datum, expected, parsed, boolean, tinyint, smallint, int,
  bigint, float, double, char, bytes, binary, int8, int16, int32, int64, float32, float64, blob,
}

-- The datums of a column type; `null` is one of every type.
pub data Fits : DataType → Datum → Type 0 where
  a_null : {dt : DataType} → Fits dt Datum.null
  a_bool : {b : Bool} → Fits boolean (Datum.bool b)
  a_tinyint : {z : ℤ} → InRange half8 z → Fits tinyint (int8 z)
  a_smallint : {z : ℤ} → InRange half16 z → Fits smallint (int16 z)
  an_int : {z : ℤ} → InRange half32 z → Fits int (int32 z)
  a_bigint : {z : ℤ} → InRange half64 z → Fits bigint (int64 z)
  a_float : {w : ℕ} → Fits float (float32 w)
  a_double : {w : ℕ} → Fits double (float64 w)
  a_string : {s : Text} → Fits DataType.string (Datum.string s)
  a_char : {s : Text} → Fits char (Datum.string s)
  some_bytes : {s : Text} → Fits bytes (blob s)
  a_binary : {s : Text} → Fits binary (blob s)

wrap_fixed_iff : (h : ℕ) (z : ℤ) → 0 < h → (wrap h z ≡ z) ↔ InRange h z
wrap_fixed_iff h z p = (λ e. rw e at (wrap-InRange h z p), wrap_of_InRange h z)

-- Inversion of the two ways to build a datum from what may be missing or refused.
expected-eq-ok {ℓ} :
    {A : Type ℓ} (name : Text) (n : Number) (mk : A → Datum) (found : Option A) {d : Datum}
    → expected name n mk found ≡ ok d
    → (a : A) × (found ≡ some a) × (d ≡ mk a)
expected-eq-ok name n mk none h = cc
expected-eq-ok name n mk (some a) h = (a, refl, cc)

parsed-eq-ok {ℓ} :
    {A : Type ℓ} (name s : Text) (mk : A → Datum) (found : Result A Text) {d : Datum}
    → parsed name s mk found ≡ ok d
    → (a : A) × (found ≡ ok a) × (d ≡ mk a)
parsed-eq-ok name s mk (err e) h = cc
parsed-eq-ok name s mk (ok a) h = (a, refl, cc)

map_err-eq-ok {ℓ κ μ} :
    {A : Type ℓ} {E : Type κ} {F : Type μ} (g : E → F) (m : Result A E) {a : A}
    → map_err g m ≡ ok a
    → m ≡ ok a
map_err-eq-ok g (ok a) h = cc
map_err-eq-ok g (err e) h = cc

module _ (f : Formats) where
  -- A JSON integer for a TINYINT, SMALLINT or INT column is always accepted; the datum holds the
  -- same integer exactly when the integer is in the range of the column's type.
  pub narrow_exact_iff :
      (n : Number) (z : ℤ)
      → n.as_i64 ≡ some z
      → ((json_to_datum f (Json.number n) tinyint ≡ ok (int8 z)) ↔ InRange half8 z)
        × ((json_to_datum f (Json.number n) smallint ≡ ok (int16 z)) ↔ InRange half16 z)
        × ((json_to_datum f (Json.number n) int ≡ ok (int32 z)) ↔ InRange half32 z)
  unfolding json_to_datum
  narrow_exact_iff n z e = rw e (
    (
      λ h. (wrap_fixed_iff half8 z (omega arith)).0 (cc),
      λ r. ap (λ v. ok (int8 v)) ((wrap_fixed_iff half8 z (omega arith)).1 r),
    ),
    (
      λ h. (wrap_fixed_iff half16 z (omega arith)).0 (cc),
      λ r. ap (λ v. ok (int16 v)) ((wrap_fixed_iff half16 z (omega arith)).1 r),
    ),
    (
      λ h. (wrap_fixed_iff half32 z (omega arith)).0 (cc),
      λ r. ap (λ v. ok (int32 v)) ((wrap_fixed_iff half32 z (omega arith)).1 r),
    ),
  )

  -- A key given as text: the decimal text of an integer is converted to that integer if it is in
  -- the range of INT, and is refused otherwise.
  pub json_to_datum-show_ℤ :
      (z : ℤ)
      → (InRange half32 z × (json_to_datum f (Json.string (show_ℤ z)) int ≡ ok (int32 z)))
        ⊎ ((¬ InRange half32 z)
            × (m : Text) × (json_to_datum f (Json.string (show_ℤ z)) int ≡ err m))
  unfolding json_to_datum
  json_to_datum-show_ℤ z = elim (InRange-cases half32 z) [
    | inl h ↦ inl (h, rw (parse_int-show_ℤ half32 z h))
    | inr h ↦
        let over : (m : Text) × (json_to_datum f (Json.string (show_ℤ z)) int ≡ err m) =
          rw (parse_int-show_ℤ_over half32 z (omega arith) h) (_, refl) in
        inr (h, over.0, over.1)
  ]

  -- Whatever value is given for whatever column type, an accepted value becomes a datum of the
  -- column's type, and an integer in it is in that type's range. (`IsJson`: a number that says it
  -- is an `i64` is one.)
  pub json_to_datum-Fits :
      (v : Json) (dt : DataType) (d : Datum) → IsJson v → json_to_datum f v dt ≡ ok d → Fits dt d
  unfolding json_to_datum
  json_to_datum-Fits Json.null dt d j h = let e : d ≡ Datum.null = cc in rw e a_null
  json_to_datum-Fits (Json.bool v) boolean d j h = let e : d ≡ Datum.bool v = cc in rw e a_bool
  json_to_datum-Fits (Json.number n) tinyint d j h =
      let (z, found, e) = expected-eq-ok (text "tinyint") n (λ v. int8 (wrap half8 v)) n.as_i64 h in
      rw e (a_tinyint (wrap-InRange half8 z (omega arith)))
  json_to_datum-Fits (Json.number n) smallint d j h =
      let (z, found, e) =
        expected-eq-ok (text "smallint") n (λ v. int16 (wrap half16 v)) n.as_i64 h in
      rw e (a_smallint (wrap-InRange half16 z (omega arith)))
  json_to_datum-Fits (Json.number n) int d j h =
      let (z, found, e) = expected-eq-ok (text "int") n (λ v. int32 (wrap half32 v)) n.as_i64 h in
      rw e (an_int (wrap-InRange half32 z (omega arith)))
  json_to_datum-Fits (Json.number n) bigint d j h =
      let (z, found, e) = expected-eq-ok (text "bigint") n int64 n.as_i64 h in
      rw e (a_bigint (j z found))
  json_to_datum-Fits (Json.number n) float d j h =
      let (w, found, e) =
        expected-eq-ok (text "float") n (λ v. float32 (f.f64_to_f32 v)) n.as_f64 h in
      rw e a_float
  json_to_datum-Fits (Json.number n) double d j h =
      let (w, found, e) = expected-eq-ok (text "double") n float64 n.as_f64 h in rw e a_double
  json_to_datum-Fits (Json.string s) DataType.string d j h =
      let e : d ≡ Datum.string s = cc in rw e a_string
  json_to_datum-Fits (Json.string s) char d j h = let e : d ≡ Datum.string s = cc in rw e a_char
  json_to_datum-Fits (Json.string s) bytes d j h = let e : d ≡ blob s = cc in rw e some_bytes
  json_to_datum-Fits (Json.string s) binary d j h = let e : d ≡ blob s = cc in rw e a_binary
  json_to_datum-Fits (Json.string s) int d j h =
      let (z, found, e) = parsed-eq-ok (text "int") s int32 _ h in
      rw e (an_int (parse_int-InRange half32 s (omega arith) (map_err-eq-ok show_error _ found)))
  json_to_datum-Fits (Json.string s) bigint d j h =
      let (z, found, e) = parsed-eq-ok (text "bigint") s int64 _ h in
      rw e (a_bigint (parse_int-InRange half64 s (omega arith) (map_err-eq-ok show_error _ found)))
  json_to_datum-Fits (Json.string s) boolean d j h =
      let (b, found, e) = parsed-eq-ok (text "bool") s Datum.bool _ h in rw e a_bool
  json_to_datum-Fits (Json.string s) float d j h =
      let (w, found, e) = parsed-eq-ok (text "float") s float32 _ h in rw e a_float
  json_to_datum-Fits (Json.string s) double d j h =
      let (w, found, e) = parsed-eq-ok (text "double") s float64 _ h in rw e a_double
  json_to_datum-Fits v dt d j h = cc
