-- ===== src/Types/Datum.antt =====
-- `json_to_datum` of src/types/mod.rs: one clause for each arm of its match.
pub mod Range
use mathlib.Core.Option
use fluss_gateway.Base.{
  ℕ, Bool, true, false, Option, some, none, Text, text, text_eq, ◌++◌, Result, ok, err, ok_or,
  map_ok, map_err, ℤ, wrap, half8, half16, half32, half64, parse_int, show_error, ParseIntError,
  if◌then◌else◌,
}
use fluss_gateway.Types.Json.{Number, Json}

-- `fluss::metadata::DataType`; the parameters of a type (its nullability, its length) are not read.
-- `other` stands for the types that the conversion does not name.
pub data DataType : Type 0 where
  boolean tinyint smallint int bigint float double string char bytes binary : DataType
  other : ℕ → DataType

-- `fluss::row::Datum`; a float is its bit pattern.
pub data Datum : Type 0 where
  null : Datum
  bool : Bool → Datum
  int8 int16 int32 int64 : ℤ → Datum
  float32 float64 : ℕ → Datum
  string : Text → Datum
  blob : Text → Datum

-- What the conversion takes from Rust's floats and from derived `Debug` output.
pub record Formats : Type 0 where
  pub f64_to_f32 : ℕ → ℕ
  pub parse_f32 : Text → Result ℕ Text
  pub parse_f64 : Text → Result ℕ Text
  pub debug_value : Json → Text
  pub debug_type : DataType → Text

-- `str::parse::<bool>`.
unfoldable pub parse_bool : Text → Result Bool Text
unfolding text_eq
parse_bool s =
    if text_eq s (text "true")
    then ok true
    else if text_eq s (text "false")
    then ok false
    else err (text "provided string was not `true` or `false`")

-- `ok_or_else(|| format!("expected {name}, got {n}"))`.
abbrev expected {ℓ} : {A : Type ℓ} → Text → Number → (A → Datum) → Option A → Result Datum Text
expected name n mk found =
    ok_or (Option.map mk found) (text "expected " ++ (name ++ (text ", got " ++ n.display)))

-- `map_err(|e| format!("invalid {name} '{s}': {e}"))`.
abbrev parsed {ℓ} : {A : Type ℓ} → Text → Text → (A → Datum) → Result A Text → Result Datum Text
parsed name s mk found =
    map_ok mk
      (map_err (λ e. text "invalid " ++ (name ++ (text " '" ++ (s ++ (text "': " ++ e))))) found)

module _ (f : Formats) where
  unfoldable pub json_to_datum : Json → DataType → Result Datum Text
  unfolding parse_bool show_error
  json_to_datum Json.null dt = ok Datum.null
  json_to_datum (Json.bool v) boolean = ok (Datum.bool v)
  json_to_datum (Json.number n) tinyint =
      expected (text "tinyint") n (λ v. int8 (wrap half8 v)) n.as_i64
  json_to_datum (Json.number n) smallint =
      expected (text "smallint") n (λ v. int16 (wrap half16 v)) n.as_i64
  json_to_datum (Json.number n) int = expected (text "int") n (λ v. int32 (wrap half32 v)) n.as_i64
  json_to_datum (Json.number n) bigint = expected (text "bigint") n int64 n.as_i64
  json_to_datum (Json.number n) float =
      expected (text "float") n (λ v. float32 (f.f64_to_f32 v)) n.as_f64
  json_to_datum (Json.number n) double = expected (text "double") n float64 n.as_f64
  json_to_datum (Json.string s) DataType.string = ok (Datum.string s)
  json_to_datum (Json.string s) char = ok (Datum.string s)
  json_to_datum (Json.string s) bytes = ok (blob s)
  json_to_datum (Json.string s) binary = ok (blob s)
  json_to_datum (Json.string s) int =
      parsed (text "int") s int32 (map_err show_error (parse_int half32 s))
  json_to_datum (Json.string s) bigint =
      parsed (text "bigint") s int64 (map_err show_error (parse_int half64 s))
  json_to_datum (Json.string s) boolean = parsed (text "bool") s Datum.bool (parse_bool s)
  json_to_datum (Json.string s) float = parsed (text "float") s float32 (f.parse_f32 s)
  json_to_datum (Json.string s) double = parsed (text "double") s float64 (f.parse_f64 s)
  json_to_datum v dt =
      err (text "cannot convert " ++ (f.debug_value v ++ (text " to " ++ f.debug_type dt)))
