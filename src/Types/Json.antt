-- ===== src/Types/Json.antt =====
-- `serde_json::Value` as the gateway reads it, with what the conversions take from other crates.
use fluss_gateway.Base.{ℕ, ◌≡◌, Text, Option, some, ℤ, InRange, half64, Bool}

-- A JSON number is seen through its getters. A float is its bit pattern.
pub record Number : Type 0 where
  pub as_i64 : Option ℤ
  pub as_f64 : Option ℕ
  pub display : Text

mutual
  pub data Json : Type 0 where
    null : Json
    bool : Bool → Json
    number : Number → Json
    string : Text → Json
    array : Items → Json
    object : Fields → Json

  pub data Items : Type 0 where
    nil : Items
    cons : Json → Items → Items

  pub data Fields : Type 0 where
    end : Fields
    field : Text → Json → Fields → Fields

-- Documented: `as_i64` returns an `i64`.
abbrev pub IsNumber : Number → Type 0
IsNumber n = (z : ℤ) → n.as_i64 ≡ some z → InRange half64 z

abbrev pub IsJson : Json → Type 0
IsJson (number n) = IsNumber n
IsJson _ = Unit
