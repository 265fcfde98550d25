-- ===== src/Server/Auth.antt =====
-- src/server/auth.rs: the credentials of an HTTP Basic header.
pub mod Parse
use fluss_gateway.Base.{
  ℕ, zero, suc, ◌-◌, Bool, true, false, ◌&&◌, not, Text, text, starts_with, find_char, is_empty,
  take, drop, List, [], ◌∷◌, Option, none, some, ltb, leb, ◌==◌, if◌then◌else◌,
}

pub record BasicAuthCredentials : Type 0 where
  pub username : Text
  pub password : Text

-- A run of UTF-8: how many bytes the current character still wants, and the range of the next one.
record Utf8State : Type 0 where
  wants : ℕ
  lo : ℕ
  hi : ℕ

abbrev expects : ℕ → ℕ → ℕ → Option Utf8State
expects wants lo hi = some (record { wants = wants; lo = lo; hi = hi })

-- The table of `core::str::from_utf8`: no overlong forms, no surrogates, nothing above U+10FFFF.
utf8_next : Utf8State → ℕ → Option Utf8State
utf8_next st c =
    if st.wants == 0
    then (if ltb c 0x80
        then expects 0 0 0
        else if ltb c 0xC2
        then none
        else if ltb c 0xE0
        then expects 1 0x80 0xBF
        else if c == 0xE0
        then expects 2 0xA0 0xBF
        else if c == 0xED
        then expects 2 0x80 0x9F
        else if ltb c 0xF0
        then expects 2 0x80 0xBF
        else if c == 0xF0
        then expects 3 0x90 0xBF
        else if ltb c 0xF4
        then expects 3 0x80 0xBF
        else if c == 0xF4
        then expects 3 0x80 0x8F
        else none)
    else if leb st.lo c && leb c st.hi
    then expects (st.wants - 1) 0x80 0xBF
    else none

utf8_from : Utf8State → Text → Bool
unfolding utf8_next
utf8_from st [] = st.wants == 0
utf8_from st (c ∷ s) = elim (utf8_next st c) [ none ↦ false | some st' ↦ utf8_from st' s ]

-- `String::from_utf8` accepts these bytes.
unfoldable pub is_utf8 : Text → Bool
unfolding utf8_from
is_utf8 s = utf8_from (record { wants = 0; lo = 0; hi = 0 }) s

abbrev guard : Bool → Option (Unit {0})
guard true = some tt
guard false = none

infixl 5 ◌>>=◌ ◌>>◌
abbrev ◌>>=◌ {ℓ κ} : {A : Type ℓ} {B : Type κ} → Option A → (A → Option B) → Option B
none >>= f = none
some a >>= f = f a

abbrev ◌>>◌ {ℓ} : {B : Type ℓ} → Option (Unit {0}) → Option B → Option B
m >> k = m >>= λ _. k

-- `decode` is the base64 engine; the header's first six bytes are "Basic ".
unfoldable pub parse_basic_auth : (Text → Option Text) → Text → Option BasicAuthCredentials
unfolding starts_with is_utf8 find_char is_empty
parse_basic_auth decode header_value = do
  guard (starts_with header_value (text "Basic "))
  decoded ← decode (drop 6 header_value)
  guard (is_utf8 decoded)
  colon_pos ← find_char b':' decoded
  let username = take colon_pos decoded
  let password = drop (suc colon_pos) decoded
  guard (not (is_empty username))
  some (record { username = username; password = password })
