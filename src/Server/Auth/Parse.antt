-- ===== src/Server/Auth/Parse.antt =====
-- Which headers carry credentials, and which ones.
use fluss_gateway.Base.{
  ℕ, suc, ◌≡◌, ◌≢◌, refl, ap, sym, subst, ◌∙◌, ◌↔◌, Bool, true, false, Text, text, starts_with,
  find_char, is_empty, take, drop, length, [], ◌∷◌, ◌++◌, Option, none, some, IsFree,
  find_char-append, find_char-eq-some, arith, not,
}
use fluss_gateway.Server.Auth.{BasicAuthCredentials, is_utf8, parse_basic_auth, guard, ◌>>=◌}

module _ (decode : Text → Option Text) where
  -- The header is "Basic " and the base64 form of the user, a colon and the password. The user is not
  -- empty and holds no colon; the password may hold any.
  pub record IsBasic (header : Text) (creds : BasicAuthCredentials) : Type 0 where
    pub encoded : Text
    pub prefixed : header ≡ text "Basic " ++ encoded
    pub decoded : decode encoded ≡ some (creds.username ++ b':' ∷ creds.password)
    pub utf8 : is_utf8 (creds.username ++ b':' ∷ creds.password) ≡ true
    pub no_colon : IsFree b':' creds.username
    pub named : creds.username ≢ []

  -- What a text that starts with another is.
  starts_with-drop : (p s : Text) → starts_with s p ≡ true → s ≡ p ++ drop (length p) s
  unfolding starts_with
  starts_with-drop [] s h = refl
  starts_with-drop (c ∷ p) [] h = cc
  starts_with-drop (c ∷ p) (d ∷ s) h = ground (arith, starts_with-drop p s)

  take-length : (s t : Text) → take (length s) (s ++ t) ≡ s
  take-length [] t = refl
  take-length (c ∷ s) t = ap (λ r. c ∷ r) (take-length s t)

  drop-suc : (s t : Text) (c : ℕ) → drop (suc (length s)) (s ++ c ∷ t) ≡ t
  drop-suc [] t c = refl
  drop-suc (d ∷ s) t c = drop-suc s t c

  is_empty-false : (s : Text) → s ≢ [] → is_empty s ≡ false
  unfolding is_empty
  is_empty-false [] h = absurd (h refl)
  is_empty-false (c ∷ s) h = refl

  module _ (creds : BasicAuthCredentials) where
    abbrev joined : Text
    joined = creds.username ++ b':' ∷ creds.password

    parse_complete :
        (header : Text) → IsBasic header creds → parse_basic_auth decode header ≡ some creds
    unfolding parse_basic_auth
    parse_complete header b = rw b.prefixed (
        rw b.decoded (
          rw b.utf8 (
            rw (find_char-append b':' creds.username creds.password b.no_colon) (
              rw
                (
                  take-length creds.username (b':' ∷ creds.password),
                  drop-suc creds.username creds.password b':',
                )
                (rw (is_empty-false creds.username b.named) refl)))))

  guard-eq-some :
      {B : Type 0} (b : Bool) (k : Option B) {c : B}
      → (guard b >>= λ _. k) ≡ some c
      → (b ≡ true) × (k ≡ some c)
  guard-eq-some true k h = (refl, h)
  guard-eq-some false k h = cc

  bind-eq-some :
      {A B : Type 0} (m : Option A) (f : A → Option B) {c : B}
      → (m >>= f) ≡ some c
      → (a : A) × (m ≡ some a) × (f a ≡ some c)
  bind-eq-some none f h = cc
  bind-eq-some (some a) f h = (a, refl, h)

  nonempty-named : (s : Text) → not (is_empty s) ≡ true → s ≢ []
  unfolding is_empty
  nonempty-named [] h = cc
  nonempty-named (c ∷ s) h = λ e. cc

  assemble :
      (header decoded : Text) (i : ℕ) (creds : BasicAuthCredentials)
      → starts_with header (text "Basic ") ≡ true
      → decode (drop 6 header) ≡ some decoded
      → is_utf8 decoded ≡ true
      → find_char b':' decoded ≡ some i
      → not (is_empty (take i decoded)) ≡ true
      → record { username = take i decoded; password = drop (suc i) decoded } ≡ creds
      → IsBasic header creds
  assemble header decoded i creds starts got valid found nonempty same =
      let (parts, free) = find_char-eq-some b':' decoded i found in
      subst (IsBasic header) same (record {
        encoded = drop 6 header;
        prefixed = starts_with-drop (text "Basic ") header starts;
        decoded = got ∙ ap some parts;
        utf8 = sym (ap is_utf8 parts) ∙ valid;
        no_colon = free;
        named = nonempty-named (take i decoded) nonempty;
      })

  parse_sound :
      (header : Text) (creds : BasicAuthCredentials)
      → parse_basic_auth decode header ≡ some creds
      → IsBasic header creds
  unfolding parse_basic_auth
  parse_sound header creds h =
      let (starts, h1) = guard-eq-some (starts_with header (text "Basic ")) _ h in
      let (decoded, got, h2) = bind-eq-some (decode (drop 6 header)) _ h1 in
      let (valid, h3) = guard-eq-some (is_utf8 decoded) _ h2 in
      let (i, found, h4) = bind-eq-some (find_char b':' decoded) _ h3 in
      let (nonempty, h5) = guard-eq-some (not (is_empty (take i decoded))) _ h4 in
      assemble header decoded i creds starts got valid found nonempty (cc)

  -- The parser returns credentials exactly for the headers that carry them: "Basic " and the base64
  -- form of valid UTF-8 that is a user, a colon and a password, the user without a colon and not
  -- empty.
  pub parse_basic_auth_iff :
      (header : Text) (creds : BasicAuthCredentials)
      → (parse_basic_auth decode header ≡ some creds) ↔ IsBasic header creds
  parse_basic_auth_iff header creds = (parse_sound header creds, parse_complete creds header)
