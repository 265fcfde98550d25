-- ===== src/Base/Texts.antt =====
-- A Rust `String` is its UTF-8 bytes. All separators and keywords that the program looks for are
-- ASCII, so a search for a character is a search for its byte.
use Prim.Native.Char.{code}
use Prim.Native.Nat.{ℕ, zero, suc}
use Prim.Native.String.{String}
use mathlib.Core.Path.{◌≡◌, refl}
use mathlib.Core.Logic.{◌↔◌, ◌≢◌}
use mathlib.Core.Bool.{Bool, true, false, ◌&&◌}
use mathlib.Core.List.{List, [], ◌∷◌, ◌++◌}
use mathlib.Core.Option.{Option, none, some}
use native.Mathlib.Omega.{arith}
use fluss_gateway.Base.Tests.{◌==◌, if◌then◌else◌}
use fluss_gateway.Base.Lists.{length, take, drop}

abbrev pub Text : Type 0
Text = List ℕ

-- An ASCII literal as text.
abbrev pub text : String → Text
text String.[] = []
text (String.◌∷◌ c s) = code c ∷ text s

unfoldable pub text_eq : Text → Text → Bool
text_eq [] [] = true
text_eq [] (d ∷ t) = false
text_eq (c ∷ s) [] = false
text_eq (c ∷ s) (d ∷ t) = (c == d) && text_eq s t

pub text_eq_refl : (s : Text) → text_eq s s ≡ true
unfolding text_eq
text_eq_refl [] = refl
text_eq_refl (c ∷ s) = ground (arith, text_eq_refl s)

pub text_eq_sound : (s t : Text) → text_eq s t ≡ true → s ≡ t
unfolding text_eq
text_eq_sound [] [] h = refl
text_eq_sound [] (d ∷ t) h = cc
text_eq_sound (c ∷ s) [] h = cc
text_eq_sound (c ∷ s) (d ∷ t) h = ground (arith, text_eq_sound s t)

pub text_eq_iff : (s t : Text) → (text_eq s t ≡ true) ↔ (s ≡ t)
text_eq_iff s t = (text_eq_sound s t, λ e. rw e (text_eq_refl t))

unfoldable pub is_empty : Text → Bool
is_empty [] = true
is_empty (c ∷ s) = false

-- `str::starts_with`.
unfoldable pub starts_with : Text → Text → Bool
starts_with s [] = true
starts_with [] (p ∷ ps) = false
starts_with (c ∷ s) (p ∷ ps) = (c == p) && starts_with s ps

-- `str::contains`.
unfoldable pub contains : Text → Text → Bool
unfolding starts_with
contains [] p = starts_with [] p
contains (c ∷ s) p = let later = contains s p in if starts_with (c ∷ s) p then true else later

-- `str::find` of one character: its position.
unfoldable pub find_char : ℕ → Text → Option ℕ
find_char sep [] = none
find_char sep (c ∷ s) =
    let later = find_char sep s in
    if c == sep then some 0 else elim later [ none ↦ none | some i ↦ some (suc i) ]

abbrev on_head : ℕ → List Text → List Text
on_head c [] = []
on_head c (p ∷ ps) = (c ∷ p) ∷ ps

-- `str::split` at one character: one part more than there are separators.
unfoldable pub split : ℕ → Text → List Text
split sep [] = [] ∷ []
split sep (c ∷ s) = let rest = split sep s in if c == sep then [] ∷ rest else on_head c rest

-- No separator stands in the text.
abbrev pub IsFree : ℕ → Text → Type 0
IsFree sep [] = Unit
IsFree sep (c ∷ s) = (c ≢ sep) × IsFree sep s

pub split-IsFree : (sep : ℕ) (s : Text) → IsFree sep s → split sep s ≡ s ∷ []
unfolding split
split-IsFree sep [] h = refl
split-IsFree sep (c ∷ s) h = ground (arith, split-IsFree sep s h.1, h.0)

pub split-append :
    (sep : ℕ) (s t : Text) → IsFree sep s → split sep (s ++ sep ∷ t) ≡ s ∷ split sep t
unfolding split
split-append sep [] t h = ground arith
split-append sep (c ∷ s) t h = ground (arith, split-append sep s t h.1, h.0)

-- What `find_char` tells: the text before the position is free of the separator, which stands there.
pub find_char-append :
    (sep : ℕ) (s t : Text) → IsFree sep s → find_char sep (s ++ sep ∷ t) ≡ some (length s)
unfolding find_char
find_char-append sep [] t h = ground arith
find_char-append sep (c ∷ s) t h = ground (arith, find_char-append sep s t h.1, h.0)

pub find_char-eq-some :
    (sep : ℕ) (s : Text) (i : ℕ)
    → find_char sep s ≡ some i
    → (s ≡ take i s ++ sep ∷ drop (suc i) s) × IsFree sep (take i s)
unfolding find_char
find_char-eq-some sep [] i h = cc
find_char-eq-some sep (c ∷ s) zero h = ground arith
find_char-eq-some sep (c ∷ s) (suc i) h = ground (arith, find_char-eq-some sep s i)

pub find_char-eq-none : (sep : ℕ) (s : Text) → find_char sep s ≡ none → IsFree sep s
unfolding find_char
find_char-eq-none sep [] h = tt
find_char-eq-none sep (c ∷ s) h = (ground arith, find_char-eq-none sep s (ground arith))
