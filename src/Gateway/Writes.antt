-- ===== src/Gateway/Writes.antt =====
-- What actions change in Fluss: what they add to the changes in the history of calls.
use mathlib.Core.List.{append-nil}
use fluss_gateway.Base.{
  ℕ, ◌≡◌, refl, Bool, sym, ap, ◌∙◌, Text, Result, ok, err, List, [], ◌∷◌, ◌++◌, ◌⊎◌, inl, inr,
}
use fluss_gateway.Fluss.{
  Call, Row, TablePath, NewDatabase, NewTable, append, upsert, delete, create_database,
  drop_database, create_table, drop_table,
}
use fluss_gateway.Gateway.{World, Run, Fault}

pub data Write : Type 0 where
  -- The writer, and the row.
  appended upserted deleted : ℕ → Row → Write
  created_database : Text → NewDatabase → Bool → Write
  dropped_database : Text → Bool → Bool → Write
  created_table : TablePath → NewTable → Bool → Write
  dropped_table : TablePath → Bool → Write

-- The calls that ask for a change, in order.
unfoldable pub written : List Call → List Write
written [] = []
written (append writer row ∷ calls) = appended writer row ∷ written calls
written (upsert writer row ∷ calls) = upserted writer row ∷ written calls
written (delete writer row ∷ calls) = deleted writer row ∷ written calls
written (create_database admin name descriptor ignore ∷ calls) =
    created_database name descriptor ignore ∷ written calls
written (drop_database admin name ignore cascade ∷ calls) =
    dropped_database name ignore cascade ∷ written calls
written (create_table admin path descriptor ignore ∷ calls) =
    created_table path descriptor ignore ∷ written calls
written (drop_table admin path ignore ∷ calls) = dropped_table path ignore ∷ written calls
written (_ ∷ calls) = written calls

pub written-append : (cs ds : List Call) → written (cs ++ ds) ≡ written cs ++ written ds
unfolding written
written-append [] ds = refl
written-append (append writer row ∷ cs) ds =
    ap (λ ws. appended writer row ∷ ws) (written-append cs ds)
written-append (upsert writer row ∷ cs) ds =
    ap (λ ws. upserted writer row ∷ ws) (written-append cs ds)
written-append (delete writer row ∷ cs) ds =
    ap (λ ws. deleted writer row ∷ ws) (written-append cs ds)
written-append (create_database admin name descriptor ignore ∷ cs) ds =
    ap (λ ws. created_database name descriptor ignore ∷ ws) (written-append cs ds)
written-append (drop_database admin name ignore cascade ∷ cs) ds =
    ap (λ ws. dropped_database name ignore cascade ∷ ws) (written-append cs ds)
written-append (create_table admin path descriptor ignore ∷ cs) ds =
    ap (λ ws. created_table path descriptor ignore ∷ ws) (written-append cs ds)
written-append (drop_table admin path ignore ∷ cs) ds =
    ap (λ ws. dropped_table path ignore ∷ ws) (written-append cs ds)
written-append (_ ∷ cs) ds = written-append cs ds

-- Of `ws`, a first part was written, all of it if the action returned.
pub record Added {ℓ} {A : Type ℓ} (w : World) (ws : List Write) (out : Result A Fault × World)
    : Type ℓ where
  pub done : List Write
  pub left : List Write
  pub parts : ws ≡ done ++ left
  pub new : written out.1.trace ≡ written w.trace ++ done
  pub whole : (left ≡ []) ⊎ ((e : Fault) × (out.0 ≡ err e))

-- An action that returned has nothing left to write.
pub returned_whole {ℓ} :
    {A : Type ℓ} (left : List Write) (r : Result A Fault) (a : A)
    → (left ≡ []) ⊎ ((e : Fault) × (r ≡ err e))
    → r ≡ ok a
    → left ≡ []
returned_whole left r a (inl h) e = h
returned_whole left r a (inr (f, h)) e = cc

pub record Writes {ℓ} {A : Type ℓ} (m : Run A) (ws : List Write) : Type ℓ where
  pub at : (w : World) → Added w ws (m w)

module _ {ℓ} {A : Type ℓ} where
  pub nothing_yet :
      (w : World) (ws : List Write) (r : Result A Fault)
      → (ws ≡ []) ⊎ ((e : Fault) × (r ≡ err e))
      → Added w ws (r, w)
  nothing_yet w ws r h = record {
    done = [];
    left = ws;
    parts = refl;
    new = sym (append-nil _);
    whole = h;
  }

pub Writes-returned {ℓ} :
    {A : Type ℓ} (m : Run A) (ws : List Write) (w : World) (a : A)
    → Writes m ws
    → (m w).0 ≡ ok a
    → written (m w).1.trace ≡ written w.trace ++ ws
Writes-returned m ws w a h e =
    let added = h.at w in
    added.new
    ∙ ap (λ l. written w.trace ++ l)
        (sym (
          added.parts
          ∙ ap (λ l. added.done ++ l) (returned_whole added.left (m w).0 a added.whole e)
          ∙ append-nil _))

pub Added-returned {ℓ} :
    {A : Type ℓ} (w : World) (ws : List Write) (out : Result A Fault × World) (a : A)
    → Added w ws out
    → out.0 ≡ ok a
    → written out.1.trace ≡ written w.trace ++ ws
Added-returned w ws out a added e =
    added.new
    ∙ ap (λ l. written w.trace ++ l)
        (sym (
          added.parts
          ∙ ap (λ l. added.done ++ l) (returned_whole added.left out.0 a added.whole e)
          ∙ append-nil _))
