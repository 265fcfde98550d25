-- ===== src/Pool/Confined.antt =====
-- What the calls of a request may touch: the handles that descend from the connections of a user.
pub mod Holds
pub mod Take
use mathlib.Core.List.{Memᴰ}
use fluss_gateway.Base.{ℕ, ◌≡◌, Text, Option, none, some, List, [], ◌∷◌, ◌++◌, ok, All}
use fluss_gateway.Fluss.{
  Call, Externals, connect, get_admin, get_table, list_databases, list_tables, create_database,
  drop_database, create_table, drop_table, list_offsets, list_partition_infos, new_lookup,
  create_lookuper, lookup, to_record_batch, project, create_scanner, subscribe, poll, new_append,
  create_append_writer, append, flush_append, new_upsert, create_upsert_writer, upsert, delete,
  flush_upsert,
}
use fluss_gateway.Pool.{conn_config, hash_credentials}
use fluss_gateway.Pool.Owned.{IsOwned}

-- The handle that a call is made on.
unfoldable pub handle_of : Call → Option ℕ
handle_of (connect config) = none
handle_of (get_admin h) = some h
handle_of (get_table h path) = some h
handle_of (list_databases h) = some h
handle_of (list_tables h db) = some h
handle_of (create_database h db descriptor ignore) = some h
handle_of (drop_database h db ignore cascade) = some h
handle_of (create_table h path descriptor ignore) = some h
handle_of (drop_table h path ignore) = some h
handle_of (list_offsets h path buckets spec) = some h
handle_of (list_partition_infos h path) = some h
handle_of (new_lookup h) = some h
handle_of (create_lookuper h) = some h
handle_of (lookup h row) = some h
handle_of (to_record_batch h) = some h
handle_of (project h columns) = some h
handle_of (create_scanner h) = some h
handle_of (subscribe h bucket) = some h
handle_of (poll h timeout) = some h
handle_of (new_append h) = some h
handle_of (create_append_writer h) = some h
handle_of (append h row) = some h
handle_of (flush_append h) = some h
handle_of (new_upsert h) = some h
handle_of (create_upsert_writer h) = some h
handle_of (upsert h row) = some h
handle_of (delete h row) = some h
handle_of (flush_upsert h) = some h

module _ (x : Externals) (coordinator username password : Text) where
  -- The handles of a user: the connections that were opened for the user and for a password with the
  -- hash of this one, and what the client answered to calls on such handles.
  pub data Owns : List Call → ℕ → Type 0 where
    connected :
        (trace : List Call) (c : ℕ)
        → IsOwned x trace coordinator (hash_credentials x username password, c)
        → Owns trace c
    answered :
        (before : List Call) (c : Call) (h r : ℕ)
        → handle_of c ≡ some h
        → Owns before h
        → x.client.opens before c ≡ ok r
        → Owns (before ++ c ∷ []) r
    scans : (trace : List Call) (t : ℕ) → Owns trace t → Owns trace (x.client.new_scan t)
    still : (before : List Call) (c : Call) (h : ℕ) → Owns before h → Owns (before ++ c ∷ []) h

  -- A call that the user may cause: a connection with these credentials, or a call on a handle.
  pub data MayCall (trace : List Call) : Call → Type 0 where
    connects : MayCall trace (connect (conn_config coordinator username password))
    reaches : (c : Call) (h : ℕ) → handle_of c ≡ some h → Owns trace h → MayCall trace c

  -- The history grew by calls that the user may cause.
  pub data Grows (start : List Call) : List Call → Type 0 where
    same : Grows start start
    more :
        (trace : List Call) (c : Call)
        → Grows start trace
        → MayCall trace c
        → Grows start (trace ++ c ∷ [])

  pub All-still :
      (trace : List Call) (c : Call) (hs : List ℕ)
      → All (Owns trace) hs
      → All (Owns (trace ++ c ∷ [])) hs
  All-still trace c [] owned = tt
  All-still trace c (h ∷ hs) (o, owned) = (still trace c h o, All-still trace c hs owned)

  pub All-at :
      (trace : List Call) (hs : List ℕ) (h : ℕ) → All (Owns trace) hs → Memᴰ h hs → Owns trace h
  All-at trace [] h owned m = elim m [ ]
  All-at trace (g ∷ hs) h (o, owned) (Memᴰ.head e) = rw e o
  All-at trace (g ∷ hs) h (o, owned) (Memᴰ.tail m) = All-at trace hs h owned m
