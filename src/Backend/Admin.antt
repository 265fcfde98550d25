-- ===== src/Backend/Admin.antt =====
-- The metadata operations of src/backend/mod.rs.
use fluss_gateway.Base.{
  ℤ, Bool, ◌||◌, Text, text, contains, Option, none, some, List, [], ok, err, if◌then◌else◌,
}
use fluss_gateway.Types.Requests.{Dict}
use fluss_gateway.Fluss.{
  Call, Externals, TablePath, TableInfo, Schema, NewDatabase, NewTable, OffsetSpec, Partition,
}
use fluss_gateway.Gateway.{Run, pure, lift, fluss_err, call, ◌>>=◌, ◌>>◌}
use fluss_gateway.Backend.{admin, table}
use fluss_gateway.Server.Auth.{BasicAuthCredentials}

abbrev pub path_of : Text → Text → TablePath
path_of db name = record { database = db; table = name }

-- An empty list or map is not handed on.
abbrev pub nonempty {ℓ} : {A : Type ℓ} → List A → Option (List A)
nonempty [] = none
nonempty xs = some xs

-- A non-partitioned table is an error of Fluss, which is read from its text.
unfoldable pub means_unpartitioned : Text → Bool
unfolding contains
means_unpartitioned e = contains e (text "not a partitioned table") || contains e (text "code: 37")

module _ (x : Externals) (creds : Option BasicAuthCredentials) where
  unfoldable pub list_databases : Run (List Text)
  list_databases = do a ← admin x creds; call x.client.names (Call.list_databases a)

  unfoldable pub list_tables : Text → Run (List Text)
  list_tables db = do a ← admin x creds; call x.client.names (Call.list_tables a db)

  unfoldable pub get_table_info : Text → Text → Run TableInfo
  get_table_info db name = do t ← table x (path_of db name) creds; pure (x.client.table_info t)

  unfoldable pub create_database : Text → Option Text → Dict → Bool → Run (Unit {0})
  create_database db comment custom_properties ignore_if_exists = do
    a ← admin x creds
    let descriptor : NewDatabase = record {
      comment = comment;
      custom_properties = nonempty custom_properties;
    }
    call x.client.runs (Call.create_database a db descriptor ignore_if_exists)

  unfoldable pub drop_database : Text → Bool → Bool → Run (Unit {0})
  drop_database db ignore_if_not_exists cascade = do
    a ← admin x creds
    call x.client.runs (Call.drop_database a db ignore_if_not_exists cascade)

  unfoldable pub create_table :
      Text
      → Text
      → Schema
      → List Text
      → Option ℤ
      → List Text
      → Dict
      → Option Text
      → Bool
      → Run (Unit {0})
  create_table db name schema partition_keys bucket_count bucket_keys properties comment
        ignore_if_exists =
      do
        a ← admin x creds
        let descriptor : NewTable = record {
          schema = schema;
          properties = properties;
          partitioned_by = nonempty partition_keys;
          bucket_count = bucket_count;
          bucket_keys = bucket_keys;
          comment = comment;
        }
        lift (fluss_err (x.client.build_table descriptor))
        call x.client.runs (Call.create_table a (path_of db name) descriptor ignore_if_exists)

  unfoldable pub drop_table : Text → Text → Bool → Run (Unit {0})
  drop_table db name ignore_if_not_exists = do
    a ← admin x creds
    call x.client.runs (Call.drop_table a (path_of db name) ignore_if_not_exists)

  unfoldable pub list_offsets : Text → Text → List ℤ → OffsetSpec → Run (List (ℤ × ℤ))
  list_offsets db name buckets spec = do
    a ← admin x creds
    call x.client.offsets (Call.list_offsets a (path_of db name) buckets spec)

  -- The call that may fail, and what is made of its failure.
  unfoldable pub infos_or_none : Call → Run (List Partition)
  unfolding means_unpartitioned
  infos_or_none c w = elim (x.client.partitions w.trace c) [
    | ok parts ↦ call x.client.partitions c w
    | err e ↦
        if means_unpartitioned e
        then (ok [], (call x.client.partitions c w).1)
        else call x.client.partitions c w
  ]

  unfoldable pub list_partitions : Text → Text → Run (List Partition)
  list_partitions db name = do
    a ← admin x creds
    infos_or_none (Call.list_partition_infos a (path_of db name))
