-- ===== src/Types/Requests.antt =====
-- The bodies and parameters of requests and responses, in src/types/mod.rs. A map is an
-- association list; the order of a `HashMap` is not read.
use fluss_gateway.Base.{ℕ, ℤ, Bool, Option, some, none, Text, text_eq, List, [], ◌∷◌, if◌then◌else◌}
use fluss_gateway.Types.Json.{Json}

abbrev pub Dict : Type 0
Dict = List (Text × Text)

-- `HashMap::get`.
unfoldable pub lookup : Text → Dict → Option Text
unfolding text_eq
lookup k [] = none
lookup k ((j, v) ∷ m) = let later = lookup k m in if text_eq j k then some v else later

-- `HashMap::insert`: the value of a key that is there is replaced.
unfoldable pub insert : Text → Text → Dict → Dict
unfolding text_eq
insert k v [] = (k, v) ∷ []
insert k v ((j, w) ∷ m) =
    let later = (j, w) ∷ insert k v m in if text_eq j k then (k, v) ∷ m else later

pub record LookupParams : Type 0 where
  pub params : Dict

-- `LookupParams::get`.
unfoldable pub get_param : LookupParams → Text → Option Text
unfolding lookup
get_param p col = lookup col p.params

pub record ScanParams : Type 0 where
  pub projection : Option (List ℕ)
  pub limit : Option ℕ
  pub timeout_ms : Option ℕ

pub record WriteResult : Type 0 where
  pub row_count : ℕ

pub record ProduceRow : Type 0 where
  pub values : List Json
  pub change_type : Option Text

pub record ProduceRequest : Type 0 where
  pub format : Option Text
  pub rows : List ProduceRow

pub record CreateDatabaseRequest : Type 0 where
  pub database_name : Text
  pub comment : Option Text
  pub custom_properties : Dict
  pub ignore_if_exists : Bool

pub record DropDatabaseRequest : Type 0 where
  pub ignore_if_not_exists : Bool
  pub cascade : Bool

pub record ColumnSpec : Type 0 where
  pub name : Text
  pub data_type : Text
  pub comment : Option Text

pub record PrimaryKeySpec : Type 0 where
  pub constraint_name : Option Text
  pub column_names : List Text

pub record CreateTableRequest : Type 0 where
  pub table_name : Text
  pub schema : List ColumnSpec
  pub primary_key : Option PrimaryKeySpec
  pub partition_keys : Option (List Text)
  pub bucket_count : Option ℤ
  pub bucket_keys : Option (List Text)
  pub properties : Option Dict
  pub comment : Option Text
  pub ignore_if_exists : Bool

pub record DropTableRequest : Type 0 where
  pub ignore_if_not_exists : Bool

pub record BucketOffset : Type 0 where
  pub bucket_id : ℤ
  pub offset : ℤ

pub record ListOffsetsResponse : Type 0 where
  pub table_path : Text
  pub spec : Text
  pub offsets : List BucketOffset

pub record PartitionInfo : Type 0 where
  pub partition_id : ℤ
  pub partition_name : Text
  pub partition_spec : Dict

pub record ListPartitionsResponse : Type 0 where
  pub table_path : Text
  pub partitions : List PartitionInfo
