-- ===== src/Ddl/Enums.antt =====
-- The enumerations of include/pg_create_table.h that the comparison looks at, with the values that
-- C gives to their members.
use schema_compare_c.Base.{ℕ}

pub data TableType : Type 0 where
  normal temporary temp unlogged : TableType

abbrev pub table_type_value : TableType → ℕ
table_type_value normal = 0
table_type_value temporary = 1
table_type_value temp = 2
table_type_value unlogged = 3

pub data TempScope : Type 0 where
  none_scope global local : TempScope

pub data StorageType : Type 0 where
  plain external extended main default : StorageType

abbrev pub storage_type_value : StorageType → ℕ
storage_type_value plain = 0
storage_type_value external = 1
storage_type_value extended = 2
storage_type_value main = 3
storage_type_value default = 4

pub data PartitionType : Type 0 where
  no_partition range list hash : PartitionType

pub data OnCommitAction : Type 0 where
  preserve_rows delete_rows drop : OnCommitAction

pub data GeneratedStorage : Type 0 where
  stored virtual : GeneratedStorage

pub data IdentityType : Type 0 where
  always by_default : IdentityType

abbrev pub identity_type_value : IdentityType → ℕ
identity_type_value always = 0
identity_type_value by_default = 1

pub data MatchType : Type 0 where
  full partial simple : MatchType

abbrev pub match_type_value : MatchType → ℕ
match_type_value full = 0
match_type_value partial = 1
match_type_value simple = 2

pub data ReferentialAction : Type 0 where
  no_action restrict cascade set_null set_default : ReferentialAction

abbrev pub referential_action_value : ReferentialAction → ℕ
referential_action_value no_action = 0
referential_action_value restrict = 1
referential_action_value cascade = 2
referential_action_value set_null = 3
referential_action_value set_default = 4

pub data LikeOptionType : Type 0 where
  comments compression constraints defaults generated : LikeOptionType
  identity indexes statistics storage all : LikeOptionType

pub data NullsDistinct : Type 0 where
  distinct not_distinct : NullsDistinct

abbrev pub nulls_distinct_value : NullsDistinct → ℕ
nulls_distinct_value distinct = 0
nulls_distinct_value not_distinct = 1

pub data SortOrder : Type 0 where
  asc desc : SortOrder

abbrev pub sort_order_value : SortOrder → ℕ
sort_order_value asc = 0
sort_order_value desc = 1

pub data NullsOrder : Type 0 where
  nulls_first nulls_last : NullsOrder

abbrev pub nulls_order_value : NullsOrder → ℕ
nulls_order_value nulls_first = 0
nulls_order_value nulls_last = 1
