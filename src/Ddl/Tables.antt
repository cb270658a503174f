-- ===== src/Ddl/Tables.antt =====
-- Columns, table elements and the CREATE TABLE statement of include/pg_create_table.h.
use schema_compare_c.Base.{Bool, List, Option}
use schema_compare_c.Base.Int.{ℤ}
use schema_compare_c.Text.{CString}
use schema_compare_c.Ddl.Enums.{
  TableType, TempScope, StorageType, PartitionType, OnCommitAction, LikeOptionType,
}
use schema_compare_c.Ddl.Constraints.{
  StorageParameter, Expression, ColumnConstraint, TableConstraint,
}

pub record PartitionElement : Type 0 where
  pub column_name : CString
  pub expression : Option Expression
  pub collation : CString
  pub opclass : CString

pub record PartitionByClause : Type 0 where
  pub partition_type : PartitionType
  pub elements : List PartitionElement

pub record BoundValue : Type 0 where
  pub is_minvalue : Bool
  pub is_maxvalue : Bool
  pub expr : Option Expression

pub data PartitionBoundSpec : Type 0 where
  in_bound : List (Option Expression) → PartitionBoundSpec
  range_bound : (from_values to_values : List BoundValue) → PartitionBoundSpec
  hash_bound : (modulus remainder : ℤ) → PartitionBoundSpec
  default_bound : PartitionBoundSpec

pub record LikeOption : Type 0 where
  pub option : LikeOptionType
  pub including : Bool

pub record LikeClause : Type 0 where
  pub source_table : CString
  pub options : List LikeOption

pub record ColumnDef : Type 0 where
  pub column_name : CString
  pub data_type : CString
  pub storage_type : StorageType
  pub has_storage : Bool
  pub compression_method : CString
  pub collation : CString
  pub constraints : List ColumnConstraint

pub data TableElement : Type 0 where
  column : ColumnDef → TableElement
  table_constraint : Option TableConstraint → TableElement
  like : LikeClause → TableElement

pub record TypedColumnDef : Type 0 where
  pub column_name : CString
  pub with_options : Bool
  pub constraints : List ColumnConstraint

pub data TypedTableElement : Type 0 where
  typed_column : TypedColumnDef → TypedTableElement
  typed_table_constraint : Option TableConstraint → TypedTableElement

-- The variant and the union of a `CreateTableStmt`.
pub data TableDef : Type 0 where
  regular : (elements : List TableElement) (inherits : List CString) → TableDef
  of_type : (type_name : CString) (elements : List TypedTableElement) → TableDef
  partition :
      (parent_table : CString) (elements : List TypedTableElement)
      (bound_spec : Option PartitionBoundSpec) (is_default : Bool)
      → TableDef

pub record CreateTableStmt : Type 0 where
  pub temp_scope : TempScope
  pub table_type : TableType
  pub if_not_exists : Bool
  pub table_name : CString
  pub table_def : TableDef
  pub partition_by : Option PartitionByClause
  pub using_method : CString
  pub with_options : Option (List StorageParameter)
  pub without_oids : Bool
  pub on_commit : OnCommitAction
  pub has_on_commit : Bool
  pub tablespace_name : CString
