-- ===== src/Ddl/Types.antt =====
-- include/pg_create_type.h and include/pg_schema.h: the tree of CREATE TYPE, and a schema.
use schema_compare_c.Base.{ℕ, Bool, List}
use schema_compare_c.Base.Int.{ℤ}
use schema_compare_c.Text.{CString}
use schema_compare_c.Ddl.Tables.{CreateTableStmt}

pub record CompositeAttribute : Type 0 where
  pub attr_name : CString
  pub data_type : CString
  pub collation : CString

pub record RangeTypeDef : Type 0 where
  pub subtype : CString
  pub subtype_opclass : CString
  pub collation : CString
  pub canonical_function : CString
  pub subtype_diff_function : CString
  pub multirange_type_name : CString

-- A `char` is the number of its code.
pub record BaseTypeDef : Type 0 where
  pub input_function : CString
  pub output_function : CString
  pub receive_function : CString
  pub send_function : CString
  pub typmod_in_function : CString
  pub typmod_out_function : CString
  pub analyze_function : CString
  pub internallength : ℤ
  pub is_variable_length : Bool
  pub has_internallength : Bool
  pub passedbyvalue : Bool
  pub has_passedbyvalue : Bool
  pub alignment : ℕ
  pub has_alignment : Bool
  pub storage : ℕ
  pub has_storage : Bool
  pub like_type : CString
  pub category : ℕ
  pub has_category : Bool
  pub preferred : Bool
  pub has_preferred : Bool
  pub default_value : CString
  pub element_type : CString
  pub delimiter : ℕ
  pub has_delimiter : Bool
  pub collatable : CString

-- The variant and the union of a `CreateTypeStmt`.
pub data TypeDef : Type 0 where
  enum_def : (labels : List CString) → TypeDef
  composite_def : (attributes : List CompositeAttribute) → TypeDef
  range_def : RangeTypeDef → TypeDef
  base_def : BaseTypeDef → TypeDef

pub record CreateTypeStmt : Type 0 where
  pub type_name : CString
  pub if_not_exists : Bool
  pub type_def : TypeDef

-- Functions and procedures are never stored.
pub record Schema : Type 0 where
  pub types : List CreateTypeStmt
  pub tables : List CreateTableStmt
