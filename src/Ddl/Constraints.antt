-- ===== src/Ddl/Constraints.antt =====
-- The constraint structures of include/pg_create_table.h.
use schema_compare_c.Base.{Bool, List, Option}
use schema_compare_c.Base.Int.{ℤ}
use schema_compare_c.Text.{CString}
use schema_compare_c.Ddl.Enums.{
  GeneratedStorage, IdentityType, MatchType, ReferentialAction, NullsDistinct, SortOrder,
  NullsOrder,
}

pub record StorageParameter : Type 0 where
  pub name : CString
  pub value : CString

pub record Expression : Type 0 where
  pub expression : CString

-- `include` is the column list of an INCLUDE clause.
pub record IndexParameters : Type 0 where
  pub include : Option (List CString)
  pub with_options : Option (List StorageParameter)
  pub tablespace_name : CString

pub record OpclassSpec : Type 0 where
  pub opclass : CString
  pub parameters : List StorageParameter

pub record ExcludeElement : Type 0 where
  pub column_name : CString
  pub expression : Option Expression
  pub collation : CString
  pub opclass : Option OpclassSpec
  pub sort_order : SortOrder
  pub nulls_order : NullsOrder
  pub has_sort_order : Bool
  pub has_nulls_order : Bool

pub record SequenceOptions : Type 0 where
  pub has_increment : Bool
  pub increment_by : ℤ
  pub has_start : Bool
  pub start_with : ℤ
  pub has_minvalue : Bool
  pub is_no_minvalue : Bool
  pub minvalue : ℤ
  pub has_maxvalue : Bool
  pub is_no_maxvalue : Bool
  pub maxvalue : ℤ
  pub has_cache : Bool
  pub cache : ℤ
  pub has_cycle : Bool
  pub cycle : Bool

pub record ReferencesConstraint : Type 0 where
  pub reftable : CString
  pub refcolumn : CString
  pub match_type : MatchType
  pub has_match_type : Bool
  pub on_delete : ReferentialAction
  pub has_on_delete : Bool
  pub on_update : ReferentialAction
  pub has_on_update : Bool

-- The tag and the union of a `ColumnConstraint`.
pub data ColumnConstraintBody : Type 0 where
  not_null : (no_inherit : Bool) → ColumnConstraintBody
  null : ColumnConstraintBody
  check : (expr : Option Expression) (no_inherit : Bool) → ColumnConstraintBody
  default_val : (expr : Option Expression) → ColumnConstraintBody
  generated_always :
      (expr : Option Expression) (stored : GeneratedStorage) (has_storage : Bool)
      → ColumnConstraintBody
  generated_identity : IdentityType → Option SequenceOptions → ColumnConstraintBody
  unique :
      NullsDistinct → (has_nulls_distinct : Bool) → Option IndexParameters → ColumnConstraintBody
  primary_key : Option IndexParameters → ColumnConstraintBody
  references : ReferencesConstraint → ColumnConstraintBody

-- The flags that follow either kind of constraint.
pub record ConstraintFlags : Type 0 where
  pub deferrable : Bool
  pub not_deferrable : Bool
  pub initially_deferred : Bool
  pub initially_immediate : Bool
  pub enforced : Bool
  pub not_enforced : Bool
  pub has_deferrable : Bool
  pub has_initially : Bool
  pub has_enforced : Bool

pub record ColumnConstraint : Type 0 where
  pub constraint_name : CString
  pub constraint : ColumnConstraintBody
  pub flags : ConstraintFlags

pub record TableUniqueConstraint : Type 0 where
  pub columns : List CString
  pub without_overlaps_column : CString
  pub nulls_distinct : NullsDistinct
  pub has_nulls_distinct : Bool
  pub index_params : Option IndexParameters

pub record TablePrimaryKeyConstraint : Type 0 where
  pub columns : List CString
  pub without_overlaps_column : CString
  pub index_params : Option IndexParameters

pub record ExcludeConstraint : Type 0 where
  pub index_method : CString
  pub elements : List ExcludeElement
  pub operators : Option (List CString)
  pub index_params : Option IndexParameters
  pub where_predicate : Option Expression

pub record ForeignKeyConstraint : Type 0 where
  pub columns : List CString
  pub period_column : CString
  pub reftable : CString
  pub refcolumns : List CString
  pub ref_period_column : CString
  pub match_type : MatchType
  pub has_match_type : Bool
  pub on_delete : ReferentialAction
  pub has_on_delete : Bool
  pub on_update : ReferentialAction
  pub has_on_update : Bool
  pub on_delete_columns : List CString
  pub on_update_columns : List CString

-- The tag and the union of a `TableConstraint`.
pub data TableConstraintBody : Type 0 where
  check : (expr : Option Expression) (no_inherit : Bool) → TableConstraintBody
  not_null : (column_name : CString) (no_inherit : Bool) → TableConstraintBody
  unique : TableUniqueConstraint → TableConstraintBody
  primary_key : TablePrimaryKeyConstraint → TableConstraintBody
  exclude : ExcludeConstraint → TableConstraintBody
  foreign_key : ForeignKeyConstraint → TableConstraintBody

pub record TableConstraint : Type 0 where
  pub constraint_name : CString
  pub constraint : TableConstraintBody
  pub flags : ConstraintFlags
