-- ===== src/Diff/Labels.antt =====
-- The labels and severities of src/compare/diff.c.
use schema_compare_c.Text.{Bytes, codes}
use schema_compare_c.Diff.{
  DiffType, table_added, table_removed, table_modified, column_added, column_removed,
  column_type_changed, column_nullable_changed, column_default_changed, column_collation_changed,
  column_storage_changed, column_compression_changed, constraint_added, constraint_removed,
  constraint_modified, table_type_changed, tablespace_changed, partition_changed, inherits_changed,
  storage_params_changed, DiffSeverity, info, warning, critical,
}

unfoldable pub diff_type_to_string : DiffType → Bytes
diff_type_to_string table_added = codes "Table Added"
diff_type_to_string table_removed = codes "Table Removed"
diff_type_to_string table_modified = codes "Table Modified"
diff_type_to_string column_added = codes "Column Added"
diff_type_to_string column_removed = codes "Column Removed"
diff_type_to_string column_type_changed = codes "Column Type Changed"
diff_type_to_string column_nullable_changed = codes "Column Nullable Changed"
diff_type_to_string column_default_changed = codes "Column Default Changed"
diff_type_to_string column_collation_changed = codes "Column Collation Changed"
diff_type_to_string column_storage_changed = codes "Column Storage Changed"
diff_type_to_string column_compression_changed = codes "Column Compression Changed"
diff_type_to_string constraint_added = codes "Constraint Added"
diff_type_to_string constraint_removed = codes "Constraint Removed"
diff_type_to_string constraint_modified = codes "Constraint Modified"
diff_type_to_string table_type_changed = codes "Table Type Changed"
diff_type_to_string tablespace_changed = codes "Tablespace Changed"
diff_type_to_string partition_changed = codes "Partition Changed"
diff_type_to_string inherits_changed = codes "Inherits Changed"
diff_type_to_string storage_params_changed = codes "Storage Parameters Changed"

unfoldable pub diff_severity_to_string : DiffSeverity → Bytes
diff_severity_to_string info = codes "INFO"
diff_severity_to_string warning = codes "WARNING"
diff_severity_to_string critical = codes "CRITICAL"

unfoldable pub diff_determine_severity : DiffType → DiffSeverity
diff_determine_severity table_removed = critical
diff_determine_severity column_removed = critical
diff_determine_severity column_type_changed = critical
diff_determine_severity table_type_changed = critical
diff_determine_severity table_added = warning
diff_determine_severity column_added = warning
diff_determine_severity column_nullable_changed = warning
diff_determine_severity constraint_removed = warning
diff_determine_severity column_default_changed = info
diff_determine_severity column_collation_changed = info
diff_determine_severity column_storage_changed = info
diff_determine_severity column_compression_changed = info
diff_determine_severity constraint_added = info
diff_determine_severity constraint_modified = info
diff_determine_severity tablespace_changed = info
diff_determine_severity partition_changed = info
diff_determine_severity inherits_changed = info
diff_determine_severity storage_params_changed = info
diff_determine_severity table_modified = info
