-- ===== src/Compare/Column.antt =====
-- `compare_column_details` of src/compare/compare_column.c and its helpers, for one column that both
-- tables have. Each comparison is a step on the `ColumnDiff` and the flag `has_changes`.
pub mod Exact
use schema_compare_c.Base.{
  ℕ, ◌≡◌, refl, Bool, true, false, not, ◌&&◌, ◌||◌, List, [], ◌∷◌, Option, none, some, iff, ◌==◌,
  is_some, if◌then◌else◌,
}
use schema_compare_c.Text.{Bytes, CString, codes}
use schema_compare_c.Text.Strings.{same}
use schema_compare_c.Ddl.Enums.{
  StorageType, plain, external, extended, main, default, storage_type_value,
}
use schema_compare_c.Ddl.Constraints.{Expression, ColumnConstraint, not_null, default_val}
use schema_compare_c.Ddl.Tables.{ColumnDef, TableElement, column}
use schema_compare_c.Diff.{ColumnDiff, column_diff_create}
use schema_compare_c.Compare.Options.{CompareOptions, names_equal}
use schema_compare_c.Compare.Types.{data_types_equal}
use schema_compare_c.Compare.Expressions.{expressions_equal}

unfoldable pub get_column_def : TableElement → Option ColumnDef
get_column_def (column col) = some col
get_column_def _ = none

unfoldable pub has_not_null : List ColumnConstraint → Bool
has_not_null [] = false
has_not_null (c ∷ next) = elim c.constraint [ not_null _ ↦ true | _ ↦ has_not_null next ]

unfoldable pub column_is_not_null : ColumnDef → Bool
unfolding has_not_null
column_is_not_null col = has_not_null col.constraints

-- The expression of the first DEFAULT that has one.
unfoldable pub first_default : List ColumnConstraint → CString
first_default [] = none
first_default (c ∷ next) = elim c.constraint [
  | default_val (some expr) ↦ expr.expression
  | _ ↦ first_default next
]

unfoldable pub get_column_default : ColumnDef → CString
unfolding first_default
get_column_default col = first_default col.constraints

-- NULL in place of the collation "default".
unfoldable pub explicit_collation : CString → CString
explicit_collation none = none
explicit_collation (some collation) =
    if same collation (codes "default") then none else some collation

unfoldable pub storage_name : StorageType → Bytes
storage_name plain = codes "PLAIN"
storage_name external = codes "EXTERNAL"
storage_name extended = codes "EXTENDED"
storage_name main = codes "MAIN"
storage_name default = codes "UNKNOWN"

-- The condition under which a storage difference is reported.
unfoldable pub storage_differs : ColumnDef → ColumnDef → Bool
storage_differs source target =
    source.has_storage
    && target.has_storage
    && not (storage_type_value source.storage_type == storage_type_value target.storage_type)
    && not (storage_type_value source.storage_type == storage_type_value default)
    && not (storage_type_value target.storage_type == storage_type_value default)

-- The condition under which a collation difference is reported.
unfoldable pub collation_differs : ColumnDef → ColumnDef → Option CompareOptions → Bool
unfolding explicit_collation
collation_differs source target opts =
    not
      (names_equal (explicit_collation source.collation) (explicit_collation target.collation) opts)
    && is_some (explicit_collation source.collation)
    && is_some (explicit_collation target.collation)

-- The `ColumnDiff` under construction, and `has_changes`.
pub record Details : Type 0 where
  pub cd : ColumnDiff
  pub has_changes : Bool

abbrev pub changed : ColumnDiff → Details
changed cd = record { cd = cd; has_changes = true }

unfoldable pub compare_type : ColumnDef → ColumnDef → Option CompareOptions → Details → Details
compare_type source target opts d =
    if data_types_equal source.data_type target.data_type opts
    then d
    else changed (record (d.cd) {
      type_changed = true;
      old_type = source.data_type;
      new_type = target.data_type;
    })

unfoldable pub compare_nullable : ColumnDef → ColumnDef → Details → Details
compare_nullable source target d =
    if iff (column_is_not_null source) (column_is_not_null target)
    then d
    else changed (record (d.cd) {
      nullable_changed = true;
      old_nullable = not (column_is_not_null source);
      new_nullable = not (column_is_not_null target);
    })

unfoldable pub compare_default : ColumnDef → ColumnDef → Option CompareOptions → Details → Details
compare_default source target opts d =
    if expressions_equal (get_column_default source) (get_column_default target) opts
    then d
    else changed (record (d.cd) {
      default_changed = true;
      old_default = get_column_default source;
      new_default = get_column_default target;
    })

unfoldable pub compare_collation : ColumnDef → ColumnDef → Option CompareOptions → Details → Details
compare_collation source target opts d =
    if collation_differs source target opts
    then changed (record (d.cd) {
      collation_changed = true;
      old_collation = source.collation;
      new_collation = target.collation;
    })
    else d

unfoldable pub compare_storage : ColumnDef → ColumnDef → Details → Details
compare_storage source target d =
    if storage_differs source target
    then changed (record (d.cd) {
      storage_changed = true;
      old_storage = some (storage_name source.storage_type);
      new_storage = some (storage_name target.storage_type);
    })
    else d

unfoldable pub compare_compression :
    ColumnDef → ColumnDef → Option CompareOptions → Details → Details
compare_compression source target opts d =
    if names_equal source.compression_method target.compression_method opts
    then d
    else changed (record (d.cd) {
      compression_changed = true;
      old_compression = source.compression_method;
      new_compression = target.compression_method;
    })

-- The six comparisons in their order, from a fresh `ColumnDiff`.
unfoldable pub column_details : ColumnDef → ColumnDef → Option CompareOptions → Details
unfolding compare_type compare_nullable compare_default compare_collation compare_storage
    compare_compression column_diff_create
column_details source target opts = compare_compression source target opts (
    compare_storage source target (
      compare_collation source target opts (
        compare_default source target opts (
          compare_nullable source target (
            compare_type source target opts
              (record { cd = column_diff_create target.column_name; has_changes = false }))))))

-- NULL, `none`, if nothing differs.
unfoldable pub compare_column_details :
    ColumnDef → ColumnDef → Option CompareOptions → Option ColumnDiff
unfolding column_details
compare_column_details source target opts =
    let d = column_details source target opts in if d.has_changes then some d.cd else none
