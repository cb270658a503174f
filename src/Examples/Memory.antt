-- ===== src/Examples/Memory.antt =====
-- Memory contexts and copies at concrete inputs.
use schema_compare_c.Base.{◌≡◌, refl, true, false, [], ◌∷◌, none, some}
use schema_compare_c.Text.{codes}
use schema_compare_c.Ddl.Enums.{normal, none_scope, preserve_rows, asc, nulls_last}
use schema_compare_c.Ddl.Constraints.{TableConstraint, TableConstraintBody}
use schema_compare_c.Ddl.Tables.{table_constraint, regular, CreateTableStmt}
use schema_compare_c.Memory.{MemoryContext, memory_context_create, mem_alloc, mem_realloc}
use schema_compare_c.Memory.Account.{
  IsBalanced, Reached, created, stepped, alloc, realloc, reached-IsBalanced,
}
use schema_compare_c.Memory.Clone.{clone_create_table_stmt}
use schema_compare_c.Memory.Statements.{clone_create_table_stmt_lem}

-- An allocation, and a `realloc` that fails.
abbrev fresh : MemoryContext
fresh = memory_context_create none

abbrev one_block : MemoryContext
one_block = (mem_alloc fresh 100 (some 4096) true).1

abbrev lost_block : MemoryContext
lost_block = (mem_realloc one_block (some 4096) 200 none true).1

abbrev lost_block-Reached : Reached lost_block
lost_block-Reached =
    stepped one_block lost_block
      (stepped fresh one_block (created none) (alloc fresh 100 (some 4096) true))
      (realloc one_block (some 4096) 200 none true)

reached-IsBalanced_example : IsBalanced lost_block
reached-IsBalanced_example = reached-IsBalanced lost_block lost_block-Reached

-- EXCLUDE USING gist (room WITH =)
abbrev exclude_room : TableConstraint
exclude_room = record {
  constraint_name = some (codes "no_overlap");
  constraint = TableConstraintBody.exclude (record {
    index_method = some (codes "gist");
    elements =
        record {
          column_name = some (codes "room");
          expression = none;
          collation = none;
          opclass = none;
          sort_order = asc;
          nulls_order = nulls_last;
          has_sort_order = false;
          has_nulls_order = false;
        }
        ∷ [];
    operators = some (some (codes "=") ∷ []);
    index_params = none;
    where_predicate = some (record { expression = some (codes "room > 0") });
  });
  flags = record {
    deferrable = false;
    not_deferrable = false;
    initially_deferred = false;
    initially_immediate = false;
    enforced = false;
    not_enforced = false;
    has_deferrable = false;
    has_initially = false;
    has_enforced = false;
  };
}

abbrev bookings : CreateTableStmt
bookings = record {
  temp_scope = none_scope;
  table_type = normal;
  if_not_exists = true;
  table_name = some (codes "bookings");
  table_def = regular (table_constraint (some exclude_room) ∷ []) (some (codes "base") ∷ []);
  partition_by = none;
  using_method = none;
  with_options = some (record { name = some (codes "fillfactor"); value = some (codes "70") } ∷ []);
  without_oids = false;
  on_commit = preserve_rows;
  has_on_commit = false;
  tablespace_name = none;
}

clone_create_table_stmt_lem_example : clone_create_table_stmt bookings ≡ some bookings
clone_create_table_stmt_lem_example =
    clone_create_table_stmt_lem bookings ((some (codes "=") ∷ [], refl, refl), tt)
