-- ===== src/Compare/Column/Exact.antt =====
-- What a `ColumnDiff` says about the two columns.
use schema_compare_c.Base.{
  ◌≡◌, refl, sym, ap, subst, ◌∙◌, ◌↔◌, Bool, true, false, not, ◌||◌, Option, none, some, iff, arith,
  if◌then◌else◌,
}
use schema_compare_c.Ddl.Tables.{ColumnDef}
use schema_compare_c.Diff.{ColumnDiff}
use schema_compare_c.Compare.Options.{CompareOptions, names_equal}
use schema_compare_c.Compare.Types.{data_types_equal}
use schema_compare_c.Compare.Expressions.{expressions_equal}
use schema_compare_c.Compare.Equality.{names_relation, types_relation, expressions_relation}
use schema_compare_c.Compare.Column.{
  explicit_collation, Details, column_is_not_null, get_column_default, collation_differs,
  storage_differs, column_details, compare_column_details,
}

-- The six flags say what differs, each by its own test.
pub record Reports (source target : ColumnDef) (opts : Option CompareOptions) (cd : ColumnDiff)
    : Type 0 where
  pub names : cd.column_name ≡ target.column_name
  pub types : cd.type_changed ≡ not (data_types_equal source.data_type target.data_type opts)
  pub nullable :
      cd.nullable_changed ≡ not (iff (column_is_not_null source) (column_is_not_null target))
  pub defaults :
      cd.default_changed
      ≡ not (expressions_equal (get_column_default source) (get_column_default target) opts)
  pub collations : cd.collation_changed ≡ collation_differs source target opts
  pub storages : cd.storage_changed ≡ storage_differs source target
  pub compressions :
      cd.compression_changed
      ≡ not (names_equal source.compression_method target.compression_method opts)

-- Some flag is set.
unfoldable pub any_change : ColumnDiff → Bool
any_change cd =
    cd.type_changed || cd.nullable_changed || cd.default_changed || cd.collation_changed
    || cd.storage_changed || cd.compression_changed

-- What `compare_column_details` returns of the details.
returned :
    (d : Details) (cd : ColumnDiff)
    → (if d.has_changes then some d.cd else none) ≡ some cd
    → (d.has_changes ≡ true) × (d.cd ≡ cd)
returned d cd h = ground arith

module _ (source target : ColumnDef) (opts : Option CompareOptions) where
  column_details-Reports : Reports source target opts (column_details source target opts).cd
  unfolding column_details
  column_details-Reports = record {
    names = ground arith;
    types = ground arith;
    nullable = ground arith;
    defaults = ground arith;
    collations = ground arith;
    storages = ground arith;
    compressions = ground arith;
  }

  has_changes-any_change :
      (column_details source target opts).has_changes
      ≡ any_change (column_details source target opts).cd
  unfolding column_details any_change
  has_changes-any_change = ground arith

  -- The pair has the same type, nullability, default and compression, and no reported difference of
  -- collation or storage.
  pub record Agree : Type 0 where
    pub types : data_types_equal source.data_type target.data_type opts ≡ true
    pub nullable : iff (column_is_not_null source) (column_is_not_null target) ≡ true
    pub defaults :
        expressions_equal (get_column_default source) (get_column_default target) opts ≡ true
    pub collations : collation_differs source target opts ≡ false
    pub storages : storage_differs source target ≡ false
    pub compressions : names_equal source.compression_method target.compression_method opts ≡ true

  -- A column difference that is returned sets exactly the flags of the tests that differ, and at
  -- least one of them.
  pub details-some :
      (cd : ColumnDiff)
      → compare_column_details source target opts ≡ some cd
      → Reports source target opts cd × (any_change cd ≡ true)
  unfolding compare_column_details
  details-some cd h =
      let (e, p) = returned (column_details source target opts) cd h in
      (
        subst (Reports source target opts) p column_details-Reports,
        ap any_change (sym p) ∙ sym has_changes-any_change ∙ e,
      )

  -- No difference is returned exactly if all six tests agree.
  pub details-none : (compare_column_details source target opts ≡ none) ↔ Agree
  unfolding compare_column_details column_details
  details-none = (λ h. ground arith, λ h. ground arith)

-- A column never differs from itself.
pub details_self :
    (col : ColumnDef) (opts : Option CompareOptions) → compare_column_details col col opts ≡ none
unfolding collation_differs storage_differs
details_self col opts = (details-none col col opts).1 (record {
  types = (types_relation opts).reflexive col.data_type;
  nullable = iff_self (column_is_not_null col);
  defaults = (expressions_relation opts).reflexive (get_column_default col);
  collations = rw ((names_relation opts).reflexive (explicit_collation col.collation));
  storages = ground arith;
  compressions = (names_relation opts).reflexive col.compression_method;
})
  where
    iff_self : (b : Bool) → iff b b ≡ true
    iff_self true = refl
    iff_self false = refl
