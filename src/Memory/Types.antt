-- ===== src/Memory/Types.antt =====
-- clone_create_type_stmt of src/memory/memory.c, by what the copy holds. The statement is not NULL.
use schema_compare_c.Base.{◌≡◌, refl, ap, map}
use schema_compare_c.Ddl.Types.{
  CompositeAttribute, RangeTypeDef, BaseTypeDef, TypeDef, enum_def, composite_def, range_def,
  base_def, CreateTypeStmt,
}
use schema_compare_c.Memory.Copies.{map_same, strings_same}

unfoldable pub clone_attribute : CompositeAttribute → CompositeAttribute
clone_attribute src = record {
  attr_name = src.attr_name;
  data_type = src.data_type;
  collation = src.collation;
}

unfoldable pub clone_range_def : RangeTypeDef → RangeTypeDef
clone_range_def src = record {
  subtype = src.subtype;
  subtype_opclass = src.subtype_opclass;
  collation = src.collation;
  canonical_function = src.canonical_function;
  subtype_diff_function = src.subtype_diff_function;
  multirange_type_name = src.multirange_type_name;
}

unfoldable pub clone_base_def : BaseTypeDef → BaseTypeDef
clone_base_def src = record {
  input_function = src.input_function;
  output_function = src.output_function;
  receive_function = src.receive_function;
  send_function = src.send_function;
  typmod_in_function = src.typmod_in_function;
  typmod_out_function = src.typmod_out_function;
  analyze_function = src.analyze_function;
  internallength = src.internallength;
  is_variable_length = src.is_variable_length;
  has_internallength = src.has_internallength;
  passedbyvalue = src.passedbyvalue;
  has_passedbyvalue = src.has_passedbyvalue;
  alignment = src.alignment;
  has_alignment = src.has_alignment;
  storage = src.storage;
  has_storage = src.has_storage;
  like_type = src.like_type;
  category = src.category;
  has_category = src.has_category;
  preferred = src.preferred;
  has_preferred = src.has_preferred;
  default_value = src.default_value;
  element_type = src.element_type;
  delimiter = src.delimiter;
  has_delimiter = src.has_delimiter;
  collatable = src.collatable;
}

unfoldable pub clone_type_def : TypeDef → TypeDef
clone_type_def (enum_def labels) = enum_def (map (λ l. l) labels)
clone_type_def (composite_def attributes) = composite_def (map clone_attribute attributes)
clone_type_def (range_def src) = range_def (clone_range_def src)
clone_type_def (base_def src) = base_def (clone_base_def src)

unfoldable pub clone_create_type_stmt : CreateTypeStmt → CreateTypeStmt
clone_create_type_stmt src = record {
  type_name = src.type_name;
  if_not_exists = src.if_not_exists;
  type_def = clone_type_def src.type_def;
}

type_def_same : (d : TypeDef) → clone_type_def d ≡ d
unfolding clone_type_def clone_attribute clone_range_def clone_base_def
type_def_same (enum_def labels) = ap (λ s. enum_def s) (strings_same labels)
type_def_same (composite_def attributes) =
    ap (λ s. composite_def s) (map_same clone_attribute (λ a. refl) attributes)
type_def_same (range_def src) = refl
type_def_same (base_def src) = refl

-- The copy of a CREATE TYPE statement holds what the statement holds.
pub clone_create_type_stmt_lem : (src : CreateTypeStmt) → clone_create_type_stmt src ≡ src
unfolding clone_create_type_stmt
clone_create_type_stmt_lem src = λ i. record src { type_def = type_def_same src.type_def i }
