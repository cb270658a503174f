-- ===== src/Compare/Equality.antt =====
-- The comparisons of names, types and expressions of src/compare/compare.c, and the normal forms that
-- the options choose for them.
use schema_compare_c.Base.{
  ◌≡◌, refl, sym, ◌∙◌, ◌↔◌, ◌||◌, ◌&&◌, ◌==◌, ltb, [], ◌∷◌, arith, Bool, true, false, inl, inr,
  Bool-cases, Option, none, some, map, if◌then◌else◌,
}
use schema_compare_c.Text.{Bytes, CString, codes}
use schema_compare_c.Text.Ctype.{is_space, to_lower}
use schema_compare_c.Text.Strings.{same_iff, same_ignore_case, before}
use schema_compare_c.StringUtils.{remove_whitespace}
use schema_compare_c.Compare.Options.{CompareOptions, names_equal}
use schema_compare_c.Compare.Types.{same_names, normalize_type_name, data_types_equal}
use schema_compare_c.Text.Search.{value_or, up_to, before_or_all}
use schema_compare_c.Compare.Types.Normal.{canonical_type, canonical_type_lem}
use schema_compare_c.Compare.Expressions.{
  normalize_expression, ignores_whitespace, expressions_equal,
}

-- `R` is the equality of the normal form `key`, with NULL equal to itself only.
pub record ComparesBy (key : Bytes → Bytes) (R : CString → CString → Bool) : Type 0 where
  pub nulls : R none none ≡ true
  pub left : (s : Bytes) → R (some s) none ≡ false
  pub right : (s : Bytes) → R none (some s) ≡ false
  pub both : (s t : Bytes) → (R (some s) (some t) ≡ true) ↔ (key s ≡ key t)

pub record IsEquivalence (R : CString → CString → Bool) : Type 0 where
  pub reflexive : (a : CString) → R a a ≡ true
  pub symmetric : (a b : CString) → R a b ≡ true → R b a ≡ true
  pub transitive : (a b c : CString) → R a b ≡ true → R b c ≡ true → R a c ≡ true

module _ {key : Bytes → Bytes} {R : CString → CString → Bool} (by : ComparesBy key R) where
  reflexive_of : (a : CString) → R a a ≡ true
  reflexive_of none = by.nulls
  reflexive_of (some s) = (by.both s s).1 refl

  symmetric_of : (a b : CString) → R a b ≡ true → R b a ≡ true
  symmetric_of none none h = h
  symmetric_of none (some t) h = cc (by.right t)
  symmetric_of (some s) none h = cc (by.left s)
  symmetric_of (some s) (some t) h = (by.both t s).1 (sym ((by.both s t).0 h))

  transitive_of : (a b c : CString) → R a b ≡ true → R b c ≡ true → R a c ≡ true
  transitive_of none none c h k = k
  transitive_of none (some t) c h k = cc (by.right t)
  transitive_of (some s) none c h k = cc (by.left s)
  transitive_of (some s) (some t) none h k = cc (by.left t)
  transitive_of (some s) (some t) (some u) h k =
      (by.both s u).1 ((by.both s t).0 h ∙ (by.both t u).0 k)

  pub ComparesBy-IsEquivalence : IsEquivalence R
  ComparesBy-IsEquivalence = record {
    reflexive = reflexive_of;
    symmetric = symmetric_of;
    transitive = transitive_of;
  }

-- The normal form of a name.
unfoldable pub name_key : Option CompareOptions → Bytes → Bytes
name_key none name = name
name_key (some opts) name = if opts.case_sensitive then name else map to_lower name

-- Names are compared as written, or without case if the options are there and do not ask for case.
pub names_equal-ComparesBy :
    (opts : Option CompareOptions) → ComparesBy (name_key opts) (λ a b. names_equal a b opts)
unfolding names_equal name_key
names_equal-ComparesBy none = record {
  nulls = refl;
  left = λ s. refl;
  right = λ s. refl;
  both = λ s t. same_iff s t;
}
names_equal-ComparesBy (some opts) = record {
  nulls = refl;
  left = λ s. refl;
  right = λ s. refl;
  both = λ s t. elim (Bool-cases opts.case_sensitive) [
    | inl e ↦ rw e (same_iff s t)
    | inr e ↦ rw e (unfold same_ignore_case in same_iff (map to_lower s) (map to_lower t))
  ];
}

-- The normal form of a type name.
unfoldable pub type_key : Option CompareOptions → Bytes → Bytes
type_key none name = name
type_key (some opts) name = if opts.normalize_types then canonical_type name else name

-- If the options are there and ask for it, types are equal if they have the same name in small
-- letters, behind the dot of a schema of letters and underscores, before " without time zone", with
-- timestamptz and its precision of at most 29 characters in the place of a name with " with time
-- zone", and with the longer of two names for a type; else if their names are the same as written.
-- NULL equals NULL only.
pub data_types_equal-ComparesBy :
    (opts : Option CompareOptions) → ComparesBy (type_key opts) (λ a b. data_types_equal a b opts)
unfolding data_types_equal type_key same_names normalize_type_name
data_types_equal-ComparesBy none = record {
  nulls = refl;
  left = λ s. refl;
  right = λ s. refl;
  both = λ s t. same_iff s t;
}
data_types_equal-ComparesBy (some opts) = record {
  nulls = refl;
  left = λ s. refl;
  right = λ s. refl;
  both = λ s t. elim (Bool-cases opts.normalize_types) [
    | inl e ↦ rw (e, canonical_type_lem s, canonical_type_lem t) (same_iff _ _)
    | inr e ↦ rw e (same_iff s t)
  ];
}

-- The text without the white space of C: the space and the codes from 9 to 13.
unfoldable without_blanks : Bytes → Bytes
without_blanks [] = []
without_blanks (c ∷ s) =
    let rest = without_blanks s in if c == 32 || (ltb 8 c && ltb c 14) then rest else c ∷ rest

without_blanks_lem : (s : Bytes) → remove_whitespace s ≡ without_blanks s
unfolding remove_whitespace without_blanks is_space
without_blanks_lem [] = refl
without_blanks_lem (c ∷ s) = ground (arith, without_blanks_lem s)

-- The normal form of an expression, read off its text.
unfoldable pub expression_key : Option CompareOptions → Bytes → Bytes
unfolding up_to without_blanks
expression_key none expr = up_to (codes "::") expr
expression_key (some opts) expr =
    if opts.ignore_whitespace
    then without_blanks (up_to (codes "::") expr)
    else up_to (codes "::") expr

normalize_expression_lem : (expr : Bytes) → normalize_expression expr ≡ up_to (codes "::") expr
unfolding normalize_expression value_or
normalize_expression_lem expr =
    default (before (codes "::") expr) ∙ before_or_all b':' (b':' ∷ []) expr
  where
    default : (o : Option Bytes) → (elim o [ none ↦ expr | some value ↦ value ]) ≡ value_or expr o
    default none = refl
    default (some value) = refl

-- Expressions are equal if what precedes the first :: of each is the same text, after the removal of
-- white space if the options are there and ask for it. NULL equals NULL only.
pub expressions_equal-ComparesBy :
    (opts : Option CompareOptions)
    → ComparesBy (expression_key opts) (λ a b. expressions_equal a b opts)
unfolding expressions_equal expression_key ignores_whitespace
expressions_equal-ComparesBy none = record {
  nulls = refl;
  left = λ s. refl;
  right = λ s. refl;
  both = λ s t. rw (normalize_expression_lem s, normalize_expression_lem t) (same_iff _ _);
}
expressions_equal-ComparesBy (some opts) = record {
  nulls = refl;
  left = λ s. refl;
  right = λ s. refl;
  both = λ s t.
      rw
        (
          normalize_expression_lem s,
          normalize_expression_lem t,
          without_blanks_lem (up_to (codes "::") s),
          without_blanks_lem (up_to (codes "::") t),
        )
        (elim (Bool-cases opts.ignore_whitespace) [
          | inl e ↦ rw e (same_iff _ _)
          | inr e ↦ rw e (same_iff _ _)
        ]);
}

pub names_relation : (opts : Option CompareOptions) → IsEquivalence (λ a b. names_equal a b opts)
names_relation opts = ComparesBy-IsEquivalence (names_equal-ComparesBy opts)

pub types_relation :
    (opts : Option CompareOptions) → IsEquivalence (λ a b. data_types_equal a b opts)
types_relation opts = ComparesBy-IsEquivalence (data_types_equal-ComparesBy opts)

pub expressions_relation :
    (opts : Option CompareOptions) → IsEquivalence (λ a b. expressions_equal a b opts)
expressions_relation opts = ComparesBy-IsEquivalence (expressions_equal-ComparesBy opts)
