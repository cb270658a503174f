-- ===== src/Compare/Expressions.antt =====
-- `normalize_expression` and `expressions_equal` of src/compare/compare.c.
use schema_compare_c.Base.{Bool, true, false, Option, none, some, if◌then◌else◌}
use schema_compare_c.Text.{Bytes, CString, codes}
use schema_compare_c.Text.Strings.{same, before}
use schema_compare_c.StringUtils.{remove_whitespace}
use schema_compare_c.Compare.Options.{CompareOptions}

-- The text before the first type cast.
unfoldable pub normalize_expression : Bytes → Bytes
normalize_expression expr = elim (before (codes "::") expr) [ none ↦ expr | some value ↦ value ]

unfoldable pub ignores_whitespace : Option CompareOptions → Bool
ignores_whitespace none = false
ignores_whitespace (some opts) = opts.ignore_whitespace

unfoldable pub expressions_equal : CString → CString → Option CompareOptions → Bool
unfolding normalize_expression ignores_whitespace
expressions_equal none none opts = true
expressions_equal none (some _) opts = false
expressions_equal (some _) none opts = false
expressions_equal (some expr1) (some expr2) opts =
    let norm1 = normalize_expression expr1 in
    let norm2 = normalize_expression expr2 in
    if ignores_whitespace opts
    then same (remove_whitespace norm1) (remove_whitespace norm2)
    else same norm1 norm2
