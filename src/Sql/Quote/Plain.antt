-- ===== src/Sql/Quote/Plain.antt =====
-- Which identifiers of src/output/sql_generator_util.c are written without quotes, said beside the
-- loops of `sb_append_identifier` and the buffer of `is_reserved_keyword`.
use schema_compare_c.Base.{
  ℕ, ◌<◌, ◌≤◌, ◌≡◌, refl, sym, ap, ap₂, ◌∙◌, Bool, true, false, not, ◌||◌, ◌&&◌, inl, inr,
  Bool-cases, List, [], ◌∷◌, map, ◌==◌, leb, ltb, arith, length,
}
use schema_compare_c.Text.{Bytes, codes}
use schema_compare_c.Text.Ctype.{is_alnum, is_alpha, is_upper, is_lower, is_digit, to_lower}
use schema_compare_c.Text.Strings.{same, same_iff}
use schema_compare_c.Sql.Quote.{
  is_among, is_reserved_keyword, has_special, starts_with_digit, needs_quote,
}

-- The words that are quoted although they are made of letters.
abbrev reserved_words : List Bytes
reserved_words = map codes (
    "select" ∷ "from" ∷ "where" ∷ "insert" ∷ "update" ∷ "delete" ∷ "create" ∷ "drop" ∷ "alter"
    ∷ "table" ∷ "index" ∷ "view" ∷ "user" ∷ "group" ∷ "order" ∷ "by" ∷ "limit" ∷ "offset" ∷ "union"
    ∷ "join" ∷ "left" ∷ "right" ∷ "inner" ∷ "outer" ∷ "on" ∷ "as" ∷ "and" ∷ "or" ∷ "not" ∷ "null"
    ∷ "true" ∷ "false" ∷ "default" ∷ "primary" ∷ "foreign" ∷ "key" ∷ "references" ∷ "constraint"
    ∷ "unique" ∷ "check" ∷ "exists" ∷ "like" ∷ [])

unfoldable is_one_of : List Bytes → Bytes → Bool
is_one_of [] word = false
is_one_of (w ∷ words) word = same word w || is_one_of words word

-- A digit, and a letter or an underscore.
unfoldable is_figure : ℕ → Bool
is_figure c = ltb 47 c && ltb c 58

unfoldable is_letter : ℕ → Bool
is_letter c = (ltb 64 c && ltb c 91) || (ltb 96 c && ltb c 123) || c == 95

unfoldable only_letters_and_figures : Bytes → Bool
unfolding is_letter is_figure
only_letters_and_figures [] = true
only_letters_and_figures (c ∷ s) = (is_letter c || is_figure c) && only_letters_and_figures s

unfoldable begins_with_figure : Bytes → Bool
unfolding is_figure
begins_with_figure [] = false
begins_with_figure (c ∷ s) = is_figure c

-- The identifier consists of letters, digits and underscores, begins with no digit and is none of the
-- reserved words in either case.
unfoldable pub is_plain : Bytes → Bool
unfolding only_letters_and_figures begins_with_figure is_one_of
is_plain s =
    only_letters_and_figures s
    && (not (begins_with_figure s) && not (is_one_of reserved_words (map to_lower s)))

upper_lem : (c : ℕ) → is_upper c ≡ (ltb 64 c && ltb c 91)
unfolding is_upper
upper_lem c = ground arith

lower_lem : (c : ℕ) → is_lower c ≡ (ltb 96 c && ltb c 123)
unfolding is_lower
lower_lem c = ground arith

figure_lem : (c : ℕ) → is_digit c ≡ is_figure c
unfolding is_digit is_figure
figure_lem c = ground arith

word_lem : (c : ℕ) → (not (is_alnum c) && not (c == b'_')) ≡ not (is_letter c || is_figure c)
unfolding is_alnum is_alpha is_letter
word_lem c =
    ap₂ (λ (a b : Bool). not a && not b)
      (ap₂ ◌||◌ (ap₂ ◌||◌ (upper_lem c) (lower_lem c)) (figure_lem c)) refl
    ∙ in_order (ltb 64 c && ltb c 91) (ltb 96 c && ltb c 123) (is_figure c) (c == b'_')
  where
    in_order : (u l d o : Bool) → (not ((u || l) || d) && not o) ≡ not ((u || l || o) || d)
    in_order true l d o = refl
    in_order false true d o = refl
    in_order false false true true = refl
    in_order false false true false = refl
    in_order false false false true = refl
    in_order false false false false = refl

special_lem : (s : Bytes) → has_special s ≡ not (only_letters_and_figures s)
unfolding has_special only_letters_and_figures
special_lem [] = refl
special_lem (c ∷ s) =
    ap₂ ◌||◌ (word_lem c) (special_lem s)
    ∙ in_order (is_letter c || is_figure c) (only_letters_and_figures s)
  where
    in_order : (w o : Bool) → (not w || not o) ≡ not (w && o)
    in_order true o = refl
    in_order false o = refl

digit_lem : (s : Bytes) → starts_with_digit s ≡ begins_with_figure s
unfolding starts_with_digit begins_with_figure
digit_lem [] = refl
digit_lem (c ∷ s) = figure_lem c

among_lem : (s : Bytes) (words : List Bytes) → is_among s words ≡ is_one_of words s
unfolding is_among is_one_of
among_lem s [] = refl
among_lem s (w ∷ words) = ap (λ b. same s w || b) (among_lem s words)

-- Every word fits the buffer.
unfoldable all_short : List Bytes → Bool
all_short [] = true
all_short (w ∷ words) = ltb (length w) 256 && all_short words

short_of_among :
    (s : Bytes) (words : List Bytes)
    → all_short words ≡ true
    → 256 ≤ length s
    → is_one_of words s ≡ false
unfolding all_short is_one_of
short_of_among s [] h k = refl
short_of_among s (w ∷ words) h k = elim (Bool-cases (same s w)) [
  | inl f ↦
      let e : length s ≡ length w = ap length ((same_iff s w).0 f) in
      let first : length w < 256 = ground arith in absurd (omega (arith, e, first))
  | inr f ↦
      let rest : all_short words ≡ true = ground arith in
      rw (f, is_one_of) (short_of_among s words rest k)
]

length-small : (s : Bytes) → length (map to_lower s) ≡ length s
length-small [] = refl
length-small (c ∷ s) = omega (arith, length-small s)

reserved_lem : (s : Bytes) → is_reserved_keyword s ≡ is_one_of reserved_words (map to_lower s)
unfolding is_reserved_keyword
reserved_lem s = elim (Bool-cases (leb 256 (length s))) [
  | inl e ↦
      let long : 256 ≤ length s = ground arith in
      rw (e, is_reserved_keyword)
        (sym (
          short_of_among (map to_lower s) reserved_words (unfold all_short in refl)
            (omega (arith, long, length-small s))))
  | inr e ↦ rw (e, is_reserved_keyword) (among_lem (map to_lower s) reserved_words)
]

pub needs_quote_lem : (s : Bytes) → needs_quote s ≡ not (is_plain s)
unfolding needs_quote is_plain
needs_quote_lem s =
    ap₂ ◌||◌ (ap₂ ◌||◌ (reserved_lem s) (special_lem s)) (digit_lem s)
    ∙ in_order (is_one_of reserved_words (map to_lower s)) (only_letters_and_figures s)
        (begins_with_figure s)
  where
    in_order : (r o b : Bool) → ((r || not o) || b) ≡ not (o && (not b && not r))
    in_order true false true = refl
    in_order false false true = refl
    in_order true false false = refl
    in_order false false false = refl
    in_order true true true = refl
    in_order false true true = refl
    in_order true true false = refl
    in_order false true false = refl
