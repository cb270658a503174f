-- ===== src/Sql/Quote/ReadBack.antt =====
-- The quoted texts of src/output/sql_generator_util.c, and how SQL reads them.
use schema_compare_c.Base.{
  ℕ, ◌+◌, ◌*◌, ◌^◌, ◌≤◌, ◌<◌, ◌≡◌, refl, sym, ap, ◌∙◌, Bool, true, false, inl, inr, Bool-cases, [],
  ◌∷◌, ◌++◌, append_assoc, append-nil, Option, none, some, ◌==◌, ==_iff, arith, if◌then◌else◌,
  length, length-append,
}
use schema_compare_c.Text.{Bytes}
use schema_compare_c.StringUtils.Builder.{StringBuilder}
use schema_compare_c.StringUtils.Builder.Growth.{IsSound, sb_append_lem, sb_append_char_lem}
use schema_compare_c.Sql.Quote.{
  append_escaped_char, append_escaped, append_quote, append_quoted, needs_quote,
  sb_append_identifier, sb_append_literal,
}

-- The text with each quote doubled.
unfoldable pub escaped : ℕ → Bytes → Bytes
escaped quote [] = []
escaped quote (c ∷ src) =
    if c == quote then quote ∷ quote ∷ escaped quote src else c ∷ escaped quote src

unfoldable pub push : ℕ → Option (Bytes × Bytes) → Option (Bytes × Bytes)
push c none = none
push c (some (text, rest)) = some (c ∷ text, rest)

-- How SQL reads on after an opening quote: a doubled quote is a character, and a quote that is not
-- doubled ends the text. The text and what follows the closing quote; `none` if there is none.
unfoldable pub read_quoted : ℕ → Bytes → Option (Bytes × Bytes)
read_quoted quote [] = none
read_quoted quote (c ∷ []) = if c == quote then some ([], []) else none
read_quoted quote (c ∷ d ∷ src) =
    let after = read_quoted quote src in
    let next = read_quoted quote (d ∷ src) in
    if c == quote
    then (if d == quote then push quote after else some ([], d ∷ src))
    else push c next

read_other :
    (quote c d : ℕ) (src : Bytes)
    → (c == quote) ≡ false
    → read_quoted quote (c ∷ (src ++ d ∷ [])) ≡ push c (read_quoted quote (src ++ d ∷ []))
unfolding read_quoted
read_other quote c d [] e = rw (e, read_quoted) refl
read_other quote c d (x ∷ src) e = rw (e, read_quoted) refl

read_doubled :
    (quote : ℕ) (src : Bytes)
    → read_quoted quote (quote ∷ quote ∷ src) ≡ push quote (read_quoted quote src)
unfolding read_quoted
read_doubled quote src = rw ((==_iff quote quote).1 refl, read_quoted) refl

escaped-cons :
    (quote c : ℕ) (src : Bytes)
    → escaped quote (c ∷ []) ++ escaped quote src ≡ escaped quote (c ∷ src)
unfolding escaped
escaped-cons quote c src = elim (Bool-cases (c == quote)) [
  | inl e ↦ rw (e, escaped) refl
  | inr e ↦ rw (e, escaped) refl
]

length-escaped_char : (quote c : ℕ) → length (escaped quote (c ∷ [])) ≤ 2
unfolding escaped
length-escaped_char quote c = elim (Bool-cases (c == quote)) [
  | inl e ↦ rw (e, escaped) (omega arith)
  | inr e ↦ rw (e, escaped) (omega arith)
]

pub length-escaped : (quote : ℕ) (src : Bytes) → length (escaped quote src) ≤ 2 * length src
length-escaped quote [] = unfold escaped in omega arith
length-escaped quote (c ∷ src) =
    rw (← escaped-cons quote c src, length-append)
      (omega (arith, length-escaped_char quote c, length-escaped quote src))

read_escaped :
    (quote : ℕ) (text : Bytes)
    → read_quoted quote (escaped quote text ++ quote ∷ []) ≡ some (text, [])
unfolding read_quoted escaped push
read_escaped quote [] = ground arith
read_escaped quote (c ∷ text) = elim (Bool-cases (c == quote)) [
  | inl e ↦
      rw (e, escaped)
        (read_doubled quote (escaped quote text ++ quote ∷ [])
          ∙ ap (push quote) (read_escaped quote text)
          ∙ ap (λ d. some (d ∷ text, [])) (sym ((==_iff c quote).0 e)))
  | inr e ↦
      rw (e, escaped)
        (read_other quote c quote (escaped quote text) e ∙ ap (push c) (read_escaped quote text))
]

-- A builder holds that much more.
pub record Appended (sb : StringBuilder) (o : Option StringBuilder) (text : Bytes) : Type 0 where
  pub built : StringBuilder
  pub returned : o ≡ some built
  pub holds : built.contents ≡ sb.contents ++ text
  pub sound : IsSound built

module _ (realloc_succeeds : ℕ → Bool) (succeeds : (n : ℕ) → realloc_succeeds n ≡ true) where
  append_quote-Appended :
      (quote : ℕ) (sb : StringBuilder)
      → IsSound sb
      → length sb.contents + 1 < 2 ^ 63
      → Appended sb (append_quote realloc_succeeds quote (some sb)) (quote ∷ [])
  unfolding append_quote
  append_quote-Appended quote sb h b =
      let r = sb_append_lem realloc_succeeds succeeds sb (quote ∷ []) h (omega (arith, b)) in
      record { built = r.0; returned = r.1; holds = r.2; sound = r.3 }

  append_escaped_char-Appended :
      (quote : ℕ) (sb : StringBuilder) (c : ℕ)
      → IsSound sb
      → length sb.contents + 2 < 2 ^ 63
      → Appended sb (append_escaped_char realloc_succeeds quote sb c) (escaped quote (c ∷ []))
  unfolding append_escaped_char escaped
  append_escaped_char-Appended quote sb c h b = elim (Bool-cases (c == quote)) [
    | inl e ↦
        let r =
          sb_append_lem realloc_succeeds succeeds sb (quote ∷ quote ∷ []) h (omega (arith, b)) in
        rw (e, append_escaped_char, escaped)
          (record { built = r.0; returned = r.1; holds = r.2; sound = r.3 })
    | inr e ↦
        let r = sb_append_char_lem realloc_succeeds succeeds sb c h (omega (arith, b)) in
        rw (e, append_escaped_char, escaped)
          (record { built = r.0; returned = r.1; holds = r.2; sound = r.3 })
  ]

  append_escaped-Appended :
      (quote : ℕ) (src : Bytes) (sb : StringBuilder)
      → IsSound sb
      → length sb.contents + 2 * length src < 2 ^ 63
      → Appended sb (append_escaped realloc_succeeds quote src (some sb)) (escaped quote src)
  unfolding append_escaped escaped
  append_escaped-Appended quote [] sb h b = record {
    built = sb;
    returned = refl;
    holds = sym (append-nil sb.contents);
    sound = h;
  }
  append_escaped-Appended quote (c ∷ src) sb h b =
      let first = append_escaped_char-Appended quote sb c h (omega (arith, b)) in
      let rest =
        append_escaped-Appended quote src first.built first.sound
          (rw (first.holds, length-append) (omega (arith, b, length-escaped_char quote c))) in
      record {
        built = rest.built;
        returned = ap (append_escaped realloc_succeeds quote src) first.returned ∙ rest.returned;
        holds =
            rest.holds
            ∙ ap (λ s. s ++ escaped quote src) first.holds
            ∙ append_assoc sb.contents (escaped quote (c ∷ [])) (escaped quote src)
            ∙ ap (λ t. sb.contents ++ t) (escaped-cons quote c src);
        sound = rest.sound;
      }

  pub append_quoted-Appended :
      (quote : ℕ) (sb : StringBuilder) (text : Bytes)
      → IsSound sb
      → length sb.contents + 2 * length text + 2 < 2 ^ 63
      → Appended sb
          (append_quoted realloc_succeeds quote sb text)
          (quote ∷ (escaped quote text ++ quote ∷ []))
  unfolding append_quoted
  append_quoted-Appended quote sb text h b =
      let opened = append_quote-Appended quote sb h (omega (arith, b)) in
      let filled =
        append_escaped-Appended quote text opened.built opened.sound
          (rw (opened.holds, length-append) (omega (arith, b))) in
      let closed = append_quote-Appended quote filled.built filled.sound (
        rw (filled.holds, length-append, opened.holds, length-append)
          (omega (arith, b, length-escaped quote text))) in
      record {
        built = closed.built;
        returned =
            ap
              (λ o.
                append_quote realloc_succeeds quote (append_escaped realloc_succeeds quote text o))
              opened.returned
            ∙ ap (append_quote realloc_succeeds quote) filled.returned
            ∙ closed.returned;
        holds =
            closed.holds
            ∙ ap (λ s. s ++ quote ∷ [])
                (filled.holds ∙ ap (λ s. s ++ escaped quote text) opened.holds)
            ∙ ap (λ s. s ++ quote ∷ []) (append_assoc sb.contents (quote ∷ []) (escaped quote text))
            ∙ append_assoc sb.contents (quote ∷ escaped quote text) (quote ∷ []);
        sound = closed.sound;
      }

  -- While `realloc` succeeds and the builder is sound and has less than half of the address space to
  -- hold, a string appended as a literal is one quote and a text that SQL reads back, with nothing
  -- left over, as the string, and the builder is sound again.
  pub sb_append_literal_lem :
      (sb : StringBuilder) (literal : Bytes)
      → IsSound sb
      → length sb.contents + 2 * length literal + 2 < 2 ^ 63
      → (sb' : StringBuilder) × (text : Bytes) × (sb_append_literal realloc_succeeds sb
            (some literal)
          ≡ some sb')
        × (sb'.contents ≡ sb.contents ++ 39 ∷ text)
        × (read_quoted 39 text ≡ some (literal, []))
        × IsSound sb'
  unfolding sb_append_literal
  sb_append_literal_lem sb literal h b =
      let q = append_quoted-Appended 39 sb literal h b in
      (
        q.built,
        escaped 39 literal ++ 39 ∷ [],
        q.returned,
        q.holds,
        read_escaped 39 literal,
        q.sound,
      )

  -- While `realloc` succeeds and the builder is sound and has less than half of the address space to
  -- hold, an identifier that needs a quote is appended as a double quote and a text that SQL reads
  -- back, with nothing left over, as the identifier, and the builder is sound again.
  pub sb_append_identifier_lem :
      (sb : StringBuilder) (identifier : Bytes)
      → IsSound sb
      → needs_quote identifier ≡ true
      → length sb.contents + 2 * length identifier + 2 < 2 ^ 63
      → (sb' : StringBuilder) × (text : Bytes) × (sb_append_identifier realloc_succeeds sb
            (some identifier)
          ≡ some sb')
        × (sb'.contents ≡ sb.contents ++ b'"' ∷ text)
        × (read_quoted b'"' text ≡ some (identifier, []))
        × IsSound sb'
  unfolding sb_append_identifier
  sb_append_identifier_lem sb identifier h n b =
      let q = append_quoted-Appended b'"' sb identifier h b in
      (
        q.built,
        escaped b'"' identifier ++ b'"' ∷ [],
        rw (n, sb_append_identifier) q.returned,
        q.holds,
        read_escaped b'"' identifier,
        q.sound,
      )
