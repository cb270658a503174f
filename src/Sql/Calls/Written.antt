-- ===== src/Sql/Calls/Written.antt =====
-- What a list of calls of the string builder writes.
use schema_compare_c.Base.{
  ◌==◌, ℕ, ◌+◌, ◌*◌, ◌^◌, ◌≤◌, ◌<◌, ◌≡◌, refl, sym, ap, ◌∙◌, Bool, true, false, inl, inr,
  Bool-cases, List, [], ◌∷◌, ◌++◌, append_assoc, append-nil, Option, none, some, arith,
  if◌then◌else◌, length, length-append,
}
use schema_compare_c.Text.{Bytes, CString}
use schema_compare_c.StringUtils.Builder.{StringBuilder, sb_append, sb_append_fmt}
use schema_compare_c.StringUtils.Builder.Growth.{IsSound, sb_append_lem}
use schema_compare_c.Sql.Quote.{needs_quote, sb_append_identifier}
use schema_compare_c.Sql.Quote.Plain.{is_plain, needs_quote_lem}
use schema_compare_c.Sql.Quote.ReadBack.{escaped, Appended, append_quoted-Appended}
use schema_compare_c.Sql.Calls.{Argument, Call, literal, append, identifier, format, make, make_all}

unfoldable pub or_empty : Option Bytes → Bytes
or_empty none = []
or_empty (some s) = s

-- An identifier as SQL writes it: as it is if it is plain, and else between quotes, with its own
-- quotes doubled.
unfoldable pub quoted : CString → Bytes
quoted none = []
quoted (some s) = if is_plain s then s else b'"' ∷ (escaped b'"' s ++ b'"' ∷ [])

quoted_lem :
    (s : Bytes)
    → quoted (some s) ≡ (if needs_quote s then b'"' ∷ (escaped b'"' s ++ b'"' ∷ []) else s)
unfolding quoted
quoted_lem s = elim (Bool-cases (is_plain s)) [
  | inl e ↦ rw (needs_quote_lem s, e, quoted) refl
  | inr e ↦ rw (needs_quote_lem s, e, quoted) refl
]

module _ (vsnprintf : Bytes → List Argument → Option Bytes) where
  unfoldable pub written : Call → Bytes
  written (literal s) = s
  written (append s) = or_empty s
  written (identifier s) = quoted s
  written (format f arguments) = or_empty (vsnprintf f arguments)

  unfoldable pub all_written : List Call → Bytes
  all_written [] = []
  all_written (call ∷ calls) = written call ++ all_written calls

length-le-escaped : (quote : ℕ) (src : Bytes) → length src ≤ length (escaped quote src)
unfolding escaped
length-le-escaped quote [] = omega arith
length-le-escaped quote (c ∷ src) = elim (Bool-cases (c == quote)) [
  | inl e ↦ rw (e, escaped) (omega (arith, length-le-escaped quote src))
  | inr e ↦ rw (e, escaped) (omega (arith, length-le-escaped quote src))
]

length-quoted_needed : (s : Bytes) → needs_quote s ≡ true → length s + 2 ≤ length (quoted (some s))
length-quoted_needed s e =
    rw (quoted_lem s, e, length-append) (omega (arith, length-le-escaped b'"' s))

length-quoted_bare : (s : Bytes) → needs_quote s ≡ false → length s ≤ length (quoted (some s))
length-quoted_bare s e = rw (quoted_lem s, e) (omega arith)

module _ (vsnprintf : Bytes → List Argument → Option Bytes) (realloc_succeeds : ℕ → Bool)
    (succeeds : (n : ℕ) → realloc_succeeds n ≡ true) where
  append-Appended :
      (sb : StringBuilder) (s : CString)
      → IsSound sb
      → length sb.contents + length (or_empty s) < 2 ^ 63
      → Appended sb (sb_append realloc_succeeds sb s) (or_empty s)
  unfolding or_empty sb_append
  append-Appended sb none h b = record {
    built = sb;
    returned = refl;
    holds = sym (append-nil sb.contents);
    sound = h;
  }
  append-Appended sb (some s) h b =
      let r = sb_append_lem realloc_succeeds succeeds sb s h b in
      record { built = r.0; returned = r.1; holds = r.2; sound = r.3 }

  format-Appended :
      (sb : StringBuilder) (s : Option Bytes)
      → IsSound sb
      → length sb.contents + length (or_empty s) < 2 ^ 63
      → Appended sb (sb_append_fmt realloc_succeeds sb s) (or_empty s)
  unfolding or_empty sb_append_fmt sb_append
  format-Appended sb none h b = record {
    built = sb;
    returned = refl;
    holds = sym (append-nil sb.contents);
    sound = h;
  }
  format-Appended sb (some s) h b = append-Appended sb (some s) h b

  identifier-Appended :
      (sb : StringBuilder) (s : CString)
      → IsSound sb
      → length sb.contents + 2 * length (quoted s) < 2 ^ 63
      → Appended sb (sb_append_identifier realloc_succeeds sb s) (quoted s)
  unfolding quoted sb_append_identifier or_empty
  identifier-Appended sb none h b = record {
    built = sb;
    returned = refl;
    holds = sym (append-nil sb.contents);
    sound = h;
  }
  identifier-Appended sb (some s) h b = elim (Bool-cases (needs_quote s)) [
    | inl e ↦
        rw (quoted_lem s, e, sb_append_identifier)
          (append_quoted-Appended realloc_succeeds succeeds b'"' sb s h (bound e))
    | inr e ↦ rw (quoted_lem s, e, sb_append_identifier) (append-Appended sb (some s) h (bare e))
  ]
    where
      bound : needs_quote s ≡ true → length sb.contents + 2 * length s + 2 < 2 ^ 63
      bound e = omega (arith, b, length-quoted_needed s e)

      bare : needs_quote s ≡ false → length sb.contents + length s < 2 ^ 63
      bare e = omega (arith, b, length-quoted_bare s e)

  make-Appended :
      (call : Call) (sb : StringBuilder)
      → IsSound sb
      → length sb.contents + 2 * length (written vsnprintf call) < 2 ^ 63
      → Appended sb (make vsnprintf realloc_succeeds call sb) (written vsnprintf call)
  unfolding make written
  make-Appended (literal s) sb h b =
      unfold or_empty in (append-Appended sb (some s) h (omega (arith, b)))
  make-Appended (append s) sb h b = append-Appended sb s h (omega (arith, b))
  make-Appended (identifier s) sb h b = identifier-Appended sb s h b
  make-Appended (format f arguments) sb h b =
      format-Appended sb (vsnprintf f arguments) h (omega (arith, b))

  pub make_all-Appended :
      (calls : List Call) (sb : StringBuilder)
      → IsSound sb
      → length sb.contents + 2 * length (all_written vsnprintf calls) < 2 ^ 63
      → Appended sb (make_all vsnprintf realloc_succeeds calls sb) (all_written vsnprintf calls)
  unfolding make_all all_written
  make_all-Appended [] sb h b = record {
    built = sb;
    returned = refl;
    holds = sym (append-nil sb.contents);
    sound = h;
  }
  make_all-Appended (call ∷ calls) sb h b =
      let both = length-append (written vsnprintf call) (all_written vsnprintf calls) in
      let first = make-Appended call sb h (omega (arith, b, both)) in
      let rest =
        make_all-Appended calls first.built first.sound
          (rw (first.holds, length-append) (omega (arith, b, both))) in
      record {
        built = rest.built;
        returned = rw (first.returned, make_all) rest.returned;
        holds =
            rest.holds
            ∙ ap (λ s. s ++ all_written vsnprintf calls) first.holds
            ∙ append_assoc sb.contents (written vsnprintf call) (all_written vsnprintf calls);
        sound = rest.sound;
      }
