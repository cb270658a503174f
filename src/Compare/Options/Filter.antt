-- ===== src/Compare/Options/Filter.antt =====
-- Which tables `should_compare_table` of src/compare/compare.c admits.
use schema_compare_c.Base.{
  ℕ, ◌||◌, ◌≡◌, ◌↔◌, ◌⊎◌, refl, sym, ap, ap₂, ◌∙◌, Bool, true, false, inl, inr, Bool-cases,
  Option-cases, List, [], ◌∷◌, ◌++◌, some, is_some, arith, ltb, ◌==◌, ==_iff, if◌then◌else◌, length,
}
use schema_compare_c.Text.{Bytes}
use schema_compare_c.Text.Strings.{starts_with, before}
use schema_compare_c.Compare.Options.{CompareOptions, matches_any, should_compare_table}

-- The text stands somewhere in the other.
abbrev pub Occurs : Bytes → Bytes → Type 0
Occurs needle s = (u : Bytes) × (v : Bytes) × (s ≡ u ++ needle ++ v)

abbrev pub AnyOccurs : List Bytes → Bytes → Type 0
AnyOccurs [] s = ⊥
AnyOccurs (p ∷ ps) s = Occurs p s ⊎ AnyOccurs ps s

of_starts_with : (p s : Bytes) → starts_with p s ≡ true → (v : Bytes) × (s ≡ p ++ v)
unfolding starts_with
of_starts_with [] s h = (s, refl)
of_starts_with (c ∷ p) [] h = cc
of_starts_with (c ∷ p) (d ∷ s) h = elim (Bool-cases (c == d)) [
  | inl e ↦
      let rest = of_starts_with p s (ap (λ b. if b then starts_with p s else false) (sym e) ∙ h) in
      (rest.0, ap₂ (λ x xs. x ∷ xs) (sym ((==_iff c d).0 e)) rest.1)
  | inr e ↦ ground (arith, e, h)
]

starts_with-append : (p v : Bytes) → starts_with p (p ++ v) ≡ true
unfolding starts_with
starts_with-append [] v = refl
starts_with-append (c ∷ p) v = rw ((==_iff c c).1 refl, starts_with) (starts_with-append p v)

before_at_start :
    (needle s : Bytes) → starts_with needle s ≡ true → is_some (before needle s) ≡ true
unfolding before
before_at_start needle [] h = rw (h, before) refl
before_at_start needle (c ∷ s) h = rw (h, before) refl

before_cons :
    (needle : Bytes) (c : ℕ) (s : Bytes)
    → is_some (before needle (c ∷ s)) ≡ (starts_with needle (c ∷ s) || is_some (before needle s))
unfolding before
before_cons needle c s = elim (Bool-cases (starts_with needle (c ∷ s))) [
  | inl e ↦ rw (e, before) refl
  | inr e ↦ elim (Option-cases (before needle s)) [
    | inl f ↦ rw (e, before, f) refl
    | inr (u, f) ↦ rw (e, before, f) refl
  ]
]

before_later : (needle u v : Bytes) → is_some (before needle (u ++ needle ++ v)) ≡ true
before_later needle [] v = before_at_start needle (needle ++ v) (starts_with-append needle v)
before_later needle (c ∷ u) v =
    before_cons needle c (u ++ needle ++ v)
    ∙ ap (λ b. starts_with needle (c ∷ (u ++ needle ++ v)) || b) (before_later needle u v)
    ∙ or_true (starts_with needle (c ∷ (u ++ needle ++ v)))
  where
    or_true : (b : Bool) → (b || true) ≡ true
    or_true true = refl
    or_true false = refl

of_before : (needle s : Bytes) → is_some (before needle s) ≡ true → Occurs needle s
unfolding before
of_before needle [] h = let r = of_starts_with needle [] (ground (arith, h)) in ([], r.0, r.1)
of_before needle (c ∷ s) h = elim (Bool-cases (starts_with needle (c ∷ s))) [
  | inl e ↦ let r = of_starts_with needle (c ∷ s) e in ([], r.0, r.1)
  | inr e ↦
      let r =
        of_before needle s
          (ap (λ b. b || is_some (before needle s)) (sym e) ∙ sym (before_cons needle c s) ∙ h) in
      (c ∷ r.0, r.1, ap (λ t. c ∷ t) r.2)
]

before_iff : (needle s : Bytes) → (is_some (before needle s) ≡ true) ↔ Occurs needle s
before_iff needle s =
    (of_before needle s, λ o. ap (λ t. is_some (before needle t)) o.2 ∙ before_later needle o.0 o.1)

matches_any_iff :
    (s : Bytes) (patterns : List Bytes) → (matches_any s patterns ≡ true) ↔ AnyOccurs patterns s
unfolding matches_any
matches_any_iff s [] = (λ h. cc, λ o. elim o [ ])
matches_any_iff s (p ∷ ps) =
    let here = before_iff p s in
    let rest = matches_any_iff s ps in
    (
      λ h. elim (Bool-cases (is_some (before p s))) [
        | inl e ↦ inl (here.0 e)
        | inr e ↦ inr (rest.0 (ground (arith, e, h)))
      ],
      λ o. elim o [ inl x ↦ ground (arith, here.1 x) | inr x ↦ ground (arith, rest.1 x) ],
    )

is_empty_iff : (l : List Bytes) → (ltb 0 (length l) ≡ false) ↔ (l ≡ [])
is_empty_iff [] = (λ _. refl, λ _. refl)
is_empty_iff (x ∷ l) = (λ h. ground (arith, h), λ h. cc)

filter_iff :
    (n i e : Bool)
    → ((if n
          then (if i then (if e then false else true) else false)
          else (if e then false else true))
        ≡ true)
      ↔ (((n ≡ false) ⊎ (i ≡ true)) × (e ≡ false))
filter_iff true true true = (λ h. cc, λ k. cc)
filter_iff true true false = (λ h. (inr refl, refl), λ k. refl)
filter_iff true false e = (λ h. cc, λ k. elim k.0 [ inl h ↦ cc | inr h ↦ cc ])
filter_iff false i true = (λ h. cc, λ k. cc)
filter_iff false i false = (λ h. (inl refl, refl), λ k. refl)

true_ne_false : (b : Bool) → b ≡ true → b ≡ false → ⊥
true_ne_false b h k = cc

not_true : (b : Bool) → ¬ (b ≡ true) → b ≡ false
not_true true h = elim (h refl) [ ]
not_true false h = refl

-- With options given, a table is compared exactly if the include list is empty or one of its patterns occurs in the
-- table's name, and no pattern of the exclude list occurs in it.
pub should_compare_table_lem :
    (name : Bytes) (opts : CompareOptions)
    → (should_compare_table name (some opts) ≡ true) ↔ (
        ((opts.include_tables ≡ []) ⊎ AnyOccurs opts.include_tables name)
        × ¬ AnyOccurs opts.exclude_tables name)
unfolding should_compare_table
should_compare_table_lem name opts =
    let inc = opts.include_tables in
    let exc = opts.exclude_tables in
    let both = filter_iff (ltb 0 (length inc)) (matches_any name inc) (matches_any name exc) in
    let i = matches_any_iff name inc in
    let e = matches_any_iff name exc in
    (
      λ h.
          let r = both.0 h in
          (
            elim r.0 [ inl n ↦ inl ((is_empty_iff inc).0 n) | inr m ↦ inr (i.0 m) ],
            λ o. true_ne_false (matches_any name exc) (e.1 o) r.1,
          ),
      λ k. both.1 (
        elim k.0 [ inl n ↦ inl ((is_empty_iff inc).1 n) | inr o ↦ inr (i.1 o) ],
        not_true (matches_any name exc) (λ m. k.1 (e.0 m)),
      ),
    )
