-- ===== src/Token/Keywords/Search.antt =====
-- The binary search of src/parser/lexer.c beside a search from the front of the table.
use schema_compare_c.Base.{
  ℕ, zero, suc, ◌+◌, ◌-◌, ◌/◌, ◌≤◌, ◌<◌, ◌≡◌, ◌≢◌, refl, sym, ap, ◌∙◌, Bool, true, false, inl, inr,
  Bool-cases, List, [], ◌∷◌, map, Option, none, some, Ordering, arith, ltb, ◌==◌, ==_iff,
  get_elem?_of_lt, lt_of_get_elem?, get_elem?, length,
}
use mathlib.Core.Option.{some-injective}
use schema_compare_c.Text.{Bytes}
use schema_compare_c.Text.Ctype.{to_lower}
use schema_compare_c.Text.Strings.{strcmp, strcmp_refl, eq_of_strcmp}
use schema_compare_c.Text.Ordered.{strcmp_trans, strcmp_flip}
use schema_compare_c.Token.{TokenType}
use schema_compare_c.Token.Keywords.{KeywordMap, keywords, search_from, is_keyword}

-- The first entry of that keyword.
unfoldable pub find_keyword : Bytes → List KeywordMap → Option TokenType
find_keyword lower [] = none
find_keyword lower (k ∷ table) = elim (strcmp lower k.keyword) [
  | Ordering.eq ↦ some k.type
  | _ ↦ find_keyword lower table
]

-- Each keyword is less than the next.
abbrev ascends : List KeywordMap → Bool
ascends [] = true
ascends (k ∷ []) = true
ascends (k ∷ l ∷ table) = elim (strcmp k.keyword l.keyword) [
  | Ordering.lt ↦ ascends (l ∷ table)
  | _ ↦ false
]

keywords-ascend : ascends keywords ≡ true
unfolding strcmp
keywords-ascend = refl

-- The keyword at `i` is `k`'s.
abbrev Stands : List KeywordMap → ℕ → KeywordMap → Type 0
Stands table i k = get_elem? table i ≡ some k

ascends_parts :
    (k l : KeywordMap) (table : List KeywordMap)
    → ascends (k ∷ l ∷ table) ≡ true
    → (strcmp k.keyword l.keyword ≡ Ordering.lt) × (ascends (l ∷ table) ≡ true)
ascends_parts k l table a = by_order (strcmp k.keyword l.keyword) a
  where
    by_order :
        (o : Ordering)
        → (elim o [ Ordering.lt ↦ ascends (l ∷ table) | _ ↦ false ]) ≡ true
        → (o ≡ Ordering.lt) × (ascends (l ∷ table) ≡ true)
    by_order Ordering.lt h = (refl, h)
    by_order Ordering.eq h = cc
    by_order Ordering.gt h = cc

-- Entries further on are greater.
ascends_lt :
    (table : List KeywordMap) (i j : ℕ) (k l : KeywordMap)
    → ascends table ≡ true
    → i < j
    → Stands table i k
    → Stands table j l
    → strcmp k.keyword l.keyword ≡ Ordering.lt
ascends_lt [] i j k l a h p q = cc
ascends_lt (k0 ∷ []) i (suc j) k l a h p q = cc
ascends_lt (k0 ∷ []) i zero k l a h p q = elim h [ ]
ascends_lt (k0 ∷ k1 ∷ table) zero zero k l a h p q = elim h [ ]
ascends_lt (k0 ∷ k1 ∷ table) (suc i) zero k l a h p q = elim h [ ]
ascends_lt (k0 ∷ k1 ∷ table) (suc i) (suc j) k l a h p q =
    ascends_lt (k1 ∷ table) i j k l (ascends_parts k0 k1 table a).1 (omega (arith, h)) p q
ascends_lt (k0 ∷ k1 ∷ table) zero (suc zero) k l a h p q =
    rw (← some-injective k0 k p, ← some-injective k1 l q) (ascends_parts k0 k1 table a).0
ascends_lt (k0 ∷ k1 ∷ table) zero (suc (suc j)) k l a h p q =
    let parts = ascends_parts k0 k1 table a in
    strcmp_trans k.keyword k1.keyword l.keyword (rw (← some-injective k0 k p) parts.0)
      (ascends_lt (k1 ∷ table) zero (suc j) k1 l parts.1 (omega arith) refl q)

module _ (lower : Bytes) where
  -- A search from the front finds nothing if no entry is equal.
  find_keyword-none :
      (table : List KeywordMap)
      → ((i : ℕ) (k : KeywordMap) → Stands table i k → strcmp lower k.keyword ≢ Ordering.eq)
      → find_keyword lower table ≡ none
  unfolding find_keyword
  find_keyword-none [] h = refl
  find_keyword-none (k ∷ table) h =
      by_order (strcmp lower k.keyword) (h 0 k refl) (find_keyword-none table (λ i l. h (suc i) l))
    where
      by_order :
          (o : Ordering)
          → o ≢ Ordering.eq
          → find_keyword lower table ≡ none
          → (elim o as (λ _. Option TokenType) [
            | Ordering.eq ↦ some k.type
            | _ ↦ find_keyword lower table
          ])
            ≡ none
      by_order Ordering.eq n r = absurd (n refl)
      by_order Ordering.lt n r = r
      by_order Ordering.gt n r = r

  -- It finds an equal entry if none before it is equal.
  find_keyword-some :
      (table : List KeywordMap) (i : ℕ) (k : KeywordMap)
      → Stands table i k
      → strcmp lower k.keyword ≡ Ordering.eq
      → ((j : ℕ) (l : KeywordMap) → j < i → Stands table j l → strcmp lower l.keyword ≢ Ordering.eq)
      → find_keyword lower table ≡ some k.type
  unfolding find_keyword
  find_keyword-some [] i k p e h = cc
  find_keyword-some (k0 ∷ table) zero k p e h =
      rw (ap (λ (x : KeywordMap). strcmp lower x.keyword) (some-injective k0 k p) ∙ e, find_keyword)
        (ap (λ (x : KeywordMap). some x.type) (some-injective k0 k p))
  find_keyword-some (k0 ∷ table) (suc i) k p e h =
      by_order (strcmp lower k0.keyword) (h 0 k0 (omega arith) refl)
        (find_keyword-some table i k p e (λ j l q. h (suc j) l (omega (arith, q))))
    where
      by_order :
          (o : Ordering)
          → o ≢ Ordering.eq
          → find_keyword lower table ≡ some k.type
          → (elim o as (λ _. Option TokenType) [
            | Ordering.eq ↦ some k0.type
            | _ ↦ find_keyword lower table
          ])
            ≡ some k.type
      by_order Ordering.eq n r = absurd (n refl)
      by_order Ordering.lt n r = r
      by_order Ordering.gt n r = r

  -- A keyword on either side of the text is not the text.
  ne_of_lt : (s : Bytes) → strcmp s lower ≡ Ordering.lt → strcmp lower s ≢ Ordering.eq
  ne_of_lt s h e = let same : lower ≡ s = eq_of_strcmp lower s e in cc (h, same, strcmp_refl s)

  ne_of_gt : (s : Bytes) → strcmp lower s ≡ Ordering.lt → strcmp lower s ≢ Ordering.eq
  ne_of_gt s h e = cc (h, e)

  module _ (table : List KeywordMap) (a : ascends table ≡ true) where
    -- What the bounds of the search have excluded.
    record Excludes (left high : ℕ) : Type 0 where
      within : high ≤ length table
      before :
          (i : ℕ) (k : KeywordMap)
          → i < left
          → Stands table i k
          → strcmp k.keyword lower ≡ Ordering.lt
      after :
          (i : ℕ) (k : KeywordMap)
          → high ≤ i
          → Stands table i k
          → strcmp lower k.keyword ≡ Ordering.lt

    excluded_none :
        (left high : ℕ) → high ≤ left → Excludes left high → find_keyword lower table ≡ none
    excluded_none left high f x = find_keyword-none table (λ i k q. elim (Bool-cases (ltb i left)) [
      | inl e ↦ ne_of_lt k.keyword (x.before i k (ground (arith, e)) q)
      | inr e ↦ ne_of_gt k.keyword (x.after i k (ground (arith, e, f)) q)
    ])

    -- What a probe at `mid` excludes.
    Excludes-below :
        (left high mid : ℕ) (k : KeywordMap)
        → mid < high
        → Excludes left high
        → Stands table mid k
        → strcmp lower k.keyword ≡ Ordering.lt
        → Excludes left mid
    Excludes-below left high mid k h x q e = record {
      within = omega (arith, h, x.within);
      before = x.before;
      after = λ i l m r. elim (Bool-cases (mid == i)) [
        | inl same ↦
            let there : Stands table mid l = rw ((==_iff mid i).0 same) r in
            rw (← some-injective k l (sym q ∙ there)) e
        | inr later ↦
            strcmp_trans lower k.keyword l.keyword e
              (ascends_lt table mid i k l a (ground (arith, m, later)) q r)
      ];
    }

    Excludes-above :
        (left high mid : ℕ) (k : KeywordMap)
        → Excludes left high
        → Stands table mid k
        → strcmp lower k.keyword ≡ Ordering.gt
        → Excludes (mid + 1) high
    Excludes-above left high mid k x q e = record {
      within = x.within;
      before = λ i l m r. elim (Bool-cases (mid == i)) [
        | inl same ↦
            let there : Stands table mid l = rw ((==_iff mid i).0 same) r in
            rw (← some-injective k l (sym q ∙ there)) (strcmp_flip lower k.keyword e)
        | inr earlier ↦
            strcmp_trans l.keyword k.keyword lower
              (ascends_lt table i mid l k a (ground (arith, m, earlier)) r q)
              (strcmp_flip lower k.keyword e)
      ];
      after = x.after;
    }

    hit-find_keyword :
        (mid : ℕ) (k : KeywordMap)
        → Stands table mid k
        → strcmp lower k.keyword ≡ Ordering.eq
        → find_keyword lower table ≡ some k.type
    hit-find_keyword mid k q e = find_keyword-some table mid k q e (λ j l h r.
        ne_of_lt l.keyword
          (rw (eq_of_strcmp lower k.keyword e) (ascends_lt table j mid l k a h r q)))

    search_from-find_keyword :
        (fuel left high : ℕ)
        → high < left + fuel
        → Excludes left high
        → search_from fuel table lower left high ≡ find_keyword lower table
    unfolding search_from
    search_from-find_keyword zero left high f x = sym (excluded_none left high (omega (arith, f)) x)
    search_from-find_keyword (suc fuel) left high f x = elim (Bool-cases (ltb left high)) [
      | inr done ↦ rw (done, search_from) (sym (excluded_none left high (ground (arith, done)) x))
      | inl more ↦
          let lt : left < high = ground (arith, more) in
          let (k, q) =
            get_elem?_of_lt table ((left + high - 1) / 2) (omega (arith, lt, x.within)) in
          rw (more, search_from, q)
            (by_order k q (strcmp lower k.keyword) refl
              (λ e.
                search_from-find_keyword fuel left ((left + high - 1) / 2) (omega (arith, lt, f))
                  (Excludes-below left high _ k (omega (arith, lt)) x q e))
              (λ e.
                search_from-find_keyword fuel ((left + high - 1) / 2 + 1) high
                  (omega (arith, lt, f)) (Excludes-above left high _ k x q e)))
    ]
      where
        by_order :
            (k : KeywordMap)
            → Stands table ((left + high - 1) / 2) k
            → (o : Ordering) → strcmp lower k.keyword ≡ o
            → (o ≡ Ordering.lt
                → search_from fuel table lower left ((left + high - 1) / 2)
                  ≡ find_keyword lower table)
            → (o ≡ Ordering.gt
                → search_from fuel table lower ((left + high - 1) / 2 + 1) high
                  ≡ find_keyword lower table)
            → (elim (strcmp lower k.keyword) as (λ _. Option TokenType) [
              | Ordering.eq ↦ some k.type
              | Ordering.lt ↦ search_from fuel table lower left ((left + high - 1) / 2)
              | Ordering.gt ↦ search_from fuel table lower ((left + high - 1) / 2 + 1) high
            ])
              ≡ find_keyword lower table
        by_order k q Ordering.lt e below above = rw e (below refl)
        by_order k q Ordering.gt e below above = rw e (above refl)
        by_order k q Ordering.eq e below above = rw e (sym (hit-find_keyword _ k q e))

-- The binary search of `is_keyword` finds a word exactly as a search of the whole table from the
-- front does, without regard to case: it ends within the fuel, and it misses no keyword.
pub is_keyword-find_keyword :
    (text : Bytes) → is_keyword text ≡ find_keyword (map to_lower text) keywords
unfolding is_keyword
is_keyword-find_keyword text =
    search_from-find_keyword (map to_lower text) keywords keywords-ascend (suc (length keywords)) 0
      (length keywords) (omega arith)
      (record {
        within = omega arith;
        before = λ i k h q. elim h [ ];
        after = λ i k h q. absurd (omega (arith, h, lt_of_get_elem? keywords i k q));
      })
