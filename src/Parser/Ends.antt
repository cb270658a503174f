-- ===== src/Parser/Ends.antt =====
-- That a parsing function of src/parser comes to an end, and how much of the text it leaves, by rules
-- for the steps that it is made of.
use schema_compare_c.Base.{
  ℕ, zero, suc, ◌+◌, ◌≤◌, ◌<◌, ◌≡◌, refl, inl, inr, Bool, true, false, Bool-cases, List, [], ◌∷◌,
  none, some, arith, if◌then◌else◌, to_nat,
}
use schema_compare_c.Text.{Bytes}
use schema_compare_c.Token.{TokenType, same_type, token_eof, token_comma}
use schema_compare_c.Parser.{
  Parser, report, parser_check, parser_error, parser_advance, remaining, Reply, returns, runs_on,
  Parsing, and_then, ◌>>=◌, give, null, fail, or_null, optional, parser_match, parser_expect, takes,
  choose, clause, items_from, separated,
}
use schema_compare_c.Parser.Progress.{parser_advance-shorter}

-- The result is there, and no more than `n` is left; less than that if it is one that `strict` holds
-- of.
abbrev pub Within {ℓ} : {A : Type ℓ} → (A → Bool) → ℕ → Reply A → Type 0
Within strict n (returns none q) = remaining q ≤ n
Within strict n (returns (some a) q) = to_nat (strict a) + remaining q ≤ n
Within strict n runs_on = ⊥

pub record Ends {ℓ} {A : Type ℓ} (strict : A → Bool) (m : Parsing A) : Type 0 where
  pub within : (p : Parser) → Within strict (remaining p) (m p)

abbrev pub never {ℓ} : {A : Type ℓ} → A → Bool
never a = false

abbrev pub always {ℓ} : {A : Type ℓ} → A → Bool
always a = true

to_nat-le : (b : Bool) → to_nat b ≤ 1
to_nat-le true = omega arith
to_nat-le false = omega arith

pub Within-le {ℓ} :
    {A : Type ℓ} (s : A → Bool) (n k : ℕ) (r : Reply A) → n ≤ k → Within s n r → Within s k r
Within-le s n k (returns none q) h w = omega (arith, h, w)
Within-le s n k (returns (some a) q) h w = omega (arith, h, w)
Within-le s n k runs_on h w = w

pub Within-never {ℓ} :
    {A : Type ℓ} (s : A → Bool) (n k : ℕ) (r : Reply A) → n < k → Within never n r → Within s k r
Within-never s n k (returns none q) h w = omega (arith, h, w)
Within-never s n k (returns (some a) q) h w = let b = to_nat-le (s a) in omega (arith, h, w, b)
Within-never s n k runs_on h w = w

pub and_then-Within {ℓ κ} :
    {A : Type ℓ} {B : Type κ} (t : A → Bool) (s : B → Bool) (n : ℕ) (r : Reply A)
    (f : A → Parsing B)
    → Within t n r
    → ((a : A) → (q : Parser) → to_nat (t a) + remaining q ≤ n → Within s n (f a q))
    → Within s n (and_then r f)
and_then-Within t s n (returns none q) f w g = w
and_then-Within t s n (returns (some a) q) f w g = g a q w
and_then-Within t s n runs_on f w g = w

-- The same where the first part leaves less than the whole may.
pub and_then-Within_to {ℓ κ} :
    {A : Type ℓ} {B : Type κ} (t : A → Bool) (s : B → Bool) (n k : ℕ) (r : Reply A)
    (f : A → Parsing B)
    → n ≤ k
    → Within t n r
    → ((a : A) → (q : Parser) → to_nat (t a) + remaining q ≤ n → Within s k (f a q))
    → Within s k (and_then r f)
and_then-Within_to t s n k (returns none q) f h w g = omega (arith, h, w)
and_then-Within_to t s n k (returns (some a) q) f h w g = g a q w
and_then-Within_to t s n k runs_on f h w g = w

-- A step, and what follows it.
pub then_Ends {ℓ κ} :
    {A : Type ℓ} {B : Type κ} {s : B → Bool} {m : Parsing A} {f : A → Parsing B}
    → Ends never m
    → ((a : A) → Ends s (f a))
    → Ends s (m >>= f)
then_Ends {s = s} {m = m} {f = f} h g = record {
  within = λ p. and_then-Within never s (remaining p) (m p) f (h.within p) (λ a q w.
      Within-le s (remaining q) (remaining p) (f a q) (omega (arith, w)) ((g a).within q));
}

-- A step that passes a token, and what follows it.
pub passed_Ends {ℓ κ} :
    {A : Type ℓ} {B : Type κ} {s : B → Bool} {m : Parsing A} {f : A → Parsing B}
    → Ends always m
    → ((a : A) → Ends never (f a))
    → Ends s (m >>= f)
passed_Ends {s = s} {m = m} {f = f} h g = record {
  within = λ p. and_then-Within always s (remaining p) (m p) f (h.within p) (λ a q w.
      Within-never s (remaining q) (remaining p) (f a q) (omega (arith, w)) ((g a).within q));
}

weaken_Within {ℓ} :
    {A : Type ℓ} (s : A → Bool) (n : ℕ) (r : Reply A) → Within s n r → Within never n r
weaken_Within s n (returns none q) w = w
weaken_Within s n (returns (some a) q) w = omega (arith, w)
weaken_Within s n runs_on w = w

pub give-Ends {ℓ} : {A : Type ℓ} {a : A} → Ends never (give a)
give-Ends = record { within = λ p. omega arith }

pub null-Ends {ℓ} : {A : Type ℓ} {s : A → Bool} → Ends s null
null-Ends = record { within = λ p. omega arith }

pub parser_error-remaining :
    (message : Bytes) (p : Parser) → remaining (parser_error message p) ≡ remaining p
unfolding parser_error report remaining parser_check
parser_error-remaining message p = elim (Bool-cases p.panic_mode) [
  | inl e ↦ rw e refl
  | inr e ↦ rw e refl
]

pub fail-Ends {ℓ} : {A : Type ℓ} {s : A → Bool} (message : Bytes) → Ends s (fail message)
fail-Ends message = record {
  within = λ p. let e = parser_error-remaining message p in omega (arith, e);
}

-- A token of a type other than the end is not the end.
pub check_not_eof :
    (p : Parser) (type : TokenType)
    → same_type type token_eof ≡ false
    → parser_check p type ≡ true
    → parser_check p token_eof ≡ false
unfolding parser_check
check_not_eof p type h e = ground arith

pub advance_less :
    (p : Parser) (type : TokenType)
    → same_type type token_eof ≡ false
    → parser_check p type ≡ true
    → remaining (parser_advance p) < remaining p
advance_less p type h e = parser_advance-shorter p (check_not_eof p type h e)

pub match_Ends :
    (type : TokenType) → same_type type token_eof ≡ false → Ends (λ b. b) (parser_match type)
unfolding parser_match
match_Ends type h = record {
  within = λ p. elim (Bool-cases (parser_check p type)) [
    | inl e ↦ let k = advance_less p type h e in rw e (omega (arith, k))
    | inr e ↦ rw e (omega arith)
  ];
}

pub expect_Ends :
    (type : TokenType) (message : Bytes)
    → same_type type token_eof ≡ false
    → Ends always (parser_expect type message)
unfolding parser_expect
expect_Ends type message h = record {
  within = λ p. elim (Bool-cases (parser_check p type)) [
    | inl e ↦ let k = advance_less p type h e in rw e (omega (arith, k))
    | inr e ↦ let k = parser_error-remaining message p in rw e (omega (arith, k))
  ];
}

pub takes-Ends :
    (type : TokenType) (message : Bytes)
    → same_type type token_eof ≡ false
    → Ends always (takes type message)
unfolding takes
takes-Ends type message h = record {
  within = λ p. elim (Bool-cases (parser_check p type)) [
    | inl e ↦ let k = advance_less p type h e in rw e (omega (arith, k))
    | inr e ↦ let k = parser_error-remaining message p in rw e (omega (arith, k))
  ];
}

-- A branch behind a token that is passed, beside another.
pub if_match_Ends {ℓ} :
    {A : Type ℓ} {s : A → Bool} (type : TokenType) {m n : Parsing A}
    → same_type type token_eof ≡ false
    → Ends never m
    → Ends s n
    → Ends s (parser_match type >>= (λ found. if found then m else n))
if_match_Ends {s = s} type {m = m} {n = n} e h g = record {
  within = λ p.
      and_then-Within (λ b. b) s (remaining p) (parser_match type p) _
        ((match_Ends type e).within p) (by_found (remaining p));
}
  where
    by_found :
        (k : ℕ) (b : Bool) (q : Parser)
        → to_nat b + remaining q ≤ k
        → Within s k ((if b then m else n) q)
    by_found k true q w = Within-never s (remaining q) k (m q) (omega (arith, w)) (h.within q)
    by_found k false q w = Within-le s (remaining q) k (n q) (omega (arith, w)) (g.within q)

pub weaken_Ends {ℓ} : {A : Type ℓ} {s : A → Bool} {m : Parsing A} → Ends s m → Ends never m
weaken_Ends {s = s} {m = m} h = record {
  within = λ p. weaken_Within s (remaining p) (m p) (h.within p);
}

-- Each branch comes to an end, behind a token that is not the end of the text.
abbrev pub Branches {ℓ} : {A : Type ℓ} → List (TokenType × Parsing A) → Type 0
Branches [] = Unit
Branches ((type, m) ∷ branches) =
    (same_type type token_eof ≡ false) × Ends never m × Branches branches

pub choose-Ends {ℓ} :
    {A : Type ℓ} {s : A → Bool} (branches : List (TokenType × Parsing A)) {otherwise : Parsing A}
    → Branches branches
    → Ends s otherwise
    → Ends s (choose branches otherwise)
unfolding choose
choose-Ends [] b h = h
choose-Ends ((type, m) ∷ branches) (e, k, b) h = if_match_Ends type e k (choose-Ends branches b h)

pub or_null-Within {ℓ} :
    {A : Type ℓ} (n : ℕ) (r : Reply A) → Within never n r → Within never n (or_null r)
or_null-Within n (returns none q) w = omega (arith, w)
or_null-Within n (returns (some a) q) w = w
or_null-Within n runs_on w = w

pub optional-Ends {ℓ} : {A : Type ℓ} {m : Parsing A} → Ends never m → Ends never (optional m)
optional-Ends {m = m} h = record { within = λ p. or_null-Within (remaining p) (m p) (h.within p) }

pub clause-Ends {ℓ} :
    {A : Type ℓ} {s : A → Bool} (type : TokenType) {m : Parsing A}
    → same_type type token_eof ≡ false
    → Ends s m
    → Ends never (clause type m)
unfolding clause
clause-Ends type e h = if_match_Ends type e (then_Ends (weaken_Ends h) (λ a. give-Ends)) give-Ends

-- Behind an item: the rest of the list if a comma stands there, and else the end of it.
rest_Within {ℓ} :
    {A : Type ℓ} (n : ℕ) (a : A) (rest : Parsing (List A)) (b : Bool) (q : Parser)
    → remaining q < n
    → Within always (remaining q) (rest q)
    → Within always n ((if b then rest >>= (λ more. give (a ∷ more)) else give (a ∷ [])) q)
rest_Within n a rest false q w h = omega (arith, w)
rest_Within n a rest true q w h =
    and_then-Within always always n (rest q) _
      (Within-le always (remaining q) n (rest q) (omega (arith, w)) h) (λ more r v. v)

items_from-Within {ℓ} :
    {A : Type ℓ} (fuel : ℕ) (item : Parsing A) (p : Parser)
    → Ends always item
    → remaining p < fuel
    → Within always (remaining p) (items_from fuel item p)
unfolding items_from
items_from-Within zero item p h f = absurd (omega (arith, f))
items_from-Within (suc fuel) item p h f =
    and_then-Within always always (remaining p) (item p) _ (h.within p) (λ a q w.
      and_then-Within_to (λ b. b) always (remaining q) (remaining p) (parser_match token_comma q) _
        (omega (arith, w)) ((match_Ends token_comma refl).within q)
        (λ b r v.
          rest_Within (remaining p) a (items_from fuel item) b r (omega (arith, v, w))
            (items_from-Within fuel item r h (omega (arith, v, w, f)))))

pub separated-Ends {ℓ} :
    {A : Type ℓ} {item : Parsing A} → Ends always item → Ends always (separated item)
unfolding separated
separated-Ends {item = item} h = record {
  within = λ p. items_from-Within (suc (remaining p)) item p h (omega arith);
}
