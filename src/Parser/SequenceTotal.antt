-- ===== src/Parser/SequenceTotal.antt =====
-- That `parse_sequence_options` of src/parser/parse_constraint.c comes to an end.
use schema_compare_c.Base.{
  ℕ, zero, suc, ◌+◌, ◌≤◌, ◌<◌, refl, inl, inr, Bool-cases, ◌||◌, Option, none, some, is_some, arith,
  to_nat,
}
use schema_compare_c.Text.{Bytes}
use schema_compare_c.Ddl.Constraints.{SequenceOptions}
use schema_compare_c.Token.{token_rparen, token_eof, token_number}
use schema_compare_c.Parser.{Parser, parser_check, remaining, Parsing, give}
use schema_compare_c.Parser.Ends.{
  Within, Ends, never, Within-le, and_then-Within, then_Ends, passed_Ends, give-Ends, fail-Ends,
  takes-Ends, choose-Ends,
}
use schema_compare_c.Parser.Parts.{
  number_after, no_option, increment_option, start_option, sequence_option, options_from,
  parse_sequence_options,
}

number_after-Ends : (message : Bytes) → Ends never (number_after message)
unfolding number_after
number_after-Ends message = passed_Ends (takes-Ends token_number _ refl) (λ _. give-Ends)

no_option-Ends : (opts : SequenceOptions) → Ends never (no_option opts)
unfolding no_option
no_option-Ends opts =
    choose-Ends _ (refl, give-Ends, (refl, give-Ends, (refl, give-Ends, tt))) (fail-Ends _)

increment_option-Ends : (opts : SequenceOptions) → Ends never (increment_option opts)
unfolding increment_option
increment_option-Ends opts =
    choose-Ends _ (refl, then_Ends (number_after-Ends _) (λ _. give-Ends), tt) (fail-Ends _)

start_option-Ends : (opts : SequenceOptions) → Ends never (start_option opts)
unfolding start_option
start_option-Ends opts =
    choose-Ends _ (refl, then_Ends (number_after-Ends _) (λ _. give-Ends), tt) (fail-Ends _)

pub none-Ends {ℓ} : {A : Type ℓ} → Ends is_some (give {A = Option A} none)
none-Ends = record { within = λ p. omega arith }

sequence_option-Ends : (opts : SequenceOptions) → Ends is_some (sequence_option opts)
unfolding sequence_option
sequence_option-Ends opts =
    choose-Ends _
      (
        refl,
        increment_option-Ends opts,
        (
          refl,
          start_option-Ends opts,
          (
            refl,
            no_option-Ends opts,
            (
              refl,
              then_Ends (number_after-Ends _) (λ _. give-Ends),
              (
                refl,
                then_Ends (number_after-Ends _) (λ _. give-Ends),
                (refl, then_Ends (number_after-Ends _) (λ _. give-Ends), (refl, give-Ends, tt)),
              ),
            ),
          ),
        ),
      )
      none-Ends

options_from-Within :
    (fuel : ℕ) (opts : SequenceOptions) (p : Parser)
    → remaining p < fuel
    → Within never (remaining p) (options_from fuel opts p)
unfolding options_from
options_from-Within zero opts p h = absurd (omega (arith, h))
options_from-Within (suc fuel) opts p h =
    elim (Bool-cases (parser_check p token_rparen || parser_check p token_eof)) [
      | inl e ↦ rw e (omega arith)
      | inr e ↦ rw e (
          and_then-Within is_some never (remaining p) (sequence_option opts p) _
            ((sequence_option-Ends opts).within p) (by_option (options_from-Within fuel)))
    ]
  where
    by_option :
        ((o : SequenceOptions)
          → (q : Parser) → remaining q < fuel
          → Within never (remaining q) (options_from fuel o q))
        → (o : Option SequenceOptions) (q : Parser) → to_nat (is_some o) + remaining q ≤ remaining p
        → Within never (remaining p) (
            (elim o as (λ _. Parsing SequenceOptions) [
              | none ↦ give opts
              | some opts' ↦ options_from fuel opts'
            ])
              q)
    by_option go none q w = omega (arith, w)
    by_option go (some o) q w =
        Within-le never (remaining q) (remaining p) _ (omega (arith, w))
          (go o q (omega (arith, w, h)))

pub parse_sequence_options-Ends : Ends never parse_sequence_options
unfolding parse_sequence_options
parse_sequence_options-Ends = record {
  within = λ p. options_from-Within (suc (remaining p)) _ p (omega arith);
}
