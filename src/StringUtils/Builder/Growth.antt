-- ===== src/StringUtils/Builder/Growth.antt =====
-- The buffer of the string builder of src/utils/string_utils.c, while `realloc` succeeds.
use schema_compare_c.Base.{
  ℕ, zero, suc, ◌+◌, ◌*◌, ◌%◌, ◌^◌, ◌≤◌, ◌<◌, ◌≡◌, refl, sym, subst, ap, ◌∙◌, Bool, true, false,
  inl, inr, Bool-cases, [], ◌∷◌, ◌++◌, some, leb, arith, length, length-append,
}
use native.Mathlib.Nat.{pow-succ', mul_assoc}
use schema_compare_c.Text.{Bytes}
use schema_compare_c.StringUtils.Builder.{
  StringBuilder, sb_create, double_until, reallocate, sb_ensure_capacity, write, sb_append,
  sb_append_char,
}

-- The contents and the NUL fit in the buffer, and the capacity is its size.
pub record IsSound (sb : StringBuilder) : Type 0 where
  pub fits : length sb.contents < sb.allocated
  pub known : sb.capacity ≡ sb.allocated

pub sb_create-IsSound : IsSound sb_create
unfolding sb_create
sb_create-IsSound = record { fits = omega arith; known = refl }

double_until_step :
    (fuel capacity required : ℕ)
    → leb required capacity ≡ false
    → capacity * 2 % 2 ^ 64 ≡ capacity * 2
    → double_until (suc fuel) capacity required ≡ double_until fuel (capacity * 2) required
unfolding double_until
double_until_step fuel capacity required e small =
    rw (e, double_until) (ap (λ c. double_until fuel c required) small)

-- With the fuel that the exponent says, the loop ends at a capacity that is enough.
double_until_enough :
    (fuel capacity required : ℕ)
    → 0 < capacity
    → required ≤ 2 ^ 63
    → required ≤ capacity * 2 ^ fuel
    → (n : ℕ) × (double_until (suc fuel) capacity required ≡ some n) × (required ≤ n)
unfolding double_until
double_until_enough zero capacity required p b h = (capacity, ground (arith, h), omega (arith, h))
double_until_enough (suc fuel) capacity required p b h = elim (Bool-cases (leb required capacity)) [
  | inl e ↦ (capacity, rw (e, double_until) refl, ground (arith, e))
  | inr e ↦
      let less : capacity < required = ground (arith, e) in
      let small : capacity * 2 % 2 ^ 64 ≡ capacity * 2 = omega (arith, less, b) in
      let rest = double_until_enough fuel (capacity * 2) required (omega (arith, p)) b (
        subst (λ n. required ≤ n)
          (ap (λ n. capacity * n) (pow-succ' 2 fuel) ∙ sym (mul_assoc capacity 2 (2 ^ fuel))) h) in
      (rest.0, double_until_step (suc fuel) capacity required e small ∙ rest.1, rest.2)
]

module _ (realloc_succeeds : ℕ → Bool) (succeeds : (n : ℕ) → realloc_succeeds n ≡ true) where
  -- There is room for what is to come, and the contents stay.
  ensure_capacity-IsSound :
      (sb : StringBuilder) (additional : ℕ)
      → IsSound sb
      → length sb.contents + additional < 2 ^ 63
      → (sb' : StringBuilder) × (sb_ensure_capacity realloc_succeeds sb additional ≡ some sb')
        × (sb'.contents ≡ sb.contents)
        × (length sb.contents + additional < sb'.allocated)
        × (sb'.capacity ≡ sb'.allocated)
  unfolding sb_ensure_capacity reallocate
  ensure_capacity-IsSound sb additional h b =
      let required = (length sb.contents + additional + 1) % 2 ^ 64 in
      let exact : required ≡ length sb.contents + additional + 1 = omega (arith, b) in
      elim (Bool-cases (leb required sb.capacity)) [
        | inl e ↦ (sb, rw (e, sb_ensure_capacity) refl, refl, room e, h.known)
        | inr e ↦
            let enough =
              double_until_enough 63 sb.capacity required (omega (arith, h.fits, h.known))
                (omega (arith, b)) (omega (arith, b, h.fits, h.known)) in
            (
              record sb { allocated = enough.0; capacity = enough.0 },
              rw (e, sb_ensure_capacity, enough.1, reallocate, succeeds enough.0) refl,
              refl,
              omega (arith, enough.2, exact),
              refl,
            )
      ]
    where
      room :
          leb ((length sb.contents + additional + 1) % 2 ^ 64) sb.capacity ≡ true
          → length sb.contents + additional < sb.allocated
      room e = ground (arith, e, b, h.known)

  -- While `realloc` succeeds, appending a string that leaves the contents shorter than half of the
  -- address space ends, appends exactly that string, and leaves the builder sound: the contents and
  -- the NUL after them lie in the buffer.
  pub sb_append_lem :
      (sb : StringBuilder) (str : Bytes)
      → IsSound sb
      → length sb.contents + length str < 2 ^ 63
      → (sb' : StringBuilder) × (sb_append realloc_succeeds sb (some str) ≡ some sb')
        × (sb'.contents ≡ sb.contents ++ str)
        × IsSound sb'
  unfolding sb_append write
  sb_append_lem sb str h b =
      let roomy = ensure_capacity-IsSound sb (length str) h b in
      (
        record (roomy.0) { contents = sb.contents ++ str },
        ap (write realloc_succeeds str) roomy.1
            ∙ ap (λ s. some (record (roomy.0) { contents = s ++ str })) roomy.2,
        refl,
        record { fits = rw length-append roomy.3; known = roomy.4 },
      )

  -- The same for one character.
  pub sb_append_char_lem :
      (sb : StringBuilder) (c : ℕ)
      → IsSound sb
      → length sb.contents + 1 < 2 ^ 63
      → (sb' : StringBuilder) × (sb_append_char realloc_succeeds sb c ≡ some sb')
        × (sb'.contents ≡ sb.contents ++ c ∷ [])
        × IsSound sb'
  unfolding sb_append_char write
  sb_append_char_lem sb c h b =
      let roomy = ensure_capacity-IsSound sb 1 h b in
      (
        record (roomy.0) { contents = sb.contents ++ c ∷ [] },
        ap (write realloc_succeeds (c ∷ [])) roomy.1
            ∙ ap (λ s. some (record (roomy.0) { contents = s ++ c ∷ [] })) roomy.2,
        refl,
        record { fits = rw length-append roomy.3; known = roomy.4 },
      )
