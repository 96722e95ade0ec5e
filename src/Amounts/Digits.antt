-- ===== src/Amounts/Digits.antt =====
-- The decimal digits of a number.

-- Fuel `n` is enough for `n`: with at least as much, printing does not depend on it.
use zephipay_backend.Amounts.{is_whole, Units, all_units, print, print_from, value, value_from}
use zephipay_backend.Common.{
  length, refl, ◌*◌, ◌<◌, Bool-cases, [], ap, arith, inl, inr, is_digit, ltb, suc, true, zero, ℕ,
  ◌%◌, ◌+◌, ◌/◌, ◌∙◌, ◌∷◌, ◌≡◌, ◌≤◌,
}

pub value-print_from :
    (fuel n : ℕ) (acc : Units) → n ≤ fuel → value (print_from fuel n acc) ≡ value_from n acc
unfolding print_from
value-print_from zero n acc h = ground arith
value-print_from (suc fuel) n acc h = elim (Bool-cases (ltb n 10)) [
  | inl last ↦ ground arith
  | inr more ↦ rw more (
      value-print_from fuel (n / 10) ((48 + n % 10) ∷ acc) (ground arith)
      ∙ ap (λ m. value_from m acc) (omega arith))
]

pub value-print : (n : ℕ) → value (print n) ≡ n
unfolding print
value-print n = value-print_from n n [] (omega arith)

pub digits-print_from :
    (fuel n : ℕ) (acc : Units)
    → all_units is_digit acc ≡ true
    → all_units is_digit (print_from fuel n acc) ≡ true
unfolding print_from
digits-print_from zero n acc h = ground arith
digits-print_from (suc fuel) n acc h = elim (Bool-cases (ltb n 10)) [
  | inl last ↦ ground arith
  | inr more ↦ rw more (digits-print_from fuel (n / 10) ((48 + n % 10) ∷ acc) (ground arith))
]

-- 10 ^ k
abbrev pub pow10 : ℕ → ℕ
pow10 zero = 1
pow10 (suc k) = 10 * pow10 k

length-print_from :
    (k fuel n : ℕ) (acc : Units)
    → n < pow10 (suc k)
    → length (print_from fuel n acc) ≤ suc k + length acc
unfolding print_from
length-print_from k zero n acc h = ground arith
length-print_from zero (suc fuel) n acc h = ground arith
length-print_from (suc k) (suc fuel) n acc h = elim (Bool-cases (ltb n 10)) [
  | inl last ↦ ground arith
  | inr more ↦
      rw more (omega (arith, length-print_from k fuel (n / 10) ((48 + n % 10) ∷ acc) (omega arith)))
]

pub length-print : (k n : ℕ) → n < pow10 (suc k) → length (print n) ≤ suc k
unfolding print
length-print k n h = omega (arith, length-print_from k n n [] h)

-- The first unit of a printed number, and that no number but 0 begins with 0.
whole-print_from :
    (fuel n : ℕ) (acc : Units)
    → n ≤ fuel
    → 0 < n
    → all_units is_digit acc ≡ true
    → is_whole (print_from fuel n acc) ≡ true
unfolding print_from is_whole
whole-print_from zero n acc h p d = absurd (omega arith)
whole-print_from (suc fuel) n [] h p d = elim (Bool-cases (ltb n 10)) [
  | inl last ↦ ground arith
  | inr more ↦ rw more (
      whole-print_from fuel (n / 10) ((48 + n % 10) ∷ []) (ground arith) (ground arith)
        (ground arith))
]
whole-print_from (suc fuel) n (a ∷ acc) h p d = elim (Bool-cases (ltb n 10)) [
  | inl last ↦ ground arith
  | inr more ↦ rw more (
      whole-print_from fuel (n / 10) ((48 + n % 10) ∷ a ∷ acc) (ground arith) (ground arith)
        (ground arith))
]

pub whole-print : (n : ℕ) → is_whole (print n) ≡ true
unfolding print
whole-print zero = unfold print_from is_whole in refl
whole-print (suc n) = whole-print_from (suc n) (suc n) [] (omega arith) (omega arith) refl

pub digits-print : (n : ℕ) → all_units is_digit (print n) ≡ true
unfolding print
digits-print n = digits-print_from n n [] refl
