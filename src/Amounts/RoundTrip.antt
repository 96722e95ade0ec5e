-- ===== src/Amounts/RoundTrip.antt =====
-- Printing an amount and reading it back.

use zephipay_backend.Amounts.{
  not_positive, out_of_range, is_whole, Units, after_dot, all_units, before_dot, has_dot,
  matches_amount, pad_end, pad_start, parse_amount, print, raw_usdc_to_display, strip_zeros,
  usdc_amount_to_raw, value,
}
use zephipay_backend.Common.{
  err, ◌↔◌, ◌*◌, ◌+◌, ◌/◌, [], ap, arith, false, is_digit, length, ok, refl, true, ℕ, ◌%◌, ◌++◌,
  ◌<◌, ◌∙◌, ◌∷◌, ◌≡◌, ◌≤◌,
}
use zephipay_backend.Amounts.Digits.{whole-print, digits-print, length-print, value-print}
use zephipay_backend.Amounts.Padding.{
  length-strip_zeros, digits-pad_start, digits-strip_zeros, length-pad_start, pad_end-strip_zeros,
  value-pad_start,
}

no_dot_of_digits : (cs : Units) → all_units is_digit cs ≡ true → has_dot cs ≡ false
no_dot_of_digits [] h = refl
no_dot_of_digits (c ∷ cs) h = ground (arith, no_dot_of_digits cs)

before_dot_plain : (cs : Units) → all_units is_digit cs ≡ true → before_dot cs ≡ cs
before_dot_plain [] h = refl
before_dot_plain (c ∷ cs) h = ground (arith, before_dot_plain cs)

after_dot_plain : (cs : Units) → all_units is_digit cs ≡ true → after_dot cs ≡ []
after_dot_plain [] h = refl
after_dot_plain (c ∷ cs) h = ground (arith, after_dot_plain cs)

before_dot-append :
    (cs ds : Units) → all_units is_digit cs ≡ true → before_dot (cs ++ b'.' ∷ ds) ≡ cs
before_dot-append [] ds h = refl
before_dot-append (c ∷ cs) ds h = ground (arith, before_dot-append cs ds)

after_dot-append : (cs ds : Units) → all_units is_digit cs ≡ true → after_dot (cs ++ b'.' ∷ ds) ≡ ds
after_dot-append [] ds h = refl
after_dot-append (c ∷ cs) ds h = ground (arith, after_dot-append cs ds)

-- The six digits of the millionths.
abbrev millionths : ℕ → Units
millionths raw = pad_start 6 (print (raw % 1000000))

length-millionths : (raw : ℕ) → length (millionths raw) ≡ 6
length-millionths raw =
    length-pad_start 6 (print (raw % 1000000)) (length-print 5 (raw % 1000000) (omega arith))

value-millionths : (raw : ℕ) → value (pad_end 6 (strip_zeros (millionths raw))) ≡ raw % 1000000
value-millionths raw =
    ap value (rw (length-millionths raw) at (pad_end-strip_zeros (millionths raw)))
    ∙ value-pad_start 6 (print (raw % 1000000))
    ∙ value-print (raw % 1000000)

digits-fraction : (raw : ℕ) → all_units is_digit (strip_zeros (millionths raw)) ≡ true
digits-fraction raw =
    digits-strip_zeros (millionths raw)
      (digits-pad_start 6 (print (raw % 1000000)) (digits-print (raw % 1000000)))

read_plain :
    (w : Units)
    → all_units is_digit w ≡ true
    → is_whole w ≡ true
    → usdc_amount_to_raw w ≡ ok (value w * 1000000 + value (pad_end 6 []))
unfolding usdc_amount_to_raw matches_amount
read_plain w digits whole =
    rw (before_dot_plain w digits, after_dot_plain w digits)
      (ground (arith, no_dot_of_digits w digits))

read_dotted :
    (w f : Units)
    → all_units is_digit w ≡ true
    → is_whole w ≡ true
    → all_units is_digit f ≡ true
    → 0 < length f
    → length f ≤ 6
    → usdc_amount_to_raw (w ++ b'.' ∷ f) ≡ ok (value w * 1000000 + value (pad_end 6 f))
unfolding usdc_amount_to_raw matches_amount
read_dotted w f digits whole fdigits some_digit short =
    rw (before_dot-append w f digits, after_dot-append w f digits) (ground arith)

-- What is shown of an amount, by its fraction.
shown : Units → Units → Units
shown w f = elim f [ [] ↦ w | c ∷ cs ↦ w ++ b'.' ∷ c ∷ cs ]

read_shown :
    (w f : Units)
    → all_units is_digit w ≡ true
    → is_whole w ≡ true
    → all_units is_digit f ≡ true
    → length f ≤ 6
    → usdc_amount_to_raw (shown w f) ≡ ok (value w * 1000000 + value (pad_end 6 f))
unfolding shown
read_shown w [] digits whole fdigits short = read_plain w digits whole
read_shown w (c ∷ cs) digits whole fdigits short =
    read_dotted w (c ∷ cs) digits whole fdigits (omega arith) short

-- Every amount that is shown is read back as itself.
pub usdc_amount_to_raw-raw_usdc_to_display :
    (raw : ℕ) → usdc_amount_to_raw (raw_usdc_to_display raw) ≡ ok raw
unfolding raw_usdc_to_display shown
usdc_amount_to_raw-raw_usdc_to_display raw =
    read_shown (print (raw / 1000000)) (strip_zeros (millionths raw)) (digits-print (raw / 1000000))
      (whole-print (raw / 1000000)) (digits-fraction raw)
      (omega (arith, length-strip_zeros (millionths raw), length-millionths raw))
    ∙ ap ok (rw (value-print (raw / 1000000), value-millionths raw) (omega arith))

-- The amount that is shown of a number of millionths is accepted, as it is given, exactly when that
-- number is from 1 to 9223372036854775807, the largest of a PostgreSQL bigint; of nothing the error is
-- that it is not positive, and of more that it is out of range.
pub parse_amount-raw_usdc_to_display :
    (raw : ℕ)
    → ((parse_amount (raw_usdc_to_display raw) ≡ ok (raw_usdc_to_display raw))
        ↔ ((0 < raw) × (raw < 9223372036854775808)))
      × ((parse_amount (raw_usdc_to_display raw) ≡ err not_positive) ↔ (raw ≡ 0))
      × ((parse_amount (raw_usdc_to_display raw) ≡ err out_of_range) ↔ (9223372036854775808 ≤ raw))
unfolding parse_amount
parse_amount-raw_usdc_to_display raw =
    let read = usdc_amount_to_raw-raw_usdc_to_display raw in
    (
      ((λ h. ground (arith, read)), (λ h. ground (arith, read, h.0, h.1))),
      ((λ h. ground (arith, read)), (λ h. ground (arith, read))),
      ((λ h. ground (arith, read)), (λ h. ground (arith, read))),
    )
