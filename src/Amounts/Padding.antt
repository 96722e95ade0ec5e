-- ===== src/Amounts/Padding.antt =====
-- Padding with zeros, and taking them off again.

use zephipay_backend.Common.{
  Bool-cases, eqb, if◌then◌else◌, inl, inr, [], ap, arith, is_digit, length, length-append, refl,
  suc, sym, true, zero, ℕ, ◌++◌, ◌+◌, ◌-◌, ◌∙◌, ◌∷◌, ◌≡◌, ◌≤◌,
}
use zephipay_backend.Amounts.{Units, all_units, pad_end, pad_start, strip_zeros, value, zeros}

pub length-zeros : (n : ℕ) → length (zeros n) ≡ n
unfolding zeros
length-zeros zero = refl
length-zeros (suc n) = ap suc (length-zeros n)

pub digits-zeros : (n : ℕ) → all_units is_digit (zeros n) ≡ true
unfolding zeros
digits-zeros zero = refl
digits-zeros (suc n) = digits-zeros n

value-zeros-append : (n : ℕ) (cs : Units) → value (zeros n ++ cs) ≡ value cs
unfolding zeros
value-zeros-append zero cs = refl
value-zeros-append (suc n) cs = value-zeros-append n cs

pub digits-append :
    (cs ds : Units)
    → all_units is_digit cs ≡ true
    → all_units is_digit ds ≡ true
    → all_units is_digit (cs ++ ds) ≡ true
digits-append [] ds h k = k
digits-append (c ∷ cs) ds h k = ground (arith, digits-append cs ds)

pub value-pad_start : (n : ℕ) (cs : Units) → value (pad_start n cs) ≡ value cs
unfolding pad_start
value-pad_start n cs = value-zeros-append (n - length cs) cs

pub length-pad_start : (n : ℕ) (cs : Units) → length cs ≤ n → length (pad_start n cs) ≡ n
unfolding pad_start
length-pad_start n cs h =
    omega (arith, length-append (zeros (n - length cs)) cs, length-zeros (n - length cs))

pub digits-pad_start :
    (n : ℕ) (cs : Units) → all_units is_digit cs ≡ true → all_units is_digit (pad_start n cs) ≡ true
unfolding pad_start
digits-pad_start n cs h = digits-append (zeros (n - length cs)) cs (digits-zeros (n - length cs)) h

-- The step of `strip_zeros` over what is left behind it.
abbrev strip_step : ℕ → Units → Units
strip_step c rest = elim rest [ [] ↦ (if eqb c b'0' then [] else c ∷ []) | d ∷ ds ↦ c ∷ d ∷ ds ]

strip_step-append :
    (c : ℕ) (rest : Units) (k : ℕ)
    → (m : ℕ) × (c ∷ (rest ++ zeros k) ≡ strip_step c rest ++ zeros m)
unfolding zeros
strip_step-append c [] k = elim (Bool-cases (eqb c b'0')) [
  | inl dropped ↦ (suc k, ground arith)
  | inr kept ↦ (k, rw kept)
]
strip_step-append c (d ∷ ds) k = (k, refl)

-- What is stripped is a run of zeros.
strip-append-zeros : (cs : Units) → (k : ℕ) × (cs ≡ strip_zeros cs ++ zeros k)
unfolding strip_zeros zeros
strip-append-zeros [] = (0, refl)
strip-append-zeros (c ∷ cs) =
    let (k, e) = strip-append-zeros cs in
    let (m, e') = strip_step-append c (strip_zeros cs) k in (m, ap (λ ds. c ∷ ds) e ∙ e')

pub pad_end-strip_zeros : (cs : Units) → pad_end (length cs) (strip_zeros cs) ≡ cs
unfolding pad_end
pad_end-strip_zeros cs =
    let (k, e) = strip-append-zeros cs in
    let l : length cs ≡ length (strip_zeros cs) + k =
      ap length e
      ∙ length-append (strip_zeros cs) (zeros k)
      ∙ ap (λ m. length (strip_zeros cs) + m) (length-zeros k) in
    let m : length cs - length (strip_zeros cs) ≡ k = omega arith in rw m (sym e)

pub digits-strip_zeros :
    (cs : Units) → all_units is_digit cs ≡ true → all_units is_digit (strip_zeros cs) ≡ true
unfolding strip_zeros
digits-strip_zeros [] h = refl
digits-strip_zeros (c ∷ cs) h = ground (arith, digits-strip_zeros cs)

pub length-strip_zeros : (cs : Units) → length (strip_zeros cs) ≤ length cs
unfolding strip_zeros
length-strip_zeros [] = omega arith
length-strip_zeros (c ∷ cs) = ground (arith, length-strip_zeros cs)
