-- ===== src/Amounts.antt =====
-- The amounts of payments/paymentIntentValidation.ts: decimal USDC text and raw millionths. A text
-- is the list of its code units.
pub mod Digits
pub mod Padding
pub mod RoundTrip
use zephipay_backend.Json.{fraction}
use zephipay_backend.Common.{
  Bool, List, Result, [], any, eqb, err, false, if◌then◌else◌, is_digit, leb, length, ltb, not, ok,
  suc, throw_if, true, zero, ℕ, ◌%◌, ◌&&◌, ◌*◌, ◌++◌, ◌+◌, ◌-◌, ◌/◌, ◌>>=◌, ◌>>◌, ◌^◌, ◌||◌, ◌∷◌,
}

abbrev pub Units : Type 0
Units = List ℕ

abbrev pub is_nonzero_digit : ℕ → Bool
is_nonzero_digit c = leb b'1' c && leb c b'9'

abbrev pub all_units : (ℕ → Bool) → Units → Bool
all_units p [] = true
all_units p (c ∷ cs) = p c && all_units p cs

-- `BigInt(text)` of a run of digits.
abbrev pub value_from : ℕ → Units → ℕ
value_from n [] = n
value_from n (c ∷ cs) = value_from (n * 10 + (c - 48)) cs

abbrev pub value : Units → ℕ
value cs = value_from 0 cs

-- `value.split(".")`, its first two parts; the second is "" where there is none.
abbrev pub before_dot : Units → Units
before_dot [] = []
before_dot (c ∷ cs) = elim (eqb c b'.') [ true ↦ [] | false ↦ c ∷ before_dot cs ]

abbrev pub after_dot : Units → Units
after_dot [] = []
after_dot (c ∷ cs) = elim (eqb c b'.') [ true ↦ cs | false ↦ after_dot cs ]

abbrev pub has_dot : Units → Bool
has_dot cs = any (λ c. eqb c b'.') cs

-- (?:0|[1-9]\d*)
unfoldable pub is_whole : Units → Bool
is_whole [] = false
is_whole (c ∷ []) = is_digit c
is_whole (c ∷ d ∷ cs) = is_nonzero_digit c && all_units is_digit (d ∷ cs)

-- \d{1,6}
unfoldable pub is_fraction : Units → Bool
is_fraction cs = leb 1 (length cs) && leb (length cs) 6 && all_units is_digit cs

-- /^(?:0|[1-9]\d*)(?:\.\d{1,6})?$/
unfoldable pub matches_amount : Units → Bool
unfolding is_whole is_fraction
matches_amount cs = is_whole (before_dot cs) && (not (has_dot cs) || is_fraction (after_dot cs))

unfoldable pub zeros : ℕ → Units
zeros zero = []
zeros (suc n) = b'0' ∷ zeros n

-- `text.padEnd(n, "0")` and `text.padStart(n, "0")`
unfoldable pub pad_end : ℕ → Units → Units
unfolding zeros
pad_end n cs = cs ++ zeros (n - length cs)

unfoldable pub pad_start : ℕ → Units → Units
unfolding zeros
pad_start n cs = zeros (n - length cs) ++ cs

-- `text.replace(/0+$/, "")`
unfoldable pub strip_zeros : Units → Units
strip_zeros [] = []
strip_zeros (c ∷ cs) =
    let rest = strip_zeros cs in
    elim rest [ [] ↦ (if eqb c b'0' then [] else c ∷ []) | d ∷ ds ↦ c ∷ d ∷ ds ]

-- `value.toString()`, on fuel: each round takes one digit off.
unfoldable pub print_from : ℕ → ℕ → Units → Units
print_from zero n acc = (48 + n % 10) ∷ acc
print_from (suc fuel) n acc =
    let more = print_from fuel (n / 10) ((48 + n % 10) ∷ acc) in
    if ltb n 10 then (48 + n % 10) ∷ acc else more

unfoldable pub print : ℕ → Units
unfolding print_from
print n = print_from n n []

pub data AmountError : Type 0 where
  malformed not_positive out_of_range : AmountError

-- `usdcAmountToRaw`
unfoldable pub usdc_amount_to_raw : Units → Result AmountError ℕ
usdc_amount_to_raw given =
    if not (matches_amount given)
    then err malformed
    else ok (value (before_dot given) * 1000000 + value (pad_end 6 (after_dot given)))

-- `rawUsdcToDisplay`
unfoldable pub raw_usdc_to_display : ℕ → Units
raw_usdc_to_display raw =
    let fraction = strip_zeros (pad_start 6 (print (raw % 1000000))) in
    elim fraction [ [] ↦ print (raw / 1000000) | c ∷ cs ↦ print (raw / 1000000) ++ b'.' ∷ c ∷ cs ]

abbrev pub postgres_max : ℕ
postgres_max = 2 ^ 63 - 1

-- `parseAmount`: the text itself, if it stands for a positive amount in range.
unfoldable pub parse_amount : Units → Result AmountError Units
parse_amount given = do
  raw ← usdc_amount_to_raw given
  throw_if (leb raw 0) not_positive
  throw_if (ltb postgres_max raw) out_of_range
  ok given
