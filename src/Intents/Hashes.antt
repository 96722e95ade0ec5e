-- ===== src/Intents/Hashes.antt =====
-- The hash of a request to a wallet, payments/requestHash.ts, and the comparison of two hashes by
-- services/paymentIntentService.ts. `direct_digest` is SHA-256 of the canonical text.
use zephipay_backend.Common.{
  arith, refl, ◌≡◌, Bool, List, Option, Result, String, eqb, err, false, if◌then◌else◌, is_digit,
  is_positive, leb, none, not, ok, some, true, ℕ, ℤ, ◌&&◌, ◌*◌, ◌+◌, ◌-◌,
}
use zephipay_backend.Payments.Replay.{HashError, amount_not_positive}
use Prim.Native.Char.{code}
use Prim.Native.String.{String as Text, [], ◌∷◌}
use mathlib.Core.List.{[] as none_left, ◌∷◌ as and_then}

pub record CanonicalPaymentRequest : Type 0 where
  pub actor_subject : String
  pub network : String
  pub mint_address : String
  pub recipient_address : String
  pub amount_raw : ℤ
  pub purpose : Option String

abbrev pub DirectDigest : Type 0
DirectDigest = CanonicalPaymentRequest → String

unfoldable pub create_payment_request_hash :
    DirectDigest → CanonicalPaymentRequest → Result HashError String
create_payment_request_hash direct_digest input =
    if not (is_positive input.amount_raw) then err amount_not_positive else ok (direct_digest input)

-- The digits of a hexadecimal text.
abbrev hex_digit : ℕ → Option ℕ
hex_digit c =
    if is_digit c
    then some (c - b'0')
    else if leb b'a' c && leb c b'f'
    then some (c - b'a' + 10)
    else if leb b'A' c && leb c b'F'
    then some (c - b'A' + 10)
    else none

abbrev push_byte : Option ℕ → Option ℕ → List ℕ → List ℕ
push_byte (some high) (some low) rest = and_then (high * 16 + low) rest
push_byte _ _ rest = none_left

-- `Buffer.from(text, "hex")`: the pairs of digits up to the first that is none.
pub hex_bytes : Text → List ℕ
hex_bytes [] = none_left
hex_bytes (a ∷ []) = none_left
hex_bytes (a ∷ b ∷ s) = push_byte (hex_digit (code a)) (hex_digit (code b)) (hex_bytes s)

pub same_bytes : List ℕ → List ℕ → Bool
same_bytes none_left none_left = true
same_bytes (and_then x xs) (and_then y ys) = eqb x y && same_bytes xs ys
same_bytes _ _ = false

-- `left.length === right.length && timingSafeEqual(left, right)`
unfoldable pub hashes_agree : String → String → Bool
unfolding hex_bytes same_bytes
hashes_agree stored submitted = same_bytes (hex_bytes stored) (hex_bytes submitted)

same_bytes-eq : (xs ys : List ℕ) → same_bytes xs ys ≡ true → xs ≡ ys
unfolding same_bytes
same_bytes-eq none_left none_left h = refl
same_bytes-eq none_left (and_then y ys) h = absurd (ground arith)
same_bytes-eq (and_then x xs) none_left h = absurd (ground arith)
same_bytes-eq (and_then x xs) (and_then y ys) h = ground (arith, h, same_bytes-eq xs ys)

-- Hashes that agree have the same bytes.
pub hashes_agree-bytes :
    (stored submitted : String)
    → hashes_agree stored submitted ≡ true
    → hex_bytes stored ≡ hex_bytes submitted
unfolding hashes_agree
hashes_agree-bytes stored submitted h = same_bytes-eq (hex_bytes stored) (hex_bytes submitted) h
