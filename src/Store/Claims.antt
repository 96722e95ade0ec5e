-- ===== src/Store/Claims.antt =====
-- The operations that admit actors and claim payments: `createAllowlistEntry`,
-- `claimIdempotencyKey`, `replayPaymentIdentityKey`, `claimPaymentIdentityKey`,
-- `claimSyntheticPaymentIdentityKey`.

use zephipay_backend.Common.{
  byte_length, concat, Bool, Option, Result, String, err, false, get_or, if◌then◌else◌, is_hash,
  is_positive, is_some, ltb, negsuc, none, nonempty, not, ok, pos, some, throw_if, trim, true,
  truthy, utf16_length, ℤ, ◌&&◌, ◌==◌, ◌>>=◌, ◌>>◌, ◌||◌,
}
use zephipay_backend.Payments.Types.{
  no_evidence, CreatePaymentInput, PaymentEvent, PaymentRecord, awaiting_confirmation, created,
  direct_wallet,
}
use zephipay_backend.Common.Dict.{get, has, set}
use zephipay_backend.Json.{JsonObject}
use zephipay_backend.Store.Events.{InternalPaymentEventInput, append_event, require_payment}
use zephipay_backend.Store.State.{
  AllowlistEntry, Clock, Op, PaymentStore, StoreError, allowlist_entry_exists,
  allowlist_entry_missing, invalid_actor_subject, invalid_amount, invalid_expiry_time,
  invalid_idempotency_key, invalid_purpose, invalid_request_hash, payment_exists, unsupported_asset,
}

pub data ClaimOutcome : Type 0 where
  claimed existing hash_conflict : ClaimOutcome

pub record IdempotencyClaim : Type 0 where
  pub outcome : ClaimOutcome
  pub payment : PaymentRecord

pub record CreateAllowlistEntryInput : Type 0 where
  pub actor_subject : String
  pub enabled : Option Bool
  pub expires_at : Option String
  pub note : Option String

-- `Date.parse`, in milliseconds; `none` is NaN.
abbrev pub DateParser : Type 0
DateParser = String → Option ℤ

abbrev pub lt_ℤ : ℤ → ℤ → Bool
lt_ℤ (pos a) (pos b) = ltb a b
lt_ℤ (pos a) (negsuc b) = false
lt_ℤ (negsuc a) (pos b) = true
lt_ℤ (negsuc a) (negsuc b) = ltb b a

-- `Date.parse(a) <= Date.parse(b)`: false where either is NaN.
abbrev pub date_le : Option ℤ → Option ℤ → Bool
date_le (some a) (some b) = not (lt_ℤ b a)
date_le _ _ = false

abbrev expiry_invalid : DateParser → Option String → String → Bool
expiry_invalid parse none added_at = false
expiry_invalid parse (some expires) added_at =
    nonempty expires && (not (is_some (parse expires)) || date_le (parse expires) (parse added_at))

unfoldable pub validate_actor_subject : String → Result StoreError (Unit {0})
validate_actor_subject actor =
    throw_if (ltb (utf16_length (trim actor)) 1 || ltb 255 (utf16_length actor))
      invalid_actor_subject

unfoldable pub create_allowlist_entry :
    DateParser → Clock → CreateAllowlistEntryInput → Op AllowlistEntry
create_allowlist_entry parse clock input s =
    let entry : AllowlistEntry = record {
      actor_subject = input.actor_subject;
      enabled = get_or input.enabled true;
      added_at = clock 0;
      expires_at = input.expires_at;
      revoked_at = none;
      note = input.note;
    } in
    elim (throw_if (has input.actor_subject s.allowlist) allowlist_entry_exists
      >> validate_actor_subject input.actor_subject
      >> throw_if (expiry_invalid parse input.expires_at (clock 0)) invalid_expiry_time) [
        | err e ↦ (err e, s)
        | ok _ ↦ (ok entry, record s { allowlist = set input.actor_subject entry s.allowlist })
      ]

-- An empty purpose has no byte, and so is refused; no purpose at all is not.
abbrev purpose_invalid : Option String → Bool
purpose_invalid none = false
purpose_invalid (some purpose) = ltb (byte_length purpose) 1 || ltb 120 (byte_length purpose)

unfoldable pub validate_create_payment : CreatePaymentInput → Result StoreError (Unit {0})
validate_create_payment input = do
  validate_actor_subject input.actor_subject
  throw_if (not (is_positive input.amount_raw)) invalid_amount
  throw_if
      (not (input.network == "solana-devnet")
        || not (input.rail == "solana")
        || not (input.asset == "USDC"))
      unsupported_asset
  throw_if (purpose_invalid input.purpose) invalid_purpose

-- `${actorSubject}\u0000${idempotencyKey}`
unfoldable pub index_key : String → String → String
index_key actor key = concat actor (concat "\0" key)

-- `if (existingId)`: the payment that holds the key, if any.
abbrev pub existing_id : PaymentStore → String → String → Option String
existing_id s actor key =
    let found = get (index_key actor key) s.idempotency in if truthy found then found else none

-- A fresh payment: with its key, and with the event that says so.
abbrev created_event : PaymentRecord → Option JsonObject → InternalPaymentEventInput
created_event payment details = record {
  payment_id = payment.id;
  event_type = created;
  from_status = none;
  to_status = some awaiting_confirmation;
  runtime_event_id = none;
  request_id = none;
  details = details;
  occurred_at = some payment.created_at;
}

abbrev pub put_claim : PaymentRecord → PaymentStore → PaymentStore
put_claim payment s = record s {
  payments = set payment.id payment s.payments;
  idempotency =
      set (index_key payment.actor_subject payment.idempotency_key) payment.id s.idempotency;
}

abbrev claim_result :
    PaymentRecord → Result StoreError PaymentEvent → Result StoreError IdempotencyClaim
claim_result payment (ok event) = ok (record { outcome = claimed; payment = payment })
claim_result payment (err e) = err e

unfoldable pub store_claim : String → PaymentRecord → Option JsonObject → Op IdempotencyClaim
store_claim now payment details s =
    let (r, s') = append_event now (created_event payment details) (put_claim payment s) in
    (claim_result payment r, s')

-- The payment that `claimIdempotencyKey` makes of its input.
unfoldable pub payment_of_input : String → CreatePaymentInput → PaymentRecord
payment_of_input now input = record {
  id = input.id;
  actor_subject = input.actor_subject;
  idempotency_key = input.idempotency_key;
  request_hash = input.request_hash;
  status = awaiting_confirmation;
  version = 0;
  network = input.network;
  rail = input.rail;
  asset = input.asset;
  mint_address = input.mint_address;
  amount_raw = input.amount_raw;
  purpose = input.purpose;
  recipient = record {
    recipient_address = input.recipient_address;
    recipient_type = get_or input.recipient_type direct_wallet;
    recipient_account_id = input.recipient_account_id;
    recipient_synthetic_id = input.recipient_synthetic_id;
    recipient_snapshot = input.recipient_snapshot;
    recipient_snapshot_version = input.recipient_snapshot_version;
    trust_confirmation_outcome = input.trust_confirmation_outcome;
  };
  lifecycle = no_evidence;
  created_at = now;
  updated_at = now;
}

abbrev pub claim_outcome : Bool → ClaimOutcome
claim_outcome true = existing
claim_outcome false = hash_conflict

unfoldable pub claim_checks : CreatePaymentInput → PaymentStore → Result StoreError (Unit {0})
claim_checks input s = do
  throw_if (not (is_hash input.request_hash)) invalid_request_hash
  validate_create_payment input
  throw_if
      (ltb (utf16_length input.idempotency_key) 16 || ltb 128 (utf16_length input.idempotency_key))
      invalid_idempotency_key
  throw_if (not (has input.actor_subject s.allowlist)) allowlist_entry_missing

-- The rest of the claim, once the key is looked up.
unfoldable pub claim_with : Clock → CreatePaymentInput → Option String → Op IdempotencyClaim
claim_with clock input (some id) s = (
  require_payment s id >>= (λ found. ok (record {
    outcome = claim_outcome (found.request_hash == input.request_hash);
    payment = found;
  })),
  s,
)
claim_with clock input none s =
    if has input.id s.payments
    then (err payment_exists, s)
    else store_claim (clock 1) (payment_of_input (clock 0) input) none s

unfoldable pub claim_idempotency_key : Clock → CreatePaymentInput → Op IdempotencyClaim
claim_idempotency_key clock input s = elim (claim_checks input s) [
  | err e ↦ (err e, s)
  | ok _ ↦ claim_with clock input (existing_id s input.actor_subject input.idempotency_key) s
]
