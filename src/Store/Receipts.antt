-- ===== src/Store/Receipts.antt =====
-- `storeVerifiedReceipt` and `validateReceipt`: the one way to COMPLETED.

use zephipay_backend.Payments.Types.{
  PaymentEvent, PaymentLifecycleEvidence, PaymentRecord, completed, no_evidence, receipt_verified,
}
use zephipay_backend.Common.{
  Option, Result, String, eq_ℤ, err, get_or, is_hash, is_negative, none, not, ok, some, throw_if, ℤ,
  ◌==◌, ◌>>=◌, ◌>>◌, ◌||◌,
}
use zephipay_backend.Common.Dict.{has, set}
use zephipay_backend.Json.{JsonObject, clone_json_object}
use zephipay_backend.Payments.Lifecycle.{validate_receipt_completion_transition}
use zephipay_backend.Store.Events.{
  InternalPaymentEventInput, append_event, apply_evidence, require_payment, runtime_event_seen,
}
use zephipay_backend.Store.Observations.{replaces}
use zephipay_backend.Store.State.{
  Clock, CreatePaymentReceiptInput, Op, PaymentReceipt, PaymentStore, StoreError,
  invalid_onchain_reference, json, negative_slot, receipt_evidence_mismatch, receipt_exists,
  receipt_payment_mismatch, receipt_pda_exists, receipt_pda_mismatch, receipt_signature_mismatch,
  rethrow, runtime_event_exists, signature_exists, transition, version_conflict,
}
use zephipay_backend.Store.Transitions.{details_or_empty, owned_by_other, version_differs}

pub record ReceiptEventInput : Type 0 where
  pub runtime_event_id : Option String
  pub request_id : Option String
  pub details : Option JsonObject
  pub occurred_at : Option String

pub record StoreReceiptInput : Type 0 where
  pub payment_id : String
  pub expected_version : ℤ
  pub receipt : CreatePaymentReceiptInput
  pub event : ReceiptEventInput

unfoldable pub validate_receipt : PaymentRecord → PaymentReceipt → Result StoreError (Unit {0})
validate_receipt payment receipt = do
  throw_if (not (receipt.payment_id == payment.id)) receipt_payment_mismatch
  throw_if
      (not (receipt.network == payment.network)
        || not (receipt.mint_address == payment.mint_address)
        || not (receipt.recipient_address == payment.recipient.recipient_address)
        || not (eq_ℤ receipt.amount_raw payment.amount_raw))
      receipt_evidence_mismatch
  throw_if (replaces payment.lifecycle.solana_signature receipt.solana_signature)
      receipt_signature_mismatch
  throw_if (replaces payment.lifecycle.receipt_pda receipt.receipt_pda) receipt_pda_mismatch
  throw_if (not (is_hash receipt.onchain_reference)) invalid_onchain_reference
  throw_if (is_negative receipt.slot) negative_slot
  rethrow json (clone_json_object receipt.raw_receipt) >>= λ copy. ok tt

-- The evidence of the completion, from the receipt.
abbrev pub receipt_evidence : PaymentReceipt → PaymentLifecycleEvidence
receipt_evidence receipt = record no_evidence {
  solana_signature = some receipt.solana_signature;
  confirmed_slot = some receipt.slot;
  receipt_pda = some receipt.receipt_pda;
  completed_at = some receipt.verified_at;
  confirmation_status = some "confirmed";
}

-- What the checks hand to the writes.
pub record Completion : Type 0 where
  pub before : PaymentRecord
  pub after : PaymentRecord
  pub receipt : PaymentReceipt
  pub details : JsonObject

-- `createdAt` is the input's or the first reading of the clock, `updatedAt` the next reading.
abbrev pub clock_after : Clock → Option String → String
clock_after clock none = clock 1
clock_after clock (some given) = clock 0

unfoldable pub receipt_checks :
    Clock → StoreReceiptInput → PaymentStore → Result StoreError Completion
receipt_checks clock input s = do
  let receipt = input.receipt.receipt
  current ← require_payment s input.payment_id
  throw_if (version_differs current input.expected_version) version_conflict
  throw_if (has input.payment_id s.receipts) receipt_exists
  validate_receipt current receipt
  throw_if (owned_by_other s.signatures receipt.solana_signature input.payment_id) signature_exists
  throw_if (owned_by_other s.receipt_pdas receipt.receipt_pda input.payment_id) receipt_pda_exists
  throw_if (runtime_event_seen s input.event.runtime_event_id) runtime_event_exists
  details ← rethrow json (clone_json_object (details_or_empty input.event.details))
  rethrow transition
      (validate_receipt_completion_transition current.status (receipt_evidence receipt))
  raw ← rethrow json (clone_json_object receipt.raw_receipt)
  payment ←
      apply_evidence (clock_after clock input.receipt.created_at?) current completed
        (receipt_evidence receipt)
  ok (record {
    before = current;
    after = payment;
    receipt = record receipt {
      created_at = get_or input.receipt.created_at? (clock 0);
      raw_receipt = raw;
    };
    details = details;
  })

abbrev pub put_completion : StoreReceiptInput → Completion → PaymentStore → PaymentStore
put_completion input done s = record s {
  receipts = set input.payment_id done.receipt s.receipts;
  signatures = set done.receipt.solana_signature input.payment_id s.signatures;
  receipt_pdas = set done.receipt.receipt_pda input.payment_id s.receipt_pdas;
  payments = set input.payment_id done.after s.payments;
}

abbrev verified_event : StoreReceiptInput → Completion → InternalPaymentEventInput
verified_event input done = record {
  payment_id = input.payment_id;
  event_type = receipt_verified;
  from_status = some done.before.status;
  to_status = some completed;
  runtime_event_id = input.event.runtime_event_id;
  request_id = input.event.request_id;
  details = some done.details;
  occurred_at = input.event.occurred_at;
}

abbrev with_receipt :
    Completion → Result StoreError PaymentEvent → Result StoreError (PaymentRecord × PaymentReceipt)
with_receipt done (ok event) = ok (done.after, done.receipt)
with_receipt done (err e) = err e

unfoldable pub store_verified_receipt :
    Clock → StoreReceiptInput → Op (PaymentRecord × PaymentReceipt)
store_verified_receipt clock input s = elim (receipt_checks clock input s) [
  | err e ↦ (err e, s)
  | ok done ↦
      let (r, s') =
        append_event (clock 2) (verified_event input done) (put_completion input done s) in
      (with_receipt done r, s')
]
