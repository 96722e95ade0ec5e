-- ===== src/Store/Observations.antt =====
-- `recordSignatureObservation`, `recordSettlementCheck`, `recordSettlementConfirmation` and
-- `appendInformationalEvent`.

use zephipay_backend.Common.{
  Bool, Option, Result, String, err, false, is_negative, none, nonempty, not, ok, some, throw_if,
  true, ℤ, ◌&&◌, ◌==◌, ◌>>=◌, ◌>>◌,
}
use zephipay_backend.Common.Dict.{set}
use zephipay_backend.Json.{JsonObject, clone_json_object, put, text}
use zephipay_backend.Payments.Types.{
  PaymentEvent, PaymentEventType, PaymentRecord, no_evidence, receipt_verified,
  settlement_confirmed, settlement_failed, signature_observed,
}
use zephipay_backend.Store.Events.{
  InternalPaymentEventInput, append_event, apply_evidence, require_payment,
}
use zephipay_backend.Store.State.{
  Clock, Op, PaymentStore, StoreError, json, negative_slot, reserved_event_type, rethrow,
  signature_exists, signature_replaced, version_conflict, wrong_status,
}
use zephipay_backend.Store.Transitions.{
  Change, details_or_empty, in_flight, owned_by_other, version_differs, with_payment,
}

pub record SignatureObservationInput : Type 0 where
  pub payment_id : String
  pub expected_version : ℤ
  pub solana_signature : String
  pub submitted_at : String
  pub submitted_slot : Option ℤ
  pub recent_blockhash : Option String
  pub request_id : Option String
  pub details : Option JsonObject
  pub occurred_at : Option String

abbrev slot_negative : Option ℤ → Bool
slot_negative none = false
slot_negative (some slot) = is_negative slot

-- `current.x && current.x !== given`
abbrev pub replaces : Option String → String → Bool
replaces none given = false
replaces (some current) given = nonempty current && not (current == given)

unfoldable pub signature_checks :
    String → SignatureObservationInput → PaymentStore → Result StoreError Change
signature_checks now input s = do
  current ← require_payment s input.payment_id
  throw_if (version_differs current input.expected_version) version_conflict
  throw_if (not (in_flight current.status)) wrong_status
  throw_if (owned_by_other s.signatures input.solana_signature input.payment_id) signature_exists
  throw_if (slot_negative input.submitted_slot) negative_slot
  throw_if (replaces current.lifecycle.solana_signature input.solana_signature) signature_replaced
  details ← rethrow json (clone_json_object (details_or_empty input.details))
  updated ← apply_evidence now current current.status (record no_evidence {
    solana_signature = some input.solana_signature;
    submitted_at = some input.submitted_at;
    submitted_slot = input.submitted_slot;
    recent_blockhash = input.recent_blockhash;
  })
  ok (record {
    before = current;
    after = updated;
    signature = some input.solana_signature;
    details = details;
  })

abbrev observed_event : SignatureObservationInput → JsonObject → InternalPaymentEventInput
observed_event input details = record {
  payment_id = input.payment_id;
  event_type = signature_observed;
  from_status = none;
  to_status = none;
  runtime_event_id = none;
  request_id = input.request_id;
  details = some details;
  occurred_at = input.occurred_at;
}

unfoldable pub record_signature_observation : Clock → SignatureObservationInput → Op PaymentRecord
record_signature_observation clock input s = elim (signature_checks (clock 0) input s) [
  | err e ↦ (err e, s)
  | ok change ↦
      let s' = record s {
        signatures = set input.solana_signature input.payment_id s.signatures;
        payments = set input.payment_id change.after s.payments;
      } in
      let (r, s'') = append_event (clock 1) (observed_event input change.details) s' in
      (with_payment change.after r, s'')
]

pub record SettlementCheckInput : Type 0 where
  pub payment_id : String
  pub expected_version : ℤ
  pub last_checked_at : String

unfoldable pub settlement_check_checks :
    String → SettlementCheckInput → PaymentStore → Result StoreError PaymentRecord
settlement_check_checks now input s = do
  current ← require_payment s input.payment_id
  throw_if (version_differs current input.expected_version) version_conflict
  throw_if (not (in_flight current.status)) wrong_status
  apply_evidence now current current.status
      (record no_evidence { last_checked_at = some input.last_checked_at })

unfoldable pub record_settlement_check : Clock → SettlementCheckInput → Op PaymentRecord
record_settlement_check clock input s = elim (settlement_check_checks (clock 0) input s) [
  | err e ↦ (err e, s)
  | ok updated ↦ (ok updated, record s { payments = set input.payment_id updated s.payments })
]

pub record SettlementConfirmationInput : Type 0 where
  pub payment_id : String
  pub expected_version : ℤ
  pub solana_signature : String
  pub confirmed_slot : ℤ
  pub confirmed_at : String
  pub request_id : Option String
  pub details : Option JsonObject
  pub occurred_at : Option String

module _ (decimal_text : ℤ → String) where
  -- `decimal_text` is `BigInt.prototype.toString`.
  unfoldable pub confirmation_details : SettlementConfirmationInput → JsonObject
  confirmation_details input =
      put "confirmedSlot" (text (decimal_text input.confirmed_slot))
        (put "signature" (text input.solana_signature) (details_or_empty input.details))

  unfoldable pub confirmation_checks :
      String → SettlementConfirmationInput → PaymentStore → Result StoreError Change
  unfolding confirmation_details
  confirmation_checks now input s = do
    current ← require_payment s input.payment_id
    throw_if (version_differs current input.expected_version) version_conflict
    throw_if (not (in_flight current.status)) wrong_status
    throw_if (is_negative input.confirmed_slot) negative_slot
    throw_if (replaces current.lifecycle.solana_signature input.solana_signature) signature_replaced
    throw_if (owned_by_other s.signatures input.solana_signature input.payment_id) signature_exists
    details ← rethrow json (clone_json_object (confirmation_details input))
    updated ← apply_evidence now current current.status (record no_evidence {
      solana_signature = some input.solana_signature;
      confirmed_slot = some input.confirmed_slot;
      confirmation_status = some "confirmed";
      last_checked_at = some input.confirmed_at;
    })
    ok (record {
      before = current;
      after = updated;
      signature = some input.solana_signature;
      details = details;
    })

  unfoldable pub record_settlement_confirmation :
      Clock → SettlementConfirmationInput → Op PaymentRecord
  record_settlement_confirmation clock input s = elim (confirmation_checks (clock 0) input s) [
    | err e ↦ (err e, s)
    | ok change ↦
        let s' = record s {
          signatures = set input.solana_signature input.payment_id s.signatures;
          payments = set input.payment_id change.after s.payments;
        } in
        let (r, s'') =
          append_event (clock 1)
            (record {
              payment_id = input.payment_id;
              event_type = settlement_confirmed;
              from_status = some change.before.status;
              to_status = some change.before.status;
              runtime_event_id = none;
              request_id = input.request_id;
              details = some change.details;
              occurred_at = input.occurred_at;
            })
            s' in
        (with_payment change.after r, s'')
  ]

-- The set `INFORMATIONAL_EVENTS`.
abbrev pub is_informational : PaymentEventType → Bool
is_informational settlement_confirmed = false
is_informational settlement_failed = false
is_informational receipt_verified = false
is_informational _ = true

pub record InformationalEventInput : Type 0 where
  pub payment_id : String
  pub event_type : PaymentEventType
  pub runtime_event_id : Option String
  pub request_id : Option String
  pub details : Option JsonObject
  pub occurred_at : Option String

unfoldable pub append_informational_event : Clock → InformationalEventInput → Op PaymentEvent
append_informational_event clock input s =
    elim (require_payment s input.payment_id >>= λ found.
    throw_if (not (is_informational input.event_type)) reserved_event_type) [
      | err e ↦ (err e, s)
      | ok _ ↦
          append_event (clock 0)
            (record {
              payment_id = input.payment_id;
              event_type = input.event_type;
              from_status = none;
              to_status = none;
              runtime_event_id = input.runtime_event_id;
              request_id = input.request_id;
              details = input.details;
              occurred_at = input.occurred_at;
            })
            s
    ]
