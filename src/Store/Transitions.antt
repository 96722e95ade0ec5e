-- ===== src/Store/Transitions.antt =====
-- The operations that change a claimed payment: `transitionPayment`, `recordSignatureObservation`,
-- `recordSettlementCheck`, `recordSettlementConfirmation` and `appendInformationalEvent`. Each makes
-- its checks in the order of the source, on the state that it found, and then its writes.

-- `owner && owner !== paymentId`, for the owner of a key in one of the indexes.
use zephipay_backend.Common.{
  Bool, Option, Result, String, eq_ℤ, err, false, get_or, if◌then◌else◌, none, nonempty, not, ok,
  pos, some, throw_if, ℤ, ◌&&◌, ◌==◌, ◌>>=◌, ◌>>◌, ◌||◌,
}
use zephipay_backend.Common.Dict.{Dict, get, set}
use zephipay_backend.Json.{JsonObject, boolean, clone_json_object, end, field, object, put, text}
use zephipay_backend.Payments.Lifecycle.{
  event_type_for_transition, normalize_transition_evidence, validate_payment_transition,
}
use zephipay_backend.Payments.Types.{
  PaymentEvent, PaymentLifecycleEvidence, PaymentRecord, PaymentStatus, PaymentTerminalProof,
  expired_unsigned_transaction, failed, pre_submission_rejection, processing,
  solana_transaction_error, status_eq, unknown,
}
use zephipay_backend.Store.Events.{append_event, apply_evidence, require_payment}
use zephipay_backend.Store.State.{
  Clock, Op, PaymentStore, StoreError, json, rethrow, signature_exists, transition,
  version_conflict,
}

abbrev pub owned_by_other : Dict String → String → String → Bool
owned_by_other index key id = elim (get key index) [
  | none ↦ false
  | some owner ↦ nonempty owner && not (owner == id)
]

abbrev pub version_differs : PaymentRecord → ℤ → Bool
version_differs current expected = not (eq_ℤ (pos current.version) expected)

-- PROCESSING or UNKNOWN: submitted, and not yet settled.
abbrev pub in_flight : PaymentStatus → Bool
in_flight status = status_eq status processing || status_eq status unknown

abbrev pub details_or_empty : Option JsonObject → JsonObject
details_or_empty details = get_or details end

pub record PaymentTransitionInput : Type 0 where
  pub payment_id : String
  pub expected_version : ℤ
  pub to_status : PaymentStatus
  pub evidence : PaymentLifecycleEvidence
  pub request_id : Option String
  pub details : Option JsonObject
  pub occurred_at : Option String

-- `terminalProofToJson`, before the copy: an absent slot is no key.
abbrev pub terminal_proof_to_json : PaymentTerminalProof → JsonObject
terminal_proof_to_json (pre_submission_rejection code reason) =
    field "kind" (text "PRE_SUBMISSION_REJECTION")
      (field "code" (text code) (field "reason" (text reason) end))
terminal_proof_to_json (solana_transaction_error signature none chain) =
    field "kind" (text "SOLANA_TRANSACTION_ERROR")
      (field "signature" (text signature) (field "chainError" chain end))
terminal_proof_to_json (solana_transaction_error signature (some slot) chain) =
    field "kind" (text "SOLANA_TRANSACTION_ERROR")
      (field "signature" (text signature) (field "slot" (text slot) (field "chainError" chain end)))
terminal_proof_to_json (expired_unsigned_transaction blockhash height signed attempted) =
    field "kind" (text "EXPIRED_UNSIGNED_TRANSACTION") (
      field "recentBlockhash" (text blockhash) (
        field "lastValidBlockHeight" (text height) (
          field "transactionWasSigned" (boolean signed)
            (field "submissionWasAttempted" (boolean attempted) end))))

unfoldable pub transition_details :
    PaymentTransitionInput → Option PaymentTerminalProof → Result StoreError JsonObject
transition_details input (some proof) = do
  copy ← rethrow json (clone_json_object (terminal_proof_to_json proof))
  rethrow json
      (clone_json_object (put "terminalProof" (object copy) (details_or_empty input.details)))
transition_details input none = rethrow json (clone_json_object (details_or_empty input.details))

abbrev pub proof_if_failed : PaymentTransitionInput → Option PaymentTerminalProof
proof_if_failed input =
    if status_eq input.to_status failed then input.evidence.terminal_proof else none

-- What the checks of an operation hand to its writes.
pub record Change : Type 0 where
  pub before : PaymentRecord
  pub after : PaymentRecord
  pub signature : Option String
  pub details : JsonObject

abbrev pub signature_taken : PaymentStore → Option String → String → Bool
signature_taken s none id = false
signature_taken s (some signature) id =
    nonempty signature && owned_by_other s.signatures signature id

unfoldable pub transition_checks :
    String → PaymentTransitionInput → PaymentStore → Result StoreError Change
unfolding transition_details
transition_checks now input s = do
  current ← require_payment s input.payment_id
  throw_if (version_differs current input.expected_version) version_conflict
  rethrow transition (validate_payment_transition current.status input.to_status input.evidence)
  let evidence = normalize_transition_evidence input.to_status input.evidence
  throw_if (signature_taken s evidence.solana_signature input.payment_id) signature_exists
  details ← transition_details input (proof_if_failed input)
  updated ← apply_evidence now current input.to_status evidence
  ok (record {
    before = current;
    after = updated;
    signature = evidence.solana_signature;
    details = details;
  })

abbrev pub set_signature : Option String → String → Dict String → Dict String
set_signature none id index = index
set_signature (some signature) id index =
    if nonempty signature then set signature id index else index

abbrev pub with_payment :
    PaymentRecord → Result StoreError PaymentEvent → Result StoreError PaymentRecord
with_payment payment (ok event) = ok payment
with_payment payment (err e) = err e

abbrev pub put_payment : PaymentRecord → PaymentStore → PaymentStore
put_payment payment s = record s { payments = set payment.id payment s.payments }

-- The writes: the index of signatures, the payment, and then the event.
unfoldable pub transition_writes : Clock → PaymentTransitionInput → Change → Op PaymentRecord
transition_writes clock input change s =
    let s' = record s {
      signatures = set_signature change.signature input.payment_id s.signatures;
      payments = set change.after.id change.after s.payments;
    } in
    elim (event_type_for_transition change.before.status input.to_status) [
      | err e ↦ (err (transition e), s')
      | ok event_type ↦
          let (r, s'') =
            append_event (clock 1)
              (record {
                payment_id = change.after.id;
                event_type = event_type;
                from_status = some change.before.status;
                to_status = some change.after.status;
                runtime_event_id = none;
                request_id = input.request_id;
                details = some change.details;
                occurred_at = input.occurred_at;
              })
              s' in
          (with_payment change.after r, s'')
    ]

unfoldable pub transition_payment : Clock → PaymentTransitionInput → Op PaymentRecord
transition_payment clock input s = elim (transition_checks (clock 0) input s) [
  | err e ↦ (err e, s)
  | ok change ↦ transition_writes clock input change s
]
