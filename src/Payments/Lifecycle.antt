-- ===== src/Payments/Lifecycle.antt =====
-- payments/paymentLifecycle.ts: which changes of status are legal, on what evidence.
pub mod Graph
use zephipay_backend.Common.{
  ℕ, ◌-◌, ◌^◌, Bool, true, false, not, ◌&&◌, ◌||◌, String, ◌==◌, Option, none, some, List, [], ◌∷◌,
  Result, ok, err, ◌>>=◌, ◌>>◌, throw_if, leb, any, if◌then◌else◌, is_some, nonempty, truthy, trim,
  all_chars, is_digit, decimal, ℤ, pos,
}
use zephipay_backend.Payments.Types.{
  PaymentStatus, awaiting_confirmation, processing, unknown, completed, failed, status_eq,
  PaymentEventType, user_confirmed, settlement_unknown, settlement_failed, PaymentTerminalProof,
  pre_submission_rejection, solana_transaction_error, expired_unsigned_transaction,
  PaymentLifecycleEvidence,
}

pub data TransitionError : Type 0 where
  not_allowed : TransitionError
  failed_requires_proof : TransitionError
  completed_only_by_receipt : TransitionError
  processing_requires_confirmation : TransitionError
  completed_requires_evidence : TransitionError
  awaiting_fails_only_by_rejection : TransitionError
  rejection_after_confirmation : TransitionError
  invalid_rejection : TransitionError
  invalid_transaction_error : TransitionError
  invalid_expiry : TransitionError

unfoldable pub legal_transitions : PaymentStatus → List PaymentStatus
legal_transitions awaiting_confirmation = processing ∷ failed ∷ []
legal_transitions processing = unknown ∷ completed ∷ failed ∷ []
legal_transitions unknown = completed ∷ failed ∷ []
legal_transitions completed = []
legal_transitions failed = []

abbrev pub postgres_bigint_max : ℕ
postgres_bigint_max = 2 ^ 63 - 1

-- /^\d+$/ and at most 9_223_372_036_854_775_807
pub is_postgres_bigint : String → Bool
is_postgres_bigint value =
    nonempty value && all_chars is_digit value && leb (decimal value) postgres_bigint_max

abbrev is_rejection : PaymentTerminalProof → Bool
is_rejection (pre_submission_rejection code reason) = true
is_rejection _ = false

-- The tests on the proof's own fields.
pub proof_fields_invalid : PaymentTerminalProof → Bool
unfolding is_postgres_bigint
proof_fields_invalid (pre_submission_rejection code reason) =
    not (nonempty (trim code)) || not (nonempty (trim reason))
proof_fields_invalid (solana_transaction_error signature none chain_error) =
    not (nonempty signature)
proof_fields_invalid (solana_transaction_error signature (some slot) chain_error) =
    not (nonempty signature) || not (is_postgres_bigint slot)
proof_fields_invalid (expired_unsigned_transaction blockhash height signed attempted) =
    not (nonempty blockhash) || not (is_postgres_bigint height) || signed || attempted

abbrev proof_error : PaymentTerminalProof → TransitionError
proof_error (pre_submission_rejection code reason) = invalid_rejection
proof_error (solana_transaction_error signature slot chain_error) = invalid_transaction_error
proof_error (expired_unsigned_transaction blockhash height signed attempted) = invalid_expiry

unfoldable pub validate_terminal_proof :
    PaymentStatus → PaymentTerminalProof → Result TransitionError (Unit {0})
unfolding proof_fields_invalid
validate_terminal_proof from proof = do
  throw_if (status_eq from awaiting_confirmation && not (is_rejection proof))
      awaiting_fails_only_by_rejection
  throw_if ((status_eq from processing || status_eq from unknown) && is_rejection proof)
      rejection_after_confirmation
  throw_if (proof_fields_invalid proof) (proof_error proof)

-- The branch on `to === "FAILED"`.
validate_failure :
    PaymentStatus
    → PaymentLifecycleEvidence
    → Option PaymentTerminalProof
    → Result TransitionError (Unit {0})
validate_failure from evidence none = err failed_requires_proof
validate_failure from evidence (some proof) =
    throw_if (not (truthy evidence.failed_at) || not (truthy evidence.failure_code))
      failed_requires_proof
    >> validate_terminal_proof from proof

unfoldable pub validate_payment_transition :
    PaymentStatus → PaymentStatus → PaymentLifecycleEvidence → Result TransitionError (Unit {0})
unfolding legal_transitions validate_failure
validate_payment_transition from to evidence = do
  throw_if (not (any (status_eq to) (legal_transitions from))) not_allowed
  if status_eq to failed then validate_failure from evidence evidence.terminal_proof else ok tt
  throw_if (status_eq to completed) completed_only_by_receipt
  throw_if
      (status_eq from awaiting_confirmation
        && status_eq to processing
        && (not (truthy evidence.user_confirmed_at) || not (truthy evidence.execution_started_at)))
      processing_requires_confirmation

unfoldable pub validate_receipt_completion_transition :
    PaymentStatus → PaymentLifecycleEvidence → Result TransitionError (Unit {0})
validate_receipt_completion_transition from evidence = do
  throw_if (not (status_eq from processing) && not (status_eq from unknown)) not_allowed
  throw_if
      (not (truthy evidence.solana_signature)
        || not (is_some evidence.confirmed_slot)
        || not (truthy evidence.receipt_pda)
        || not (truthy evidence.completed_at))
      completed_requires_evidence

unfoldable pub event_type_for_transition :
    PaymentStatus → PaymentStatus → Result TransitionError PaymentEventType
event_type_for_transition from to =
    if status_eq from awaiting_confirmation && status_eq to processing
    then ok user_confirmed
    else if status_eq from processing && status_eq to unknown
    then ok settlement_unknown
    else if status_eq to failed
        && (status_eq from awaiting_confirmation
            || status_eq from processing
            || status_eq from unknown)
    then ok settlement_failed
    else err not_allowed

abbrev slot_or : Option String → Option ℤ → Option ℤ
slot_or none previous = previous
slot_or (some slot) previous = some (pos (decimal slot))

abbrev evidence_of_proof :
    PaymentLifecycleEvidence → Option PaymentTerminalProof → PaymentLifecycleEvidence
evidence_of_proof evidence (some (solana_transaction_error signature slot chain_error)) =
    record evidence {
      solana_signature = some signature;
      submitted_slot = slot_or slot evidence.submitted_slot;
      chain_error = some chain_error;
    }
evidence_of_proof evidence (some (expired_unsigned_transaction blockhash height signed attempted)) =
    record evidence { recent_blockhash = some blockhash }
evidence_of_proof evidence _ = evidence

unfoldable pub normalize_transition_evidence :
    PaymentStatus → PaymentLifecycleEvidence → PaymentLifecycleEvidence
normalize_transition_evidence to evidence =
    if status_eq to failed then evidence_of_proof evidence evidence.terminal_proof else evidence

unfoldable pub is_terminal_payment_status : PaymentStatus → Bool
is_terminal_payment_status status = status_eq status completed || status_eq status failed
