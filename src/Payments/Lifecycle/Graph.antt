-- ===== src/Payments/Lifecycle/Graph.antt =====
-- What the checks of the lifecycle let through.
use zephipay_backend.Common.{
  ◌||◌, ◌↔◌, Option-cases, ◌<◌, ◌^◌, nonempty, trim, decimal, all_chars, is_digit, Bool, true,
  false, ◌≡◌, inl, inr, Option, none, some, ok, truthy, arith, String,
}
use zephipay_backend.Payments.Types.{
  status_eq, expired_unsigned_transaction, settlement_failed, settlement_unknown,
  solana_transaction_error, PaymentStatus, awaiting_confirmation, processing, unknown, completed,
  failed, PaymentTerminalProof, pre_submission_rejection, PaymentLifecycleEvidence,
  PaymentEventType, user_confirmed,
}
use zephipay_backend.Json.{JsonValue}
use zephipay_backend.Payments.Lifecycle.{
  validate_payment_transition, validate_terminal_proof, event_type_for_transition,
  is_terminal_payment_status,
}

-- The diagram of the lifecycle.
pub data PaymentStep : PaymentStatus → PaymentStatus → Type 0 where
  start : PaymentStep awaiting_confirmation processing
  reject : PaymentStep awaiting_confirmation failed
  lose_sight : PaymentStep processing unknown
  settle : PaymentStep processing completed
  settle_unknown : PaymentStep unknown completed
  fail : PaymentStep processing failed
  fail_unknown : PaymentStep unknown failed

ruleset steps = (start, reject, lose_sight, settle, settle_unknown, fail, fail_unknown)

pub transition-Step :
    (from to : PaymentStatus) (e : PaymentLifecycleEvidence)
    → validate_payment_transition from to e ≡ ok tt
    → PaymentStep from to
unfolding validate_payment_transition
transition-Step from to e h = grind (arith, steps)

-- The event of every change that passes: the confirmation, the loss of sight, or the failure.
abbrev pub expected_event : PaymentStatus → PaymentEventType
expected_event processing = user_confirmed
expected_event unknown = settlement_unknown
expected_event _ = settlement_failed

pub event_type_for_transition_lem :
    (from to : PaymentStatus) (e : PaymentLifecycleEvidence)
    → validate_payment_transition from to e ≡ ok tt
    → event_type_for_transition from to ≡ ok (expected_event to)
unfolding validate_payment_transition event_type_for_transition
event_type_for_transition_lem from to e h = ground arith

abbrev pub IsBigint : String → Type 0
IsBigint s = (nonempty s ≡ true) × (all_chars is_digit s ≡ true) × (decimal s < 2 ^ 63)

-- A terminal proof that says what its kind must say.
abbrev pub IsConclusive : PaymentTerminalProof → Type 0
IsConclusive (pre_submission_rejection code reason) =
    (nonempty (trim code) ≡ true) × (nonempty (trim reason) ≡ true)
IsConclusive (solana_transaction_error signature none chain_error) = nonempty signature ≡ true
IsConclusive (solana_transaction_error signature (some slot) chain_error) =
    (nonempty signature ≡ true) × IsBigint slot
IsConclusive (expired_unsigned_transaction blockhash height signed attempted) =
    (nonempty blockhash ≡ true) × IsBigint height × (signed ≡ false) × (attempted ≡ false)

-- Which kind of proof ends a payment in which status.
pub data Ends : PaymentStatus → PaymentTerminalProof → Type 0 where
  before_submission :
      {code reason : String} → Ends awaiting_confirmation (pre_submission_rejection code reason)
  error_processing :
      {s : String} {slot : Option String} {e : JsonValue}
      → Ends processing (solana_transaction_error s slot e)
  error_unknown :
      {s : String} {slot : Option String} {e : JsonValue}
      → Ends unknown (solana_transaction_error s slot e)
  expired_processing :
      {b h : String} {x y : Bool} → Ends processing (expired_unsigned_transaction b h x y)
  expired_unknown :
      {b h : String} {x y : Bool} → Ends unknown (expired_unsigned_transaction b h x y)

ruleset ends =
    (before_submission, error_processing, error_unknown, expired_processing, expired_unknown)

pub data Justified (e : PaymentLifecycleEvidence) : PaymentStatus → PaymentStatus → Type 0 where
  confirmed :
      truthy e.user_confirmed_at ≡ true
      → truthy e.execution_started_at ≡ true
      → Justified e awaiting_confirmation processing
  lost : Justified e processing unknown
  ended :
      {from : PaymentStatus} (proof : PaymentTerminalProof)
      → e.terminal_proof ≡ some proof
      → truthy e.failed_at ≡ true
      → truthy e.failure_code ≡ true
      → Ends from proof
      → IsConclusive proof
      → Justified e from failed

validate_terminal_proof_sound :
    (from : PaymentStatus) (p : PaymentTerminalProof)
    → is_terminal_payment_status from ≡ false
    → validate_terminal_proof from p ≡ ok tt
    → Ends from p × IsConclusive p
unfolding validate_terminal_proof is_terminal_payment_status
validate_terminal_proof_sound from p a h = grind (arith, ends)

validate_terminal_proof_complete :
    (from : PaymentStatus) (p : PaymentTerminalProof)
    → Ends from p
    → IsConclusive p
    → validate_terminal_proof from p ≡ ok tt
unfolding validate_terminal_proof
validate_terminal_proof_complete from p before_submission c = ground arith
validate_terminal_proof_complete from (solana_transaction_error s none x) _ c = ground arith
validate_terminal_proof_complete from p _ c = ground arith

-- A failure that passes has its proof, which has passed `validateTerminalProof`.
failed_parts :
    (from : PaymentStatus) (e : PaymentLifecycleEvidence)
    → validate_payment_transition from failed e ≡ ok tt
    → (p : PaymentTerminalProof) × (e.terminal_proof ≡ some p)
      × (truthy e.failed_at ≡ true)
      × (truthy e.failure_code ≡ true)
      × (is_terminal_payment_status from ≡ false)
      × (validate_terminal_proof from p ≡ ok tt)
unfolding validate_payment_transition is_terminal_payment_status
failed_parts from e h = elim (Option-cases e.terminal_proof) [
  | inl absent ↦ absurd (ground arith)
  | inr (p, present) ↦ (p, present, ground arith, ground arith, ground arith, ground arith)
]

validate_payment_transition_sound :
    (from to : PaymentStatus) (e : PaymentLifecycleEvidence)
    → validate_payment_transition from to e ≡ ok tt
    → Justified e from to
unfolding validate_payment_transition
validate_payment_transition_sound awaiting_confirmation processing e h =
    confirmed (ground arith) (ground arith)
validate_payment_transition_sound processing unknown e h = lost
validate_payment_transition_sound from failed e h =
    let (p, present, at, code, open_status, valid) = failed_parts from e h in
    let (kind, whole) = validate_terminal_proof_sound from p open_status valid in
    ended p present at code kind whole
validate_payment_transition_sound from to e h = ground arith

validate_payment_transition_complete :
    (from to : PaymentStatus) (e : PaymentLifecycleEvidence)
    → Justified e from to
    → validate_payment_transition from to e ≡ ok tt
unfolding validate_payment_transition
validate_payment_transition_complete from to e (confirmed a b) = ground arith
validate_payment_transition_complete from to e lost = ground arith
validate_payment_transition_complete from to e (ended p present at code kind whole) =
    ended_complete from p kind present at code (validate_terminal_proof_complete from p kind whole)
  where
    ended_complete :
        (f : PaymentStatus) (q : PaymentTerminalProof)
        → Ends f q
        → e.terminal_proof ≡ some q
        → truthy e.failed_at ≡ true
        → truthy e.failure_code ≡ true
        → validate_terminal_proof f q ≡ ok tt
        → validate_payment_transition f failed e ≡ ok tt
    ended_complete f q before_submission a b c v = ground arith
    ended_complete f q _ a b c v = ground arith

-- The validator lets a change of status through exactly if it is justified.
pub validate_payment_transition_iff :
    (from to : PaymentStatus) (e : PaymentLifecycleEvidence)
    → (validate_payment_transition from to e ≡ ok tt) ↔ Justified e from to
validate_payment_transition_iff from to e =
    (validate_payment_transition_sound from to e, validate_payment_transition_complete from to e)

pub transition-live :
    (from to : PaymentStatus) (e : PaymentLifecycleEvidence)
    → validate_payment_transition from to e ≡ ok tt
    → is_terminal_payment_status from ≡ false
unfolding validate_payment_transition is_terminal_payment_status
transition-live from to e h = ground arith

pub transition-not_completed :
    (from to : PaymentStatus) (e : PaymentLifecycleEvidence)
    → validate_payment_transition from to e ≡ ok tt
    → status_eq to completed ≡ false
unfolding validate_payment_transition
transition-not_completed from to e h = ground arith

pub completion-Step :
    (from : PaymentStatus)
    → (status_eq from processing || status_eq from unknown) ≡ true
    → PaymentStep from completed
completion-Step from h = grind (arith, steps)
