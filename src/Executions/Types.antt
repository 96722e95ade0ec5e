-- ===== src/Executions/Types.antt =====
-- executions/executionTypes.ts, executions/executionReceiptTypes.ts and the transition table of
-- executions/executionRepository.ts.

use zephipay_backend.Common.{
  Bool, List, Option, Result, String, [], any, false, if◌then◌else◌, not, ok, throw_if, true, ℕ,
  ◌∷◌,
}
use zephipay_backend.Json.{JsonObject}
use zephipay_backend.Payments.Types.{PaymentIdentitySnapshot}

pub data ExecutionStatus : Type 0 where
  ready submitting in_process uncertain settled_out failed_out cancelled : ExecutionStatus

pub data ExecutionOperation : Type 0 where
  submit reconcile : ExecutionOperation

pub data SideEffect : Type 0 where
  impossible may_have_occurred occurred : SideEffect

pub data ExecutionRail : Type 0 where
  mock solana : ExecutionRail

-- The versions of the runtime contract and of the adapter are 1 by their types.
pub record PaymentExecution : Type 0 where
  pub execution_id : String
  pub payment_intent_id : String
  pub actor_subject : String
  pub status : ExecutionStatus
  pub version : ℕ
  pub selected_rail : ExecutionRail
  pub provider_idempotency_key : String
  pub provider_reference : Option String
  pub reconciliation_reference : Option String
  pub attempt_count : ℕ
  pub observation_sequence : ℕ
  pub next_attempt_at : Option String
  pub last_reconciled_at : Option String
  pub failure_code : Option String
  pub failure_category : Option String
  pub failure_retryable : Option Bool
  pub review_reason : Option String
  pub settlement_evidence : Option JsonObject
  pub created_at : String
  pub started_at : Option String
  pub submitted_at : Option String
  pub settled_at : Option String
  pub failed_at : Option String
  pub cancelled_at : Option String
  pub updated_at : String
  pub lease_owner : Option String
  pub lease_expires_at : Option String

pub record ExecutionAttempt : Type 0 where
  pub attempt_id : String
  pub execution_id : String
  pub attempt_number : ℕ
  pub operation : ExecutionOperation
  pub started_at : String
  pub completed_at : Option String
  pub outcome : Option ExecutionStatus
  pub failure_code : Option String
  pub side_effect : Option SideEffect
  pub recovery_action : Option String
  pub evidence : Option JsonObject

pub data ExecutionEventType : Type 0 where
  execution_created submission_started reconciliation_pending submission_accepted :
      ExecutionEventType
  submission_unknown submission_failed reconciliation_failed : ExecutionEventType
  execution_settled receipt_created : ExecutionEventType

pub record ExecutionEvent : Type 0 where
  pub id : ℕ
  pub execution_id : String
  pub sequence_number : ℕ
  pub event_type : ExecutionEventType
  pub from_status : Option ExecutionStatus
  pub to_status : ExecutionStatus
  pub occurred_at : String

pub record ExecutionReceipt : Type 0 where
  pub receipt_id : String
  pub payment_intent_id : String
  pub execution_id : String
  pub actor_subject : String
  pub runtime_transaction_id : String
  pub rail : ExecutionRail
  pub asset : String
  pub amount_units : String
  pub amount_decimals : Option ℕ
  pub sender_id : String
  pub recipient_id : String
  pub recipient_snapshot : Option PaymentIdentitySnapshot
  pub memo : Option String
  pub provider_reference : Option String
  pub settled_at : String
  pub evidence_type : String
  pub evidence_version : ℕ
  pub evidence : JsonObject
  pub request_hash : String
  pub created_at : String

abbrev pub same_status : ExecutionStatus → ExecutionStatus → Bool
same_status ready ready = true
same_status submitting submitting = true
same_status in_process in_process = true
same_status uncertain uncertain = true
same_status settled_out settled_out = true
same_status failed_out failed_out = true
same_status cancelled cancelled = true
same_status _ _ = false

unfoldable pub allowed_execution_transitions : ExecutionStatus → List ExecutionStatus
allowed_execution_transitions ready = submitting ∷ cancelled ∷ []
allowed_execution_transitions submitting = in_process ∷ uncertain ∷ failed_out ∷ []
allowed_execution_transitions in_process = settled_out ∷ uncertain ∷ failed_out ∷ []
allowed_execution_transitions uncertain = in_process ∷ settled_out ∷ failed_out ∷ []
allowed_execution_transitions settled_out = []
allowed_execution_transitions failed_out = []
allowed_execution_transitions cancelled = []

pub data ExecutionError : Type 0 where
  invalid_execution_transition execution_not_found version_or_lease_conflict : ExecutionError
  provider_reference_immutable not_settled receipt_conflict ownership_mismatch : ExecutionError

-- `assertExecutionTransition`: no change of status is an update of the lease or the observation.
unfoldable pub assert_execution_transition :
    ExecutionStatus → ExecutionStatus → Result ExecutionError (Unit {0})
unfolding allowed_execution_transitions
assert_execution_transition from to =
    if same_status from to
    then ok tt
    else throw_if (not (any (same_status to) (allowed_execution_transitions from)))
        invalid_execution_transition
