-- ===== src/Executions/Completion.antt =====
-- `complete` and `completeSettlement` of storage/memory/inMemoryExecutionRepository.ts.

use zephipay_backend.Common.{
  Bool, Option, Result, String, [], eq_ℤ, err, false, get_or, if◌then◌else◌, none, nonempty, not,
  ok, or_else, pos, some, throw_if, ℕ, ℤ, ◌&&◌, ◌++◌, ◌+◌, ◌==◌, ◌>>=◌, ◌>>◌, ◌||◌, ◌∷◌,
}
use zephipay_backend.Common.Dict.{get, set}
use zephipay_backend.Executions.Repository.{
  ExecutionOp, ExecutionStore, append_execution_event, execution_at,
}
use zephipay_backend.Executions.Types.{
  ExecutionAttempt, ExecutionError, ExecutionEventType, ExecutionOperation, ExecutionReceipt,
  ExecutionStatus, PaymentExecution, SideEffect, assert_execution_transition, execution_settled,
  in_process, not_settled, ownership_mismatch, provider_reference_immutable, receipt_conflict,
  receipt_created, reconcile, reconciliation_failed, reconciliation_pending, same_status,
  settled_out, submission_accepted, submission_failed, submission_unknown, submit, uncertain,
  version_or_lease_conflict,
}
use zephipay_backend.Json.{JsonObject, reparse_object}

pub record CompleteOperationInput : Type 0 where
  pub execution_id : String
  pub expected_version : ℤ
  pub lease_owner : String
  pub attempt_id : String
  pub operation : ExecutionOperation
  pub to_status : ExecutionStatus
  pub completed_at : String
  pub provider_reference : Option String
  pub reconciliation_reference : Option String
  pub submitted_at : Option String
  pub settled_at : Option String
  pub failed_at : Option String
  pub failure_code : Option String
  pub failure_category : Option String
  pub failure_retryable : Option Bool
  pub review_reason : Option String
  pub evidence : Option JsonObject
  pub recovery_action : Option String
  pub side_effect : Option SideEffect
  pub next_attempt_at : Option String
  pub observation_sequence : Option ℕ

-- `current.leaseOwner === input.leaseOwner`
abbrev pub holds_lease : PaymentExecution → String → Bool
holds_lease current owner = elim current.lease_owner [ none ↦ false | some o ↦ o == owner ]

-- `current && given && current !== given`
abbrev reference_changes : Option String → Option String → Bool
reference_changes (some a) (some b) = nonempty a && nonempty b && not (a == b)
reference_changes _ _ = false

abbrev reparsed : Option JsonObject → Option JsonObject → Option JsonObject
reparsed none previous = previous
reparsed (some evidence) previous = some (reparse_object evidence)

abbrev reconciled_at : CompleteOperationInput → ExecutionOperation → Option String → Option String
reconciled_at input reconcile previous = some input.completed_at
reconciled_at input submit previous = previous

unfoldable pub completed_execution : CompleteOperationInput → PaymentExecution → PaymentExecution
completed_execution input current = record current {
  status = input.to_status;
  version = current.version + 1;
  provider_reference = or_else input.provider_reference current.provider_reference;
  reconciliation_reference =
      or_else input.reconciliation_reference current.reconciliation_reference;
  submitted_at = or_else input.submitted_at current.submitted_at;
  settled_at = or_else input.settled_at current.settled_at;
  failed_at = or_else input.failed_at current.failed_at;
  failure_code = or_else input.failure_code current.failure_code;
  failure_category = or_else input.failure_category current.failure_category;
  failure_retryable = or_else input.failure_retryable current.failure_retryable;
  review_reason = or_else input.review_reason current.review_reason;
  settlement_evidence = reparsed input.evidence current.settlement_evidence;
  next_attempt_at = input.next_attempt_at;
  observation_sequence = get_or input.observation_sequence current.observation_sequence;
  last_reconciled_at = reconciled_at input input.operation current.last_reconciled_at;
  lease_owner = none;
  lease_expires_at = none;
  updated_at = input.completed_at;
}

abbrev finished_attempt : CompleteOperationInput → PaymentExecution → ExecutionAttempt
finished_attempt input current = record {
  attempt_id = input.attempt_id;
  execution_id = current.execution_id;
  attempt_number = current.attempt_count;
  operation = input.operation;
  started_at = current.updated_at;
  completed_at = some input.completed_at;
  outcome = some input.to_status;
  failure_code = input.failure_code;
  side_effect = input.side_effect;
  recovery_action = input.recovery_action;
  evidence = reparsed input.evidence none;
}

-- `eventType`
abbrev completion_event : ExecutionOperation → ExecutionStatus → ExecutionEventType
completion_event submit settled_out = execution_settled
completion_event submit in_process = submission_accepted
completion_event submit uncertain = submission_unknown
completion_event submit _ = submission_failed
completion_event reconcile settled_out = execution_settled
completion_event reconcile in_process = reconciliation_pending
completion_event reconcile uncertain = submission_unknown
completion_event reconcile _ = reconciliation_failed

unfoldable pub completion_checks :
    CompleteOperationInput → ExecutionStore → Result ExecutionError PaymentExecution
completion_checks input s = do
  current ← execution_at s input.execution_id
  throw_if
      (not (eq_ℤ (pos current.version) input.expected_version)
        || not (holds_lease current input.lease_owner))
      version_or_lease_conflict
  assert_execution_transition current.status input.to_status
  throw_if (reference_changes current.provider_reference input.provider_reference)
      provider_reference_immutable
  ok current

unfoldable pub completion_writes :
    CompleteOperationInput → PaymentExecution → ExecutionStore → ExecutionStore
completion_writes input current s =
    append_execution_event current.execution_id (completion_event input.operation input.to_status)
      (some current.status) input.to_status input.completed_at
      (record s {
        executions = set current.execution_id (completed_execution input current) s.executions;
        attempts =
            set current.execution_id
              (get_or (get current.execution_id s.attempts) []
                ++ finished_attempt input current ∷ [])
              s.attempts;
      })

-- `complete`, and `completeUnsafe` under it.
unfoldable pub complete_execution : CompleteOperationInput → ExecutionOp PaymentExecution
complete_execution input s = elim (completion_checks input s) [
  | err e ↦ (err e, s)
  | ok current ↦ (ok (completed_execution input current), completion_writes input current s)
]

unfoldable pub clone_receipt : ExecutionReceipt → ExecutionReceipt
clone_receipt receipt = record receipt { evidence = reparse_object receipt.evidence }

-- The receipt of the payment is there already: the same settlement again, or a conflict.
abbrev settled_before :
    CompleteOperationInput
    → ExecutionReceipt
    → ExecutionReceipt
    → ExecutionStore
    → Result ExecutionError (PaymentExecution × ExecutionReceipt)
settled_before completion receipt kept s = do
  execution ← elim (get completion.execution_id s.executions) [
    | none ↦ err receipt_conflict
    | some e ↦ ok e
  ]
  throw_if
      (not (same_status execution.status settled_out)
        || not (kept.receipt_id == receipt.receipt_id))
      receipt_conflict
  ok (execution, clone_receipt kept)

abbrev pub owns_receipt : ExecutionReceipt → Option PaymentExecution → Bool
owns_receipt receipt none = false
owns_receipt receipt (some current) =
    current.payment_intent_id == receipt.payment_intent_id
    && current.actor_subject == receipt.actor_subject

abbrev pub settle_now :
    ExecutionReceipt
    → Result ExecutionError PaymentExecution × ExecutionStore
    → Result ExecutionError (PaymentExecution × ExecutionReceipt) × ExecutionStore
settle_now receipt (err e, s) = (err e, s)
settle_now receipt (ok execution, s) = (
  ok (execution, clone_receipt receipt),
  append_execution_event execution.execution_id receipt_created (some settled_out) settled_out
      receipt.created_at
      (record s { receipts = set receipt.payment_intent_id (clone_receipt receipt) s.receipts }),
)

unfoldable pub complete_settlement :
    CompleteOperationInput → ExecutionReceipt → ExecutionOp (PaymentExecution × ExecutionReceipt)
complete_settlement completion receipt s =
    if not (same_status completion.to_status settled_out)
    then (err not_settled, s)
    else elim (get receipt.payment_intent_id s.receipts) [
      | some kept ↦ (settled_before completion receipt kept s, s)
      | none ↦
          if not (owns_receipt receipt (get completion.execution_id s.executions))
          then (err ownership_mismatch, s)
          else settle_now receipt (complete_execution completion s)
    ]
