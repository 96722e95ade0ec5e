-- ===== src/Executions/Repository.antt =====
-- storage/memory/inMemoryExecutionRepository.ts. The queue that makes operations exclusive is the
-- order of the calls; a copy of an immutable value is the value.

use zephipay_backend.Executions.Types.{
  submission_started, ExecutionAttempt, ExecutionError, ExecutionEvent, ExecutionEventType,
  ExecutionOperation, ExecutionReceipt, ExecutionStatus, PaymentExecution, execution_created,
  execution_not_found, execution_settled, mock, ready, receipt_created, reconcile,
  reconciliation_pending, same_status, submit, submitting,
}
use zephipay_backend.Common.{
  Bool, List, Option, Result, String, [], any, err, false, find, get_or, if◌then◌else◌, length,
  none, nonempty, not, ok, or_else, some, text_le, true, truthy, ℕ, ◌&&◌, ◌++◌, ◌+◌, ◌>>=◌, ◌||◌,
  ◌∷◌,
}
use zephipay_backend.Common.Dict.{Dict, get, set, values}

pub record ExecutionStore : Type 0 where
  pub executions : Dict PaymentExecution
  pub by_intent : Dict String
  pub attempts : Dict (List ExecutionAttempt)
  pub events : Dict (List ExecutionEvent)
  pub receipts : Dict ExecutionReceipt
  pub next_event_id : ℕ

abbrev pub ExecutionOp : Type 0 → Type 0
ExecutionOp A = ExecutionStore → Result ExecutionError A × ExecutionStore

-- Events of these types are kept once for an execution.
abbrev happens_once : ExecutionEventType → Bool
happens_once execution_created = true
happens_once execution_settled = true
happens_once receipt_created = true
happens_once _ = false

-- Equality with one of the types that happen once.
abbrev same_once : ExecutionEventType → ExecutionEventType → Bool
same_once execution_created execution_created = true
same_once execution_settled execution_settled = true
same_once receipt_created receipt_created = true
same_once _ _ = false

abbrev pub events_for : ExecutionStore → String → List ExecutionEvent
events_for s id = get_or (get id s.events) []

unfoldable pub append_execution_event :
    String
    → ExecutionEventType
    → Option ExecutionStatus
    → ExecutionStatus
    → String
    → ExecutionStore
    → ExecutionStore
append_execution_event id type from to at s =
    let list = events_for s id in
    if happens_once type && any (λ event. same_once type event.event_type) list
    then s
    else record s {
      events =
          set id
            (list
              ++ record {
                id = s.next_event_id;
                execution_id = id;
                sequence_number = length list + 1;
                event_type = type;
                from_status = from;
                to_status = to;
                occurred_at = at;
              }
                ∷ [])
            s.events;
      next_event_id = s.next_event_id + 1;
    }

pub record CreateExecutionInput : Type 0 where
  pub execution_id : String
  pub payment_intent_id : String
  pub actor_subject : String
  pub provider_idempotency_key : String
  pub now : String

unfoldable pub new_execution : CreateExecutionInput → PaymentExecution
new_execution input = record {
  execution_id = input.execution_id;
  payment_intent_id = input.payment_intent_id;
  actor_subject = input.actor_subject;
  status = ready;
  version = 0;
  selected_rail = mock;
  provider_idempotency_key = input.provider_idempotency_key;
  provider_reference = none;
  reconciliation_reference = none;
  attempt_count = 0;
  observation_sequence = 0;
  next_attempt_at = none;
  last_reconciled_at = none;
  failure_code = none;
  failure_category = none;
  failure_retryable = none;
  review_reason = none;
  settlement_evidence = none;
  created_at = input.now;
  started_at = none;
  submitted_at = none;
  settled_at = none;
  failed_at = none;
  cancelled_at = none;
  updated_at = input.now;
  lease_owner = none;
  lease_expires_at = none;
}

-- `this.executions.get(id)!`, which fails on a copy of nothing.
abbrev pub execution_at : ExecutionStore → String → Result ExecutionError PaymentExecution
execution_at s id = elim (get id s.executions) [ none ↦ err execution_not_found | some e ↦ ok e ]

-- `if (existingId)`
abbrev pub intent_owner : ExecutionStore → String → Option String
intent_owner s intent = let found = get intent s.by_intent in if truthy found then found else none

unfoldable pub create_or_get : CreateExecutionInput → ExecutionOp (PaymentExecution × Bool)
create_or_get input s = elim (intent_owner s input.payment_intent_id) [
  | some id ↦ (execution_at s id >>= λ found. ok (found, false), s)
  | none ↦
      let value = new_execution input in
      (
        ok (value, true),
        append_execution_event value.execution_id execution_created none ready input.now (record s {
          executions = set value.execution_id value s.executions;
          by_intent = set value.payment_intent_id value.execution_id s.by_intent;
        }),
      )
]

-- `!time || time <= now`
abbrev pub is_due : Option String → String → Bool
is_due none now = true
is_due (some time) now = not (nonempty time) || text_le time now

abbrev pub is_claimable : List ExecutionStatus → String → PaymentExecution → Bool
is_claimable statuses now e =
    any (same_status e.status) statuses
    && is_due e.next_attempt_at now
    && is_due e.lease_expires_at now

-- The first that can be claimed, in the order in which the executions were created.
abbrev pub find_claimable : List ExecutionStatus → String → ExecutionStore → Option PaymentExecution
find_claimable statuses now s = find (is_claimable statuses now) (values s.executions)

abbrev pub operation_for : ExecutionStatus → ExecutionOperation
operation_for ready = submit
operation_for _ = reconcile

abbrev pub status_when_claimed : ExecutionStatus → ExecutionStatus
status_when_claimed ready = submitting
status_when_claimed status = status

abbrev pub claim_event : ExecutionOperation → ExecutionEventType
claim_event submit = submission_started
claim_event reconcile = reconciliation_pending

unfoldable pub leased : String → String → String → PaymentExecution → PaymentExecution
leased worker now expires current = record current {
  status = status_when_claimed current.status;
  version = current.version + 1;
  attempt_count = current.attempt_count + 1;
  started_at = or_else current.started_at (some now);
  lease_owner = some worker;
  lease_expires_at = some expires;
  updated_at = now;
}

abbrev pub fresh_attempt : String → String → PaymentExecution → PaymentExecution → ExecutionAttempt
fresh_attempt attempt_id now current leased_one = record {
  attempt_id = attempt_id;
  execution_id = current.execution_id;
  attempt_number = leased_one.attempt_count;
  operation = operation_for current.status;
  started_at = now;
  completed_at = none;
  outcome = none;
  failure_code = none;
  side_effect = none;
  recovery_action = none;
  evidence = none;
}

-- `attempt_id` is the random UUID of the attempt.
unfoldable pub claim_execution :
    String
    → List ExecutionStatus
    → String
    → String
    → String
    → ExecutionOp (Option (PaymentExecution × ExecutionAttempt))
claim_execution attempt_id statuses worker now expires s = elim (find_claimable statuses now s) [
  | none ↦ (ok none, s)
  | some current ↦
      let after = leased worker now expires current in
      (
        ok (some (after, fresh_attempt attempt_id now current after)),
        append_execution_event current.execution_id (claim_event (operation_for current.status))
            (some current.status) after.status now
            (record s { executions = set current.execution_id after s.executions }),
      )
]
