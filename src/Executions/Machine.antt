-- ===== src/Executions/Machine.antt =====
-- The repository of executions as a machine: requests, what one request does to an execution that
-- is there, and the invariant that the maps keep.

use zephipay_backend.Common.{[], arith, none, nonempty, some, true, ◌+◌, ◌∷◌, List, String, ok, ◌≡◌}
use zephipay_backend.Common.Dict.{Dict, get, set}
use zephipay_backend.Executions.Repository.{
  intent_owner, status_when_claimed, CreateExecutionInput, ExecutionStore, claim_execution,
  create_or_get,
}
use zephipay_backend.Executions.Types.{
  PaymentExecution, ExecutionReceipt, ExecutionStatus, allowed_execution_transitions,
  assert_execution_transition, cancelled, failed_out, in_process, ready, settled_out, submitting,
  uncertain,
}
use zephipay_backend.Executions.Completion.{
  CompleteOperationInput, complete_execution, complete_settlement,
}

pub data ExecutionRequest : Type 0 where
  open_one : CreateExecutionInput → ExecutionRequest
  -- attempt ID, statuses, worker, now, expiry of the lease
  take_one : String → List ExecutionStatus → String → String → String → ExecutionRequest
  close_one : CompleteOperationInput → ExecutionRequest
  settle_one : CompleteOperationInput → ExecutionReceipt → ExecutionRequest

-- The state that a request leaves, whether it returns or throws.
unfoldable pub execute : ExecutionRequest → ExecutionStore → ExecutionStore
execute (open_one input) s = (create_or_get input s).1
execute (take_one attempt statuses worker now expires) s =
    (claim_execution attempt statuses worker now expires s).1
execute (close_one input) s = (complete_execution input s).1
execute (settle_one input receipt) s = (complete_settlement input receipt s).1

-- The steps that the table of transitions allows, and no step at all.
pub data ExecutionStep : ExecutionStatus → ExecutionStatus → Type 0 where
  stays : {a : ExecutionStatus} → ExecutionStep a a
  submits : ExecutionStep ready submitting
  withdraws : ExecutionStep ready cancelled
  accepted : ExecutionStep submitting in_process
  lost_answer : ExecutionStep submitting uncertain
  refused_submission : ExecutionStep submitting failed_out
  settles : ExecutionStep in_process settled_out
  loses_track : ExecutionStep in_process uncertain
  fails : ExecutionStep in_process failed_out
  found_again : ExecutionStep uncertain in_process
  settled_unseen : ExecutionStep uncertain settled_out
  failed_unseen : ExecutionStep uncertain failed_out

ruleset execution_steps = (
  stays, submits, withdraws, accepted, lost_answer, refused_submission, settles, loses_track, fails,
  found_again, settled_unseen, failed_unseen,
)

pub assert_execution_transition-Step :
    (a b : ExecutionStatus) → assert_execution_transition a b ≡ ok tt → ExecutionStep a b
unfolding assert_execution_transition allowed_execution_transitions
assert_execution_transition-Step a b h = grind (arith, execution_steps)

-- A claim starts a ready execution and leaves the status of any other.
pub status_when_claimed-Step : (a : ExecutionStatus) → ExecutionStep a (status_when_claimed a)
status_when_claimed-Step a = grind (arith, execution_steps)

-- The fields that no request changes, the step of the status, and the count of the changes.
pub record Advances (e e' : PaymentExecution) : Type 0 where
  pub same_id : e'.execution_id ≡ e.execution_id
  pub same_intent : e'.payment_intent_id ≡ e.payment_intent_id
  pub same_actor : e'.actor_subject ≡ e.actor_subject
  pub steps : ExecutionStep e.status e'.status
  pub counts : e'.version ≡ e.version + 1

-- What a request writes to the executions, to their index and to the receipts.
pub data ExecutionWrite (s t : ExecutionStore) : Type 0 where
  kept_all :
      t.executions ≡ s.executions
      → t.by_intent ≡ s.by_intent
      → t.receipts ≡ s.receipts
      → ExecutionWrite s t
  opened :
      (e : PaymentExecution)
      → get e.execution_id s.executions ≡ none
      → nonempty e.execution_id ≡ true
      → intent_owner s e.payment_intent_id ≡ none
      → t.executions ≡ set e.execution_id e s.executions
      → t.by_intent ≡ set e.payment_intent_id e.execution_id s.by_intent
      → t.receipts ≡ s.receipts
      → ExecutionWrite s t
  advanced :
      (e e' : PaymentExecution)
      → get e.execution_id s.executions ≡ some e
      → Advances e e'
      → t.executions ≡ set e.execution_id e' s.executions
      → t.by_intent ≡ s.by_intent
      → t.receipts ≡ s.receipts
      → ExecutionWrite s t
  settled_with :
      (e e' : PaymentExecution) (r : ExecutionReceipt)
      → get e.execution_id s.executions ≡ some e
      → Advances e e'
      → e'.status ≡ settled_out
      → e'.payment_intent_id ≡ r.payment_intent_id
      → e'.actor_subject ≡ r.actor_subject
      → get r.payment_intent_id s.receipts ≡ none
      → t.executions ≡ set e.execution_id e' s.executions
      → t.by_intent ≡ s.by_intent
      → t.receipts ≡ set r.payment_intent_id r s.receipts
      → ExecutionWrite s t

-- The keys are the IDs of the executions, each once.
unfoldable pub WellKeyed : Dict PaymentExecution → Type 0
WellKeyed [] = Unit
WellKeyed ((k, e) ∷ m) = (e.execution_id ≡ k) × (get k m ≡ none) × WellKeyed m

-- A new execution gets an ID of its own: the service makes it of random bits.
abbrev pub HasFreshId : ExecutionRequest → ExecutionStore → Type 0
HasFreshId (open_one input) s =
    (get input.execution_id s.executions ≡ none) × (nonempty input.execution_id ≡ true)
HasFreshId _ s = Unit
