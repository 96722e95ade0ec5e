-- ===== src/Tests/Executions.antt =====
-- The repository of executions on concrete requests.

use zephipay_backend.Executions.Leases.{
  Claimable, ExecutionClaim, all_before, claim_all, claim_of, lease_excludes, claim_takes,
}
use zephipay_backend.Executions.Types.{
  submitting, ExecutionAttempt, PaymentExecution, allowed_execution_transitions,
  assert_execution_transition, version_or_lease_conflict, ExecutionReceipt, ExecutionStatus,
  in_process, mock, ready, settled_out, submit,
}
use zephipay_backend.Common.{
  err, get_or, ok, refl, true, ◌+◌, ◌≡◌, String, [], none, pos, some, ℤ, ◌∷◌,
}
use zephipay_backend.Common.Dict.{get, set, values}
use zephipay_backend.Executions.Completion.{
  clone_receipt, complete_execution, complete_settlement, completed_execution, completion_checks,
  completion_writes, CompleteOperationInput,
}
use zephipay_backend.Executions.Follow.{Follows}
use zephipay_backend.Executions.History.{ExecutionInv, execute-Follows}
use zephipay_backend.Executions.Machine.{
  HasFreshId, settle_one, ExecutionRequest, close_one, execute, open_one, take_one,
}
use zephipay_backend.Executions.Repeats.{complete_again, settle_again}
use zephipay_backend.Executions.Repository.{
  append_execution_event, claim_execution, create_or_get, fresh_attempt, leased, new_execution,
  CreateExecutionInput, ExecutionStore,
}
use zephipay_backend.Executions.Runs.{
  Reaches, at_once, empty-ExecutionInv, final_absorbs, is_final, later, one_execution_per_intent,
  Reaches-ExecutionInv, receipt_has_settlement, empty_executions,
}
use zephipay_backend.Json.{reparse_object, end}

abbrev opening : CreateExecutionInput
opening = record {
  execution_id = "x1";
  payment_intent_id = "p1";
  actor_subject = "actor";
  provider_idempotency_key = "provider-key";
  now = "2026-01-01T12:00:00.000Z";
}

abbrev result_of : ExecutionStatus → ℤ → String → CompleteOperationInput
result_of to version at = record {
  execution_id = "x1";
  expected_version = version;
  lease_owner = "worker-1";
  attempt_id = "a1";
  operation = submit;
  to_status = to;
  completed_at = at;
  provider_reference = none;
  reconciliation_reference = none;
  submitted_at = none;
  settled_at = none;
  failed_at = none;
  failure_code = none;
  failure_category = none;
  failure_retryable = none;
  review_reason = none;
  evidence = none;
  recovery_action = none;
  side_effect = none;
  next_attempt_at = none;
  observation_sequence = none;
}

abbrev shop_receipt : ExecutionReceipt
shop_receipt = record {
  receipt_id = "r1";
  payment_intent_id = "p1";
  execution_id = "x1";
  actor_subject = "actor";
  runtime_transaction_id = "t1";
  rail = mock;
  asset = "USDC";
  amount_units = "1500000";
  amount_decimals = some 6;
  sender_id = "s1";
  recipient_id = "c1";
  recipient_snapshot = none;
  memo = none;
  provider_reference = none;
  settled_at = "2026-01-01T12:00:09.000Z";
  evidence_type = "mock";
  evidence_version = 1;
  evidence = end;
  request_hash = "h";
  created_at = "2026-01-01T12:00:09.000Z";
}

abbrev take_x : ExecutionRequest
take_x =
    take_one "a1" (ready ∷ in_process ∷ []) "worker-1" "2026-01-01T12:00:01.000Z"
      "2026-01-01T12:00:31.000Z"

-- Opened, taken, submitted, taken again, settled.

abbrev s1 : ExecutionStore
s1 = execute (open_one opening) empty_executions

abbrev s2 : ExecutionStore
s2 = execute take_x s1

abbrev submitted : CompleteOperationInput
submitted = result_of in_process (pos 1) "2026-01-01T12:00:02.000Z"

abbrev s3 : ExecutionStore
s3 = execute (close_one submitted) s2

abbrev s4 : ExecutionStore
s4 = execute take_x s3

abbrev settlement : CompleteOperationInput
settlement = result_of settled_out (pos 3) "2026-01-01T12:00:03.000Z"

abbrev s5 : ExecutionStore
s5 = execute (settle_one settlement shop_receipt) s4

abbrev x_in : ExecutionStore → PaymentExecution
x_in s = get_or (get "x1" s.executions) (new_execution opening)

fresh_opening : HasFreshId (open_one opening) empty_executions
unfolding get empty_executions
fresh_opening = (refl, refl)

run2 : Reaches empty_executions s2
run2 = later take_x (later (open_one opening) at_once fresh_opening) tt

run4 : Reaches empty_executions s4
run4 = later take_x (later (close_one submitted) run2 tt) tt

run5 : Reaches empty_executions s5
run5 = later (settle_one settlement shop_receipt) run4 tt

inv2 : ExecutionInv s2
inv2 = Reaches-ExecutionInv empty_executions s2 empty-ExecutionInv run2

inv4 : ExecutionInv s4
inv4 = Reaches-ExecutionInv empty_executions s4 empty-ExecutionInv run4

inv5 : ExecutionInv s5
inv5 = Reaches-ExecutionInv empty_executions s5 empty-ExecutionInv run5

there2 : get "x1" s2.executions ≡ some (x_in s2)
unfolding execute create_or_get new_execution append_execution_event claim_execution leased
    complete_execution completion_checks completion_writes completed_execution
    assert_execution_transition allowed_execution_transitions complete_settlement clone_receipt
    reparse_object get set values empty_executions
there2 = refl

there5 : get "x1" s5.executions ≡ some (x_in s5)
unfolding execute create_or_get new_execution append_execution_event claim_execution leased
    complete_execution completion_checks completion_writes completed_execution
    assert_execution_transition allowed_execution_transitions complete_settlement clone_receipt
    reparse_object get set values empty_executions
there5 = refl

settled5 : is_final (x_in s5).status ≡ true
unfolding execute create_or_get new_execution append_execution_event claim_execution leased
    complete_execution completion_checks completion_writes completed_execution
    assert_execution_transition allowed_execution_transitions complete_settlement clone_receipt
    reparse_object get set values empty_executions
settled5 = refl

kept5 : get "p1" s5.receipts ≡ some shop_receipt
unfolding execute create_or_get new_execution append_execution_event claim_execution leased
    complete_execution completion_checks completion_writes completed_execution
    assert_execution_transition allowed_execution_transitions complete_settlement clone_receipt
    reparse_object get set values empty_executions
kept5 = refl

abbrev attempt_one : ExecutionAttempt
attempt_one = fresh_attempt "a1" "2026-01-01T12:00:01.000Z" (x_in s1) (x_in s2)

taken2 :
    (claim_execution "a1"
      (ready ∷ in_process ∷ [])
      "worker-1"
      "2026-01-01T12:00:01.000Z"
      "2026-01-01T12:00:31.000Z"
      s1).0
    ≡ ok (some (x_in s2, attempt_one))
unfolding execute create_or_get new_execution append_execution_event claim_execution leased
    complete_execution completion_checks completion_writes completed_execution
    assert_execution_transition allowed_execution_transitions complete_settlement clone_receipt
    reparse_object get set values empty_executions
taken2 = refl

inv1 : ExecutionInv s1
inv1 =
    Reaches-ExecutionInv empty_executions s1 empty-ExecutionInv
      (later (open_one opening) at_once fresh_opening)

completed2 : (complete_execution submitted s2).0 ≡ ok (completed_execution submitted (x_in s2))
unfolding execute create_or_get new_execution append_execution_event claim_execution leased
    complete_execution completion_checks completion_writes completed_execution
    assert_execution_transition allowed_execution_transitions complete_settlement clone_receipt
    reparse_object get set values empty_executions
completed2 = refl

settled4 :
    (complete_settlement settlement shop_receipt s4).0
    ≡ ok (completed_execution settlement (x_in s4), shop_receipt)
unfolding execute create_or_get new_execution append_execution_event claim_execution leased
    complete_execution completion_checks completion_writes completed_execution
    assert_execution_transition allowed_execution_transitions complete_settlement clone_receipt
    reparse_object get set values empty_executions
settled4 = refl

execute-Follows_example : Follows "x1" (x_in s2) (execute (close_one submitted) s2)
execute-Follows_example = execute-Follows (close_one submitted) s2 "x1" (x_in s2) inv2 tt there2

final_absorbs_example :
    (f : PaymentExecution) × (get "x1" (execute take_x s5).executions ≡ some f)
    × (f.status ≡ (x_in s5).status)
final_absorbs_example =
    final_absorbs s5 (execute take_x s5) "x1" (x_in s5) inv5 (later take_x at_once tt) there5
      settled5

abbrev first_execution : String
first_execution = "x1"

one_execution_per_intent_example : first_execution ≡ first_execution
one_execution_per_intent_example =
    one_execution_per_intent s5 "x1" "x1" (x_in s5) (x_in s5) run5 there5 there5 refl

receipt_has_settlement_example :
    (k : String) × (e : PaymentExecution) × (get k s5.executions ≡ some e)
    × (e.status ≡ settled_out)
    × (e.payment_intent_id ≡ "p1")
    × (e.actor_subject ≡ shop_receipt.actor_subject)
receipt_has_settlement_example = receipt_has_settlement s5 "p1" shop_receipt run5 kept5

claim_takes_example :
    (current : PaymentExecution) × (get (x_in s2).execution_id s1.executions ≡ some current)
    × Claimable (ready ∷ in_process ∷ []) "2026-01-01T12:00:01.000Z" current
    × (get
          (x_in s2).execution_id
          (claim_execution "a1"
            (ready ∷ in_process ∷ [])
            "worker-1"
            "2026-01-01T12:00:01.000Z"
            "2026-01-01T12:00:31.000Z"
            s1).1.executions
        ≡ some (x_in s2))
    × ((x_in s2).lease_owner ≡ some "worker-1")
    × ((x_in s2).lease_expires_at ≡ some "2026-01-01T12:00:31.000Z")
    × ((x_in s2).version ≡ current.version + 1)
    × (attempt_one.attempt_number ≡ current.attempt_count + 1)
claim_takes_example =
    claim_takes "a1" (ready ∷ in_process ∷ []) "worker-1" "2026-01-01T12:00:01.000Z"
      "2026-01-01T12:00:31.000Z" s1 (x_in s2) attempt_one inv1 taken2

abbrev first_worker : ExecutionClaim
first_worker = record {
  attempt = "a1";
  statuses = ready ∷ in_process ∷ [];
  worker = "worker-1";
  now = "2026-01-01T12:00:01.000Z";
  expires = "2026-01-01T12:00:31.000Z";
}

-- Before the lease of the first one ends.
abbrev second_worker : ExecutionClaim
second_worker = record {
  attempt = "a2";
  statuses = submitting ∷ in_process ∷ [];
  worker = "worker-2";
  now = "2026-01-01T12:00:30.000Z";
  expires = "2026-01-01T12:01:00.000Z";
}

second_before : all_before first_worker.expires (second_worker ∷ []) ≡ true
unfolding all_before
second_before = refl

lease_excludes_example :
    get
      (x_in s2).execution_id
      (claim_all (second_worker ∷ []) (claim_of first_worker s1)).executions
    ≡ some (x_in s2)
lease_excludes_example =
    lease_excludes first_worker (second_worker ∷ []) s1 (x_in s2) attempt_one inv1 taken2 refl
      second_before

complete_again_example :
    complete_execution submitted (complete_execution submitted s2).1
    ≡ (err version_or_lease_conflict, (complete_execution submitted s2).1)
complete_again_example =
    complete_again submitted s2 (completed_execution submitted (x_in s2)) completed2 inv2

settle_again_example :
    complete_settlement settlement shop_receipt (complete_settlement settlement shop_receipt s4).1
    ≡ (
      ok (completed_execution settlement (x_in s4), shop_receipt),
      (complete_settlement settlement shop_receipt s4).1,
    )
settle_again_example =
    settle_again settlement shop_receipt s4 (completed_execution settlement (x_in s4)) shop_receipt
      inv4 settled4
