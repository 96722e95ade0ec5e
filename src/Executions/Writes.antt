-- ===== src/Executions/Writes.antt =====
-- What each request on the executions writes.

use zephipay_backend.Executions.Completion.{
  settle_now, owns_receipt, clone_receipt, complete_settlement, completed_execution,
  CompleteOperationInput, complete_execution, completion_checks, completion_writes,
}
use zephipay_backend.Common.{
  ap, ◌∙◌, Bool-cases, is_some, not, ◌&&◌, ok, refl, ◌⊎◌, List, Option-cases, Result-cases, inl,
  inr, none, nonempty, Bool, Option, String, [], arith, eq_iff, eq_refl, find, some, true, ◌∷◌, ◌≡◌,
}
use zephipay_backend.Executions.Machine.{
  ExecutionRequest, HasFreshId, close_one, execute, open_one, settle_one, settled_with, take_one,
  Advances, advanced, assert_execution_transition-Step, opened, status_when_claimed-Step,
  ExecutionWrite, kept_all, WellKeyed,
}
use zephipay_backend.Executions.Repository.{
  claim_event, is_claimable, operation_for, status_when_claimed, CreateExecutionInput,
  claim_execution, create_or_get, find_claimable, intent_owner, leased, new_execution,
  ExecutionStore, append_execution_event,
}
use zephipay_backend.Executions.Types.{
  receipt_created, ExecutionReceipt, execution_created, ready, same_status, settled_out,
  ExecutionEventType, ExecutionStatus, PaymentExecution,
}
use zephipay_backend.Common.Dict.{set, Dict, get, values}

append-same :
    (id : String) (type : ExecutionEventType) (from : Option ExecutionStatus) (to : ExecutionStatus)
    (at : String) (s : ExecutionStore)
    → ((append_execution_event id type from to at s).executions ≡ s.executions)
      × ((append_execution_event id type from to at s).by_intent ≡ s.by_intent)
      × ((append_execution_event id type from to at s).receipts ≡ s.receipts)
unfolding append_execution_event
append-same id type from to at s = ground arith

pub get_keyed :
    (k : String) (e : PaymentExecution) (m : Dict PaymentExecution)
    → WellKeyed m
    → get k m ≡ some e
    → e.execution_id ≡ k
unfolding WellKeyed get
get_keyed k e [] w h = absurd (ground arith)
get_keyed k e ((j, v) ∷ m) w h = ground (arith, eq_iff j k, get_keyed k e m w.2)

pub find_keyed :
    (p : PaymentExecution → Bool) (e : PaymentExecution) (m : Dict PaymentExecution)
    → WellKeyed m
    → find p (values m) ≡ some e
    → (get e.execution_id m ≡ some e) × (p e ≡ true)
unfolding WellKeyed get values
find_keyed p e [] w h = absurd (ground arith)
find_keyed p e ((j, v) ∷ m) w h =
    ground (arith, eq_iff j e.execution_id, eq_refl j, find_keyed p e m w.2)

create_or_get-Write :
    (input : CreateExecutionInput) (s : ExecutionStore)
    → get input.execution_id s.executions ≡ none
    → nonempty input.execution_id ≡ true
    → ExecutionWrite s (create_or_get input s).1
unfolding create_or_get new_execution
create_or_get-Write input s fresh named =
    elim (Option-cases (intent_owner s input.payment_intent_id)) [
      | inl unowned ↦
          let (executions, index, receipts) =
            append-same input.execution_id execution_created none ready input.now (record s {
              executions = set input.execution_id (new_execution input) s.executions;
              by_intent = set input.payment_intent_id input.execution_id s.by_intent;
            }) in
          opened (new_execution input) fresh named unowned (ground (arith, executions))
            (ground (arith, index)) (ground (arith, receipts))
      | inr (id, owned) ↦ kept_all (ground arith) (ground arith) (ground arith)
    ]

claim_execution-Write :
    (attempt : String) (statuses : List ExecutionStatus) (worker now expires : String)
    (s : ExecutionStore)
    → WellKeyed s.executions
    → ExecutionWrite s (claim_execution attempt statuses worker now expires s).1
unfolding claim_execution leased
claim_execution-Write attempt statuses worker now expires s w =
    elim (Option-cases (find_claimable statuses now s)) [
      | inl nobody ↦ kept_all (ground arith) (ground arith) (ground arith)
      | inr (e, found) ↦
          let e' = leased worker now expires e in
          let (executions, index, receipts) =
            append-same e.execution_id (claim_event (operation_for e.status)) (some e.status)
              (status_when_claimed e.status) now
              (record s { executions = set e.execution_id e' s.executions }) in
          advanced e e' (find_keyed (is_claimable statuses now) e s.executions w found).0
            (record {
              same_id = refl;
              same_intent = refl;
              same_actor = refl;
              steps = status_when_claimed-Step e.status;
              counts = refl;
            })
            (ground (arith, executions)) (ground (arith, index)) (ground (arith, receipts))
    ]

pub checked_execution :
    (input : CompleteOperationInput) (s : ExecutionStore) (e : PaymentExecution)
    → completion_checks input s ≡ ok e
    → get input.execution_id s.executions ≡ some e
unfolding completion_checks
checked_execution input s e h = ground arith

checked-Advances :
    (input : CompleteOperationInput) (s : ExecutionStore) (e : PaymentExecution)
    → completion_checks input s ≡ ok e
    → Advances e (completed_execution input e)
unfolding completion_checks completed_execution
checked-Advances input s e h = record {
  same_id = refl;
  same_intent = refl;
  same_actor = refl;
  steps = assert_execution_transition-Step e.status input.to_status (ground arith);
  counts = refl;
}

checked_get :
    (input : CompleteOperationInput) (s : ExecutionStore) (e : PaymentExecution)
    → WellKeyed s.executions
    → completion_checks input s ≡ ok e
    → get e.execution_id s.executions ≡ some e
checked_get input s e w h =
    let found = checked_execution input s e h in
    let named = get_keyed input.execution_id e s.executions w found in cc

pub completion_writes-same :
    (input : CompleteOperationInput) (e : PaymentExecution) (s : ExecutionStore)
    → ((completion_writes input e s).executions
        ≡ set e.execution_id (completed_execution input e) s.executions)
      × ((completion_writes input e s).by_intent ≡ s.by_intent)
      × ((completion_writes input e s).receipts ≡ s.receipts)
unfolding completion_writes append_execution_event
completion_writes-same input e s = ground arith

complete_execution-Write :
    (input : CompleteOperationInput) (s : ExecutionStore)
    → WellKeyed s.executions
    → ExecutionWrite s (complete_execution input s).1
unfolding complete_execution
complete_execution-Write input s w = elim (Result-cases (completion_checks input s)) [
  | inl (e, passed) ↦
      let (executions, index, receipts) = completion_writes-same input e s in
      advanced e (completed_execution input e) (checked_get input s e w passed)
        (checked-Advances input s e passed) (ground (arith, executions)) (ground (arith, index))
        (ground (arith, receipts))
  | inr (x, refused) ↦ kept_all (ground arith) (ground arith) (ground arith)
]

complete_settlement-now :
    (input : CompleteOperationInput) (r : ExecutionReceipt) (s t : ExecutionStore)
    (e e' : PaymentExecution)
    → same_status input.to_status settled_out ≡ true
    → get r.payment_intent_id s.receipts ≡ none
    → get input.execution_id s.executions ≡ some e
    → owns_receipt r (some e) ≡ true
    → complete_execution input s ≡ (ok e', t)
    → complete_settlement input r s ≡ settle_now r (ok e', t)
unfolding complete_settlement
complete_settlement-now input r s t e e' a b c d f = simp (a, b, c, d, f)

complete_execution-now :
    (input : CompleteOperationInput) (s : ExecutionStore) (e : PaymentExecution)
    → completion_checks input s ≡ ok e
    → complete_execution input s ≡ (ok (completed_execution input e), completion_writes input e s)
unfolding complete_execution
complete_execution-now input s e h = ground arith

-- A settlement either leaves the store alone or completes the execution and keeps its receipt.
pub complete_settlement-cases :
    (input : CompleteOperationInput) (r : ExecutionReceipt) (s : ExecutionStore)
    → ((complete_settlement input r s).1 ≡ s)
      ⊎ ((e : PaymentExecution) × (completion_checks input s ≡ ok e)
          × (same_status input.to_status settled_out ≡ true)
          × (get r.payment_intent_id s.receipts ≡ none)
          × (e.payment_intent_id ≡ r.payment_intent_id)
          × (e.actor_subject ≡ r.actor_subject)
          × ((complete_settlement input r s).1.executions
              ≡ (completion_writes input e s).executions)
          × ((complete_settlement input r s).1.by_intent ≡ (completion_writes input e s).by_intent)
          × ((complete_settlement input r s).1.receipts
              ≡ set r.payment_intent_id (clone_receipt r) (completion_writes input e s).receipts))
unfolding complete_settlement complete_execution completed_execution
complete_settlement-cases input r s = elim (Result-cases (completion_checks input s)) [
  | inl (e, passed) ↦
      let key = checked_execution input s e passed in
      elim (Bool-cases (
        same_status input.to_status settled_out
        && not (is_some (get r.payment_intent_id s.receipts))
        && owns_receipt r (some e))) [
          | inl settles_now ↦
              let fresh : get r.payment_intent_id s.receipts ≡ none = ground arith in
              let now =
                complete_settlement-now input r s (completion_writes input e s) e
                  (completed_execution input e) (ground arith) fresh key (ground arith)
                  (complete_execution-now input s e passed) in
              let same =
                append-same e.execution_id receipt_created (some settled_out) settled_out
                  r.created_at
                  (record (completion_writes input e s) {
                    receipts =
                        set r.payment_intent_id (clone_receipt r)
                          (completion_writes input e s).receipts;
                  }) in
              inr (
                e,
                passed,
                ground arith,
                fresh,
                ground (arith, eq_iff e.payment_intent_id r.payment_intent_id),
                ground (arith, eq_iff e.actor_subject r.actor_subject),
                ap (λ x. x.1.executions) now ∙ same.0,
                ap (λ x. x.1.by_intent) now ∙ same.1,
                ap (λ x. x.1.receipts) now ∙ same.2,
              )
          | inr otherwise ↦ inl (ground arith)
        ]
  | inr (x, refused) ↦ inl (ground arith)
]

complete_settlement-Write :
    (input : CompleteOperationInput) (r : ExecutionReceipt) (s : ExecutionStore)
    → WellKeyed s.executions
    → ExecutionWrite s (complete_settlement input r s).1
unfolding clone_receipt completed_execution
complete_settlement-Write input r s w = elim (complete_settlement-cases input r s) [
  | inl same ↦
      kept_all (ap (λ t. t.executions) same) (ap (λ t. t.by_intent) same)
        (ap (λ t. t.receipts) same)
  | inr (e, passed, settles_now, fresh, intent, actor, executions, index, receipts) ↦
      let (executions', index', receipts') = completion_writes-same input e s in
      settled_with e (completed_execution input e) (clone_receipt r)
        (checked_get input s e w passed) (checked-Advances input s e passed) (ground arith) intent
        actor fresh (executions ∙ executions') (index ∙ index')
        (receipts ∙ ap (set r.payment_intent_id (clone_receipt r)) receipts')
]

pub execute-Write :
    (request : ExecutionRequest) (s : ExecutionStore)
    → WellKeyed s.executions
    → HasFreshId request s
    → ExecutionWrite s (execute request s)
unfolding execute
execute-Write (open_one input) s w fresh = create_or_get-Write input s fresh.0 fresh.1
execute-Write (take_one attempt statuses worker now expires) s w fresh =
    claim_execution-Write attempt statuses worker now expires s w
execute-Write (close_one input) s w fresh = complete_execution-Write input s w
execute-Write (settle_one input receipt) s w fresh = complete_settlement-Write input receipt s w
