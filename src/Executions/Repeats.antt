-- ===== src/Executions/Repeats.antt =====
-- Completions and settlements that are made again.

use zephipay_backend.Common.{
  ap, none, refl, some, true, Result-cases, arith, eq_refl, err, inl, inr, ok, ◌≡◌,
}
use zephipay_backend.Common.Dict.{get, get-set}
use zephipay_backend.Executions.Completion.{
  clone_receipt, complete_settlement, completion_writes, CompleteOperationInput, complete_execution,
  completed_execution, completion_checks,
}
use zephipay_backend.Executions.Types.{
  ExecutionReceipt, same_status, settled_out, PaymentExecution, version_or_lease_conflict,
}
use zephipay_backend.Executions.Writes.{
  complete_settlement-cases, checked_execution, completion_writes-same, get_keyed,
}
use zephipay_backend.Json.{
  JsonItems, JsonObject, array, boolean, cons, end, field, fraction, integer, nil, not_finite, null,
  number, object, reparse_items, reparse_object, text, JsonValue, reparse_value,
}
use zephipay_backend.Executions.History.{ExecutionInv}
use zephipay_backend.Executions.Repository.{ExecutionStore}

mutual
  unfolding reparse_value reparse_items reparse_object

  reparse_value_again : (v : JsonValue) → reparse_value (reparse_value v) ≡ reparse_value v
  reparse_value_again null = refl
  reparse_value_again (boolean b) = refl
  reparse_value_again (number (integer n)) = refl
  reparse_value_again (number (fraction m e)) = refl
  reparse_value_again (number not_finite) = refl
  reparse_value_again (text s) = refl
  reparse_value_again (array xs) = ap array (reparse_items_again xs)
  reparse_value_again (object fs) = ap object (reparse_object_again fs)

  reparse_items_again : (xs : JsonItems) → reparse_items (reparse_items xs) ≡ reparse_items xs
  reparse_items_again nil = refl
  reparse_items_again (cons x xs) = cc (reparse_value_again x, reparse_items_again xs)

  reparse_object_again : (fs : JsonObject) → reparse_object (reparse_object fs) ≡ reparse_object fs
  reparse_object_again end = refl
  reparse_object_again (field k v fs) = cc (reparse_value_again v, reparse_object_again fs)

clone_receipt_again : (r : ExecutionReceipt) → clone_receipt (clone_receipt r) ≡ clone_receipt r
unfolding clone_receipt
clone_receipt_again r = cc (reparse_object_again r.evidence)

-- On a store that satisfies the invariant, a completion that returned, made again, throws that the
-- version or the lease is another one, and leaves the store as it is.
pub complete_again :
    (input : CompleteOperationInput) (s : ExecutionStore) (e : PaymentExecution)
    → (complete_execution input s).0 ≡ ok e
    → ExecutionInv s
    → complete_execution input (complete_execution input s).1
      ≡ (err version_or_lease_conflict, (complete_execution input s).1)
unfolding complete_execution completion_checks completed_execution
complete_again input s e h inv = elim (Result-cases (completion_checks input s)) [
  | inl (current, passed) ↦
      let written = completion_writes-same input current s in
      let there =
        get-set current.execution_id current.execution_id (completed_execution input current)
          s.executions in
      let found = checked_execution input s current passed in
      let key = get_keyed input.execution_id current s.executions inv.well_keyed found in
      ground (arith, written, there, eq_refl current.execution_id, key)
  | inr (x, refused) ↦ absurd (ground arith)
]

-- A settlement whose receipt is kept and whose execution is settled returns them.
settle_kept :
    (input : CompleteOperationInput) (r kept : ExecutionReceipt) (t : ExecutionStore)
    (e : PaymentExecution)
    → same_status input.to_status settled_out ≡ true
    → get r.payment_intent_id t.receipts ≡ some kept
    → get input.execution_id t.executions ≡ some e
    → same_status e.status settled_out ≡ true
    → kept.receipt_id ≡ r.receipt_id
    → complete_settlement input r t ≡ (ok (e, clone_receipt kept), t)
unfolding complete_settlement
settle_kept input r kept t e a b c d same = simp (a, b, c, d, same, eq_refl r.receipt_id)

settled_value :
    (input : CompleteOperationInput) (r : ExecutionReceipt) (s : ExecutionStore)
    (current e : PaymentExecution) (k : ExecutionReceipt)
    → completion_checks input s ≡ ok current
    → get r.payment_intent_id s.receipts ≡ none
    → (complete_settlement input r s).0 ≡ ok (e, k)
    → (e ≡ completed_execution input current) × (k ≡ clone_receipt r)
unfolding complete_settlement complete_execution
settled_value input r s current e k passed fresh h = (ground arith, ground arith)

-- On a store that satisfies the invariant, a settlement that returned, made again with the same
-- receipt, returns the same execution and receipt and leaves the store as it is.
pub settle_again :
    (input : CompleteOperationInput) (r : ExecutionReceipt) (s : ExecutionStore)
    (e : PaymentExecution) (k : ExecutionReceipt)
    → ExecutionInv s
    → (complete_settlement input r s).0 ≡ ok (e, k)
    → complete_settlement input r (complete_settlement input r s).1
      ≡ (ok (e, k), (complete_settlement input r s).1)
settle_again input r s e k inv h = elim (complete_settlement-cases input r s) [
  | inl same ↦ cc
  | inr (current, passed, settles_now, fresh, intent, actor, executions, index, receipts) ↦
      let t = (complete_settlement input r s).1 in
      let (e_is, k_is) = settled_value input r s current e k passed fresh h in
      let written = completion_writes-same input current s in
      let found = checked_execution input s current passed in
      let key = get_keyed input.execution_id current s.executions inv.well_keyed found in
      let there : get input.execution_id t.executions ≡ some (completed_execution input current) =
        ground (
          arith,
          executions,
          written,
          get-set current.execution_id input.execution_id (completed_execution input current)
              s.executions,
          key,
          eq_refl input.execution_id,
        ) in
      let kept : get r.payment_intent_id t.receipts ≡ some (clone_receipt r) = ground (
        arith,
        receipts,
        get-set r.payment_intent_id r.payment_intent_id (clone_receipt r)
            (completion_writes input current s).receipts,
        eq_refl r.payment_intent_id,
      ) in
      let again =
        settle_kept input r (clone_receipt r) t (completed_execution input current) settles_now kept
          there (unfold completed_execution in settles_now) (unfold clone_receipt in refl) in
      cc (again, e_is, k_is, clone_receipt_again r)
]
