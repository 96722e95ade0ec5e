-- ===== src/Executions/History.antt =====
-- What the repository of executions keeps over any run of requests.

use zephipay_backend.Executions.Follow.{
  get-advanced, set-WellKeyed, set_at-WellKeyed, still_settled, write-Follows, Follows,
}
use zephipay_backend.Common.{
  subst, eq_refl, sym, ap, eq_iff, ◌∙◌, Bool-cases, String, arith, inl, inr, nonempty, some, true,
  ◌==◌, ◌≡◌,
}
use zephipay_backend.Executions.Machine.{
  ExecutionRequest, ExecutionWrite, HasFreshId, advanced, execute, kept_all, opened, settled_with,
  WellKeyed,
}
use zephipay_backend.Executions.Writes.{execute-Write}
use zephipay_backend.Common.Dict.{get, get-set}
use zephipay_backend.Executions.Repository.{ExecutionStore}
use zephipay_backend.Executions.Types.{ExecutionReceipt, PaymentExecution, settled_out}

pub record ExecutionInv (s : ExecutionStore) : Type 0 where
  pub well_keyed : WellKeyed s.executions
  pub owned :
      (k : String) (e : PaymentExecution)
      → get k s.executions ≡ some e
      → (nonempty k ≡ true) × (get e.payment_intent_id s.by_intent ≡ some k)
  pub settled_receipts :
      (i : String) (r : ExecutionReceipt)
      → get i s.receipts ≡ some r
      → (k : String) × (e : PaymentExecution) × (get k s.executions ≡ some e)
        × (e.status ≡ settled_out)
        × (e.payment_intent_id ≡ i)
        × (e.actor_subject ≡ r.actor_subject)

owned_again :
    (s t : ExecutionStore) (k : String) (x : PaymentExecution)
    → ExecutionInv s
    → ExecutionWrite s t
    → get k t.executions ≡ some x
    → (nonempty k ≡ true) × (get x.payment_intent_id t.by_intent ≡ some k)
owned_again s t k x inv (kept_all w i r) h = ground (arith, w, i, inv.owned k x)
owned_again s t k x inv (opened q fresh named unowned w i r) h = ground (
  arith,
  w,
  i,
  get-set q.execution_id k q s.executions,
  get-set q.payment_intent_id x.payment_intent_id q.execution_id s.by_intent,
  inv.owned k x,
  eq_iff q.execution_id k,
  eq_iff q.payment_intent_id x.payment_intent_id,
)
owned_again s t k x inv (advanced a a' g adv w i r) h = ground (
  arith,
  get-advanced k a a' s t w,
  i,
  adv.same_intent,
  inv.owned k x,
  inv.owned k a,
  eq_iff a.execution_id k,
)
owned_again s t k x inv (settled_with a a' q g adv f i' c fresh w i r) h = ground (
  arith,
  get-advanced k a a' s t w,
  i,
  adv.same_intent,
  inv.owned k x,
  inv.owned k a,
  eq_iff a.execution_id k,
)

-- The settled execution of a receipt.
SettledFor : String → ExecutionReceipt → ExecutionStore → Type 0
SettledFor i r s =
    (k : String) × (e : PaymentExecution) × (get k s.executions ≡ some e)
    × (e.status ≡ settled_out)
    × (e.payment_intent_id ≡ i)
    × (e.actor_subject ≡ r.actor_subject)

settled_later :
    (s t : ExecutionStore) (i : String) (r : ExecutionReceipt)
    → ExecutionWrite s t
    → SettledFor i r s
    → SettledFor i r t
unfolding SettledFor
settled_later s t i r w (k, e, h, ended_so, intent, actor) =
    let f = write-Follows k e s t h w in
    (
      k,
      f.next,
      f.there,
      still_settled e.status f.next.status f.next_steps ended_so,
      f.next_intent ∙ intent,
      f.next_actor ∙ actor,
    )

receipts_again :
    (s t : ExecutionStore) (i : String) (r : ExecutionReceipt)
    → ExecutionInv s
    → ExecutionWrite s t
    → get i t.receipts ≡ some r
    → SettledFor i r t
unfolding SettledFor
receipts_again s t i r inv (kept_all w x same) h =
    settled_later s t i r (kept_all w x same) (inv.settled_receipts i r (ground (arith, same)))
receipts_again s t i r inv (opened q fresh named unowned w x same) h =
    settled_later s t i r (opened q fresh named unowned w x same)
      (inv.settled_receipts i r (ground (arith, same)))
receipts_again s t i r inv (advanced a a' g adv w x same) h =
    settled_later s t i r (advanced a a' g adv w x same)
      (inv.settled_receipts i r (ground (arith, same)))
receipts_again s t i r inv (settled_with a a' q g adv f intent actor fresh w x put_there) h =
    elim (Bool-cases (q.payment_intent_id == i)) [
      | inl same ↦
          let r_is : q ≡ r =
            ground (arith, put_there, get-set q.payment_intent_id i q s.receipts) in
          (
            a.execution_id,
            a',
            ground (arith, get-advanced a.execution_id a a' s t w, eq_refl a.execution_id),
            f,
            ground (arith, intent, eq_iff q.payment_intent_id i),
            actor ∙ ap (λ y. y.actor_subject) r_is,
          )
      | inr other ↦
          settled_later s t i r (settled_with a a' q g adv f intent actor fresh w x put_there) (
            inv.settled_receipts i r
              (ground (arith, put_there, get-set q.payment_intent_id i q s.receipts)))
    ]

written-WellKeyed :
    (s t : ExecutionStore) → WellKeyed s.executions → ExecutionWrite s t → WellKeyed t.executions
written-WellKeyed s t k (kept_all w i r) = subst WellKeyed (sym w) k
written-WellKeyed s t k (opened q fresh named unowned w i r) =
    subst WellKeyed (sym w) (set-WellKeyed q s.executions k)
written-WellKeyed s t k (advanced a a' g adv w i r) =
    subst WellKeyed (sym w) (set_at-WellKeyed a.execution_id a' s.executions adv.same_id k)
written-WellKeyed s t k (settled_with a a' q g adv f i' c fresh w i r) =
    subst WellKeyed (sym w) (set_at-WellKeyed a.execution_id a' s.executions adv.same_id k)

-- Every request keeps the invariant, one that throws included.
pub execute-ExecutionInv :
    (request : ExecutionRequest) (s : ExecutionStore)
    → ExecutionInv s
    → HasFreshId request s
    → ExecutionInv (execute request s)
unfolding SettledFor
execute-ExecutionInv request s inv fresh =
    let t = execute request s in
    let w = execute-Write request s inv.well_keyed fresh in
    record {
      well_keyed = written-WellKeyed s t inv.well_keyed w;
      owned = λ k x h. owned_again s t k x inv w h;
      settled_receipts = λ i r h. receipts_again s t i r inv w h;
    }

-- On a store that satisfies the invariant, a request, with a fresh ID if it opens an execution,
-- leaves an execution that is there under its ID, of the same payment and actor, moved by at most one
-- step of the table of transitions, and with no smaller version.
pub execute-Follows :
    (request : ExecutionRequest) (s : ExecutionStore) (k : String) (e : PaymentExecution)
    → ExecutionInv s
    → HasFreshId request s
    → get k s.executions ≡ some e
    → Follows k e (execute request s)
execute-Follows request s k e inv fresh h =
    write-Follows k e s (execute request s) h (execute-Write request s inv.well_keyed fresh)
